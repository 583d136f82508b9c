-- ===== src/LogServer/Lines/Due.antt =====
-- LogServer::Run: the lines that a round has for the clients, by what fgets gives, apart from the code.
use extension_project.Prelude.{
  ℕ, ◌≡◌, refl, ◌∙◌, ap₂, inl, inr, Bool, true, List, [], ◌∷◌, ◌++◌, Option, none, some, arith, All,
  Bool-cases, Option-cases, if◌then◌else◌, c_string,
}
use extension_project.WebSocket.Ensures.{
  Ensures, Ensures-bind, Ensures-then, Ensures-if, Ensures-weaken,
}
use extension_project.LogServer.Description.{
  LogDescription, Line, get_next_line, end_of_file, open_tail, retry_line, Victim, cleanup,
}
use extension_project.LogServer.Streams.{fgets_text}
use extension_project.LogServer.Names.{AllSound}
use extension_project.LogServer.Round.{
  Events, Outcome, Visit, read_log, read_logs, visit, check_exception, line_to_send,
}
use extension_project.LogServer.Rounds.{IsCalm}

-- A text goes to a client as a C string.
abbrev pub addressed : ℕ → Option (List ℕ) → List (ℕ × List ℕ)
addressed id none = []
addressed id (some text) = (id, c_string text) ∷ []

-- A log has a line for its client if `select` has reported it and the client is there.
abbrev pub due_of : Events → (ℕ → Bool) → LogDescription → List (ℕ × List ℕ)
due_of ev connected log =
    if ev.readable log.fd
    then if connected log.client_id
      then addressed log.client_id (fgets_text (ev.line log.fd))
      else []
    else []

abbrev pub lines_due : Events → (ℕ → Bool) → List LogDescription → List (ℕ × List ℕ)
lines_due ev connected [] = []
lines_due ev connected (log ∷ logs) = due_of ev connected log ++ lines_due ev connected logs

abbrev Sends : List (ℕ × List ℕ) → Visit → Type 0
Sends lines v = v.sent ≡ lines

module _ (ev : Events) (connected : ℕ → Bool) where
  check_exception-Sends :
      (sent : List (ℕ × List ℕ)) (killed : List Victim) (log : LogDescription)
      → Ensures (Sends sent) (check_exception ev sent killed log)
  unfolding check_exception
  check_exception-Sends sent killed log =
      Ensures-if (Sends sent) (ev.exceptional log.fd) _ _
        (λ _. Ensures-then (Sends sent) (cleanup (ev.wait log.fd) log) _ (λ _ _. refl)) (λ _. refl)

  abbrev Carries : LogDescription → Line → Type 0
  Carries log line =
      line_to_send log.client_id line.code line.text
      ≡ addressed log.client_id (fgets_text (ev.line log.fd))

  get_next_line-Carries :
      (log : LogDescription)
      → log.is_open ≡ true
      → IsCalm ev log
      → Ensures (Carries log) (get_next_line (ev.line log.fd) log)
  unfolding get_next_line end_of_file open_tail retry_line
  get_next_line-Carries log h (inl (text, e)) = ground arith
  get_next_line-Carries log h (inr (no_tail, (pid, fd, started))) =
      elim (Option-cases (ev.line log.fd).first) [
        | inr (text, e) ↦ ground arith
        | inl e ↦ elim (Option-cases (ev.line log.fd).retry) [
          | inl e' ↦ ground arith
          | inr (text, e') ↦ ground arith
        ]
      ]

  visit-Sends :
      (log : LogDescription)
      → log.is_open ≡ true
      → IsCalm ev log
      → Ensures (Sends (due_of ev connected log)) (visit ev connected log)
  unfolding visit read_log
  visit-Sends log h calm = elim (Bool-cases (ev.readable log.fd)) [
    | inr quiet ↦ rw quiet (check_exception-Sends [] [] log)
    | inl read ↦ elim (Bool-cases (connected log.client_id)) [
      | inr gone ↦
          rw (read, gone) (Ensures-then (Sends []) (cleanup (ev.wait log.fd) log) _ (λ _ _. refl))
      | inl here ↦
          rw (read, here)
            (Ensures-bind (Carries log)
              (Sends (addressed log.client_id (fgets_text (ev.line log.fd))))
              (get_next_line (ev.line log.fd) log) _ (get_next_line-Carries log h calm)
              (λ line carries.
                Ensures-weaken (Sends (line_to_send log.client_id line.code line.text))
                  (Sends (addressed log.client_id (fgets_text (ev.line log.fd))))
                  (λ v e. e ∙ carries) _ (check_exception-Sends _ _ line.log)))
    ]
  ]

  pub read_logs-lines_due :
      (logs : List LogDescription)
      → AllSound logs
      → All (IsCalm ev) logs
      → Ensures
          (λ (o : Outcome). o.sent ≡ lines_due ev connected logs)
          (read_logs ev connected logs)
  unfolding read_logs
  read_logs-lines_due [] sound calm = refl
  read_logs-lines_due (log ∷ logs) sound calm =
      Ensures-bind (Sends (due_of ev connected log))
        (λ (o : Outcome). o.sent ≡ lines_due ev connected (log ∷ logs)) (visit ev connected log) _
        (visit-Sends log sound.0.is_open calm.0)
        (λ v e.
          Ensures-bind (λ (o : Outcome). o.sent ≡ lines_due ev connected logs)
            (λ (o : Outcome). o.sent ≡ lines_due ev connected (log ∷ logs))
            (read_logs ev connected logs) _ (read_logs-lines_due logs sound.1 calm.1)
            (λ o e'. ap₂ (λ these those. these ++ those) e e'))
