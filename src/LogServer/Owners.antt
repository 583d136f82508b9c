-- ===== src/LogServer/Owners.antt =====
-- log-server.cpp: what is so of each log's client and name stays so, whatever the system answers.
use extension_project.Prelude.{
  ℕ, ◌+◌, ◌≢◌, List, [], ◌∷◌, Option, none, some, arith, All, All-append, Lacks, Lacks-drop, ◌==◌,
  drop, find_text, starts_with,
}
use extension_project.WebSocket.Types.{returns}
use extension_project.WebSocket.Ensures.{Ensures, Ensures-bind, Ensures-then, Ensures-if}
use extension_project.LogServer.Description.{
  LogDescription, OpenResult, opened, no_file, no_stream, open_log, WaitResult, Time, cleanup,
}
use extension_project.LogServer.Requests.{
  Answers, Cleaned, start_reading_log, stop_reading_log, delete_requests_from_client, perform,
  on_message, is_request, add_action, del_action, check_log_name,
}
use extension_project.LogServer.Names.{check_log_name_iff, dots}

module _ (of : ℕ → List ℕ → Type 0) where
  -- Of the client and the name of a log.
  abbrev pub Holds : LogDescription → Type 0
  Holds log = of log.client_id log.name

  abbrev pub AllHold : List LogDescription → Type 0
  AllHold logs = All Holds logs

  abbrev pub Cleans : Cleaned → Type 0
  Cleans c = AllHold c.logs

  start_reading_log-AllHold :
      (result : OpenResult) (now : Time) (id : ℕ) (name : List ℕ) (logs : List LogDescription)
      → of id name
      → AllHold logs
      → AllHold (start_reading_log result now id name logs).0
  unfolding start_reading_log open_log
  start_reading_log-AllHold (opened fd) now id name logs new old =
      All-append logs _ Holds (new, tt) old
  start_reading_log-AllHold no_file now id name logs new old = old
  start_reading_log-AllHold no_stream now id name logs new old = old

  stop_reading_log-AllHold :
      (wait : ℕ → WaitResult) (id : ℕ) (name : List ℕ) (logs : List LogDescription)
      → AllHold logs
      → Ensures Cleans (stop_reading_log wait id name logs)
  unfolding stop_reading_log
  stop_reading_log-AllHold wait id name [] old = tt
  stop_reading_log-AllHold wait id name (log ∷ logs) old =
      Ensures-if Cleans (is_request id name log) _ _
        (λ _. Ensures-then Cleans (cleanup (wait log.fd) log) _ (λ _ _. old.1))
        (λ _.
          Ensures-bind Cleans Cleans (stop_reading_log wait id name logs) _
            (stop_reading_log-AllHold wait id name logs old.1) (λ c h. (old.0, h)))

  abbrev pub Deletes : ℕ → Cleaned → Type 0
  Deletes id c = AllHold c.logs × All (λ log. log.client_id ≢ id) c.logs

  pub delete_requests_from_client-Deletes :
      (wait : ℕ → WaitResult) (id : ℕ) (logs : List LogDescription)
      → AllHold logs
      → Ensures (Deletes id) (delete_requests_from_client wait id logs)
  unfolding delete_requests_from_client
  delete_requests_from_client-Deletes wait id [] old = (tt, tt)
  delete_requests_from_client-Deletes wait id (log ∷ logs) old =
      let rest = delete_requests_from_client-Deletes wait id logs old.1 in
      Ensures-if (Deletes id) (log.client_id == id) _ _
        (λ _. Ensures-then (Deletes id) (cleanup (wait log.fd) log) _ (λ _ _.
          Ensures-bind (Deletes id) (Deletes id) (delete_requests_from_client wait id logs) _ rest
            (λ c h. h)))
        (λ other.
          Ensures-bind (Deletes id) (Deletes id) (delete_requests_from_client wait id logs) _ rest
            (λ c h. ((old.0, h.0), ((ground arith), h.1))))

  perform-AllHold :
      (ev : Answers) (id : ℕ) (message name : List ℕ) (logs : List LogDescription)
      → of id name
      → AllHold logs
      → Ensures Cleans (perform ev id message name logs)
  unfolding perform
  perform-AllHold ev id message name logs new old =
      Ensures-if Cleans (starts_with message add_action) _ _
        (λ _. start_reading_log-AllHold ev.result ev.now id name logs new old)
        (λ _.
          Ensures-if Cleans (starts_with message del_action) _ _
            (λ _. stop_reading_log-AllHold ev.wait id name logs old) (λ _. old))

  -- OnMessage of a client adds at most a log of that client, with a name without "..".
  pub on_message-AllHold :
      (ev : Answers) (id : ℕ) (message : List ℕ) (logs : List LogDescription)
      → ((name : List ℕ) → Lacks dots name → of id name)
      → AllHold logs
      → Ensures Cleans (on_message ev id message logs)
  unfolding on_message
  on_message-AllHold ev id message logs new old =
      Ensures-if Cleans (check_log_name message) _ _
        (λ passed. at_space ((check_log_name_iff message).0 passed) (find_text message (32 ∷ [])))
        (λ _. old)
    where
      at_space :
          Lacks dots message
          → (at : Option ℕ)
          → Ensures Cleans (elim at [
            | none ↦ returns (record { logs = logs; killed = [] })
            | some at ↦ perform ev id message (drop (at + 1) message) logs
          ])
      at_space safe none = old
      at_space safe (some at) =
          perform-AllHold ev id message (drop (at + 1) message) logs
            (new (drop (at + 1) message) (Lacks-drop dots message (at + 1) safe)) old
