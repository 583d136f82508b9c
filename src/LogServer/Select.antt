-- ===== src/LogServer/Select.antt =====
-- LogServer::Run: the descriptor sets of the logs, and a round behind a `select` that has failed.
use extension_project.Prelude.{
  ℕ, ◌≡◌, refl, inl, inr, Bool, true, none, some, List, [], ◌∷◌, arith, subst, All, All-weaken,
  Bool-cases,
}
use extension_project.WebSocket.Types.{returns}
use extension_project.LogServer.Description.{
  LogDescription, Line, get_next_line, with_text, killed_by,
}
use extension_project.LogServer.Requests.{noted}
use extension_project.LogServer.Names.{cleanup_open}
use extension_project.LogServer.Round.{
  Events, Outcome, Visit, failed, filled_set, behind_select, visit, read_log, read_logs,
  check_exception, line_to_send, joined,
}

filled_set-All : (logs : List LogDescription) → All (λ log. filled_set logs log.fd ≡ true) logs
unfolding filled_set
filled_set-All [] = tt
filled_set-All (log ∷ logs) =
    (ground arith, All-weaken (λ it h. ground arith) logs (filled_set-All logs))

-- The log has a line.
abbrev pub HasLine : Events → LogDescription → Type 0
HasLine ev log = (text : List ℕ) × ((ev.line log.fd).first ≡ some text)

-- An open log in both sets, with a line, is visited and dropped.
visit-dropped :
    (ev : Events) (connected : ℕ → Bool) (log : LogDescription)
    → log.is_open ≡ true
    → HasLine ev log
    → ev.readable log.fd ≡ true
    → ev.exceptional log.fd ≡ true
    → (v : Visit) × (visit ev connected log ≡ returns v) × (v.left ≡ none)
unfolding visit read_log check_exception get_next_line
visit-dropped ev connected log h (text, has) r x = elim (Bool-cases (connected log.client_id)) [
  | inl here ↦
      let line : Line = with_text (ev.line log.fd).now text log in
      let got_line : get_next_line (ev.line log.fd) log ≡ returns line = ground arith in
      (
        record {
          left = none;
          sent = line_to_send log.client_id line.code line.text;
          killed = noted (killed_by (ev.wait log.fd) line.log) [];
        },
        rw (r, here, got_line, x, cleanup_open (ev.wait log.fd) line.log h) refl,
        refl,
      )
  | inr gone_client ↦ (
    record { left = none; sent = []; killed = noted (killed_by (ev.wait log.fd) log) [] },
    rw (r, gone_client, cleanup_open (ev.wait log.fd) log h) refl,
    refl,
  )
]

read_logs-dropped :
    (ev : Events) (connected : ℕ → Bool) (logs : List LogDescription)
    → All (λ log. log.is_open ≡ true) logs
    → All (HasLine ev) logs
    → All (λ log. ev.readable log.fd ≡ true) logs
    → All (λ log. ev.exceptional log.fd ≡ true) logs
    → (o : Outcome) × (read_logs ev connected logs ≡ returns o) × (o.logs ≡ [])
unfolding read_logs
read_logs-dropped ev connected [] h lines r x =
    (record { logs = []; sent = []; killed = [] }, refl, refl)
read_logs-dropped ev connected (log ∷ logs) h lines r x =
    let (v, is_v, none_left) = visit-dropped ev connected log h.0 lines.0 r.0 x.0 in
    let (o, is_o, empty) = read_logs-dropped ev connected logs h.1 lines.1 r.1 x.1 in
    (joined v o, rw (is_v, is_o) refl, rw (none_left, joined) empty)

-- The round behind a `select` that has failed, with open logs that each have a line: it goes by the sets
-- as they were filled, so every log counts as readable and as exceptional, and none is left.
pub failed_select-dropped :
    (ev : Events) (connected : ℕ → Bool) (logs : List LogDescription)
    → All (λ log. log.is_open ≡ true) logs
    → All (HasLine ev) logs
    → behind_select failed (filled_set logs) ≡ some (ev.readable, ev.exceptional)
    → (o : Outcome) × (read_logs ev connected logs ≡ returns o) × (o.logs ≡ [])
unfolding behind_select
failed_select-dropped ev connected logs h lines sets =
    let r : filled_set logs ≡ ev.readable = cc sets in
    let x : filled_set logs ≡ ev.exceptional = cc sets in
    read_logs-dropped ev connected logs h lines
      (subst (λ set. All (λ log. set log.fd ≡ true) logs) r (filled_set-All logs))
      (subst (λ set. All (λ log. set log.fd ≡ true) logs) x (filled_set-All logs))
