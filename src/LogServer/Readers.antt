-- ===== src/LogServer/Readers.antt =====
-- log-server.cpp: what a round of Run over the logs keeps, and to whom it sends lines.
use extension_project.Prelude.{
  All-weaken, ℕ, ◌≡◌, refl, sym, Bool, true, false, List, [], ◌∷◌, Option, none, some, All,
  All-append, inl, inr,
}
use extension_project.WebSocket.Types.{returns}
use extension_project.WebSocket.Ensures.{Ensures, Ensures-bind, Ensures-then, Ensures-if}
use extension_project.LogServer.Description.{
  LogDescription, WaitResult, cleanup, closed, Victim, LineEvents, no_line_yet, Line, get_next_line,
  end_of_file, open_tail, retry_line, TailResult, no_pipe, no_fork, no_tail_stream, tailing,
  with_text,
}
use extension_project.LogServer.Requests.{noted}
use extension_project.LogServer.Round.{
  Events, Outcome, Visit, visit, read_log, read_logs, check_exception, line_to_send,
}
use extension_project.LogServer.Rounds.{IsDue, Sent, line_to_send-IsDue}
use extension_project.LogServer.Owners.{Holds, AllHold}

-- The client and the name of a log stay.
record SameOwner (log left : LogDescription) : Type 0 where
  client : left.client_id ≡ log.client_id
  name : left.name ≡ log.name

abbrev LineOwner : LogDescription → Line → Type 0
LineOwner log line = SameOwner log line.log

abbrev TailOwner : LogDescription → Bool × LogDescription → Type 0
TailOwner log p = SameOwner log p.1

abbrev CleanOwner : LogDescription → LogDescription × Option Victim → Type 0
CleanOwner log p = SameOwner log p.0

cleanup-SameOwner :
    (wait : WaitResult) (log : LogDescription) → Ensures (CleanOwner log) (cleanup wait log)
unfolding cleanup
cleanup-SameOwner wait log =
    Ensures-if (CleanOwner log) log.is_open _ _ (λ _. record { client = refl; name = refl })
      (λ _. tt)

open_tail-SameOwner :
    (tail : TailResult) (log : LogDescription) → Ensures (TailOwner log) (open_tail tail log)
unfolding open_tail
open_tail-SameOwner no_pipe log = record { client = refl; name = refl }
open_tail-SameOwner no_fork log = record { client = refl; name = refl }
open_tail-SameOwner (no_tail_stream pid fd) log = tt
open_tail-SameOwner (tailing pid fd) log = record { client = refl; name = refl }

retry_line-SameOwner :
    (ev : LineEvents) (started : Bool) (log left : LogDescription)
    → SameOwner log left
    → LineOwner log (retry_line ev started left)
unfolding retry_line
retry_line-SameOwner ev false log left h = h
retry_line-SameOwner ev true log left h = tried ev.retry
  where
    tried :
        (retry : Option (List ℕ))
        → LineOwner log (elim retry [
          | none ↦ record { code = no_line_yet; log = left; text = none; killed = none }
          | some text ↦ with_text ev.now text left
        ])
    tried none = h
    tried (some text) = record { client = h.client; name = h.name }

end_of_file-SameOwner :
    (ev : LineEvents) (tail_pid : Option ℕ) (log : LogDescription)
    → Ensures (LineOwner log) (end_of_file ev tail_pid log)
unfolding end_of_file
end_of_file-SameOwner ev (some pid) log =
    Ensures-bind (CleanOwner log) (LineOwner log) (cleanup ev.wait log) _
      (cleanup-SameOwner ev.wait log) (λ p h. h)
end_of_file-SameOwner ev none log =
    Ensures-bind (TailOwner (closed log)) (LineOwner log) (open_tail ev.tail (closed log)) _
      (open_tail-SameOwner ev.tail (closed log))
      (λ p h. retry_line-SameOwner ev p.0 log p.1 (record { client = h.client; name = h.name }))

get_next_line-SameOwner :
    (ev : LineEvents) (log : LogDescription) → Ensures (LineOwner log) (get_next_line ev log)
unfolding get_next_line
get_next_line-SameOwner ev log =
    Ensures-if (LineOwner log) log.is_open _ _ (λ _. first ev.first) (λ _. tt)
  where
    first :
        (text : Option (List ℕ))
        → Ensures (LineOwner log) (elim text [
          | some text ↦ returns (with_text ev.now text log)
          | none ↦ end_of_file ev log.tail_pid log
        ])
    first (some text) = record { client = refl; name = refl }
    first none = end_of_file-SameOwner ev log.tail_pid log

module _ (of : ℕ → List ℕ → Type 0) (ev : Events) (connected : ℕ → Bool) where
  abbrev pub LeftHolds : Option LogDescription → Type 0
  LeftHolds none = Unit
  LeftHolds (some log) = Holds of log

  abbrev pub Visits : LogDescription → Visit → Type 0
  Visits log v = LeftHolds v.left × All (IsDue ev connected log) v.sent

  check_exception-Visits :
      (log left : LogDescription) (sent : List (ℕ × List ℕ)) (killed : List Victim)
      → Holds of left
      → All (IsDue ev connected log) sent
      → Ensures (Visits log) (check_exception ev sent killed left)
  unfolding check_exception
  check_exception-Visits log left sent killed h due =
      Ensures-if (Visits log) (ev.exceptional left.fd) _ _
        (λ _. Ensures-then (Visits log) (cleanup (ev.wait left.fd) left) _ (λ _ _. (tt, due)))
        (λ _. (h, due))

  read_log-Visits :
      (here : Bool) (log : LogDescription)
      → here ≡ connected log.client_id
      → ev.readable log.fd ≡ true
      → Holds of log
      → Ensures (Visits log) (read_log ev here log)
  unfolding read_log
  read_log-Visits false log e r h =
      Ensures-then (Visits log) (cleanup (ev.wait log.fd) log) _ (λ _ _. (tt, tt))
  read_log-Visits true log e r h =
      Ensures-bind (LineOwner log) (Visits log) (get_next_line (ev.line log.fd) log) _
        (get_next_line-SameOwner (ev.line log.fd) log)
        (λ line o.
          check_exception-Visits log line.log (line_to_send log.client_id line.code line.text)
            (noted line.killed []) (rw (o.client, o.name) h)
            (line_to_send-IsDue ev connected log line.code line.text r (sym e)))

  pub visit-Visits :
      (log : LogDescription) → Holds of log → Ensures (Visits log) (visit ev connected log)
  unfolding visit
  visit-Visits log h =
      Ensures-if (Visits log) (ev.readable log.fd) _ _
        (λ r. read_log-Visits (connected log.client_id) log refl r h)
        (λ _. check_exception-Visits log log [] [] h tt)

  abbrev pub Reads : List LogDescription → Outcome → Type 0
  Reads logs o = AllHold of o.logs × All (Sent ev connected logs) o.sent

  joined-AllHold :
      (left : Option LogDescription) (logs : List LogDescription)
      → LeftHolds left
      → AllHold of logs
      → AllHold of (elim left [ none ↦ logs | some log ↦ log ∷ logs ])
  joined-AllHold none logs h k = k
  joined-AllHold (some log) logs h k = (h, k)

  -- What is so of each log's client and name is so behind a round, and every line that was sent comes
  -- from a log in the list, which `select` reported, to its client, who is connected.
  pub read_logs-Reads :
      (logs : List LogDescription)
      → AllHold of logs
      → Ensures (Reads logs) (read_logs ev connected logs)
  unfolding read_logs
  read_logs-Reads [] h = (tt, tt)
  read_logs-Reads (log ∷ logs) h =
      Ensures-bind (Visits log) (Reads (log ∷ logs)) (visit ev connected log) _
        (visit-Visits log h.0)
        (λ v d.
          Ensures-bind (Reads logs) (Reads (log ∷ logs)) (read_logs ev connected logs) _
            (read_logs-Reads logs h.1)
            (λ o k. (
              joined-AllHold v.left o.logs d.0 k.0,
              All-append v.sent o.sent (Sent ev connected (log ∷ logs))
                  (All-weaken (λ line d. inr d) o.sent k.1)
                  (All-weaken (λ line d. inl d) v.sent d.1),
            )))
