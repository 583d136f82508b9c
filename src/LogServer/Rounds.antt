-- ===== src/LogServer/Rounds.antt =====
-- LogServer::Run: who is sent a line in a round of the loop, and which logs stay.
use extension_project.Prelude.{
  ℕ, ◌≡◌, refl, ◌⊎◌, inl, inr, Bool, true, List, [], ◌∷◌, Option, none, some, arith, All,
  All-append, All-weaken, Bool-cases, Option-cases,
}
use extension_project.WebSocket.Types.{Run, returns}
use extension_project.LogServer.Description.{
  killed_by, no_text, with_text, retry_line, open_tail, end_of_file, tailing, LogDescription,
  LineCode, line_read, no_line_yet, tail_lost, tail_failed, Line, get_next_line, Victim,
}
use extension_project.LogServer.Names.{cleanup_open, IsSound, AllSound}
use extension_project.LogServer.Requests.{noted}
use extension_project.LogServer.Round.{
  Events, Outcome, Visit, read_log, read_logs, visit, check_exception, line_to_send, joined,
}

-- A line that is sent comes from a log in the list: one that the client follows, that `select`
-- reported, and whose client is connected.
pub record IsDue (ev : Events) (connected : ℕ → Bool) (log : LogDescription) (line : ℕ × List ℕ)
    : Type 0 where
  pub follower : log.client_id ≡ line.0
  pub reported : ev.readable log.fd ≡ true
  pub present : connected line.0 ≡ true

abbrev pub Sent : Events → (ℕ → Bool) → List LogDescription → ℕ × List ℕ → Type 0
Sent ev connected [] line = ⊥
Sent ev connected (log ∷ logs) line = IsDue ev connected log line ⊎ Sent ev connected logs line

-- The calls on a log go well: it has a line, or it is a file without a `tail` and gets one.
abbrev pub IsCalm : Events → LogDescription → Type 0
IsCalm ev log =
    ((text : List ℕ) × ((ev.line log.fd).first ≡ some text))
    ⊎ ((log.tail_pid ≡ none) × ((pid : ℕ) × (fd : ℕ) × ((ev.line log.fd).tail ≡ tailing pid fd)))

-- The log that is left is the one that was there, with an open stream.
record IsLeft (log left : LogDescription) : Type 0 where
  is_open : left.is_open ≡ true
  name : left.name ≡ log.name
  client : left.client_id ≡ log.client_id

abbrev LeftOf : LogDescription → Option LogDescription → Type 0
LeftOf log none = Unit
LeftOf log (some left) = IsLeft log left

same_log : (log : LogDescription) → log.is_open ≡ true → IsLeft log log
same_log log h = record { is_open = h; name = refl; client = refl }

calm_line :
    (ev : Events) (log : LogDescription)
    → log.is_open ≡ true
    → IsCalm ev log
    → (line : Line) × (get_next_line (ev.line log.fd) log ≡ returns line) × IsLeft log line.log
unfolding get_next_line end_of_file open_tail retry_line
calm_line ev log h (inl (text, e)) = (
  with_text (ev.line log.fd).now text log,
  ground arith,
  record { is_open = h; name = refl; client = refl },
)
calm_line ev log h (inr (no_tail, (pid, fd, started))) =
    let tailed : LogDescription = record log { tail_pid = some pid; fd = fd; is_open = true } in
    elim (Option-cases (ev.line log.fd).first) [
      | inr (text, e) ↦ (
        with_text (ev.line log.fd).now text log,
        ground arith,
        record { is_open = h; name = refl; client = refl },
      )
      | inl e ↦ elim (Option-cases (ev.line log.fd).retry) [
        | inl e' ↦ (
          no_text no_line_yet tailed,
          ground arith,
          record { is_open = refl; name = refl; client = refl },
        )
        | inr (text, e') ↦ (
          with_text (ev.line log.fd).now text tailed,
          ground arith,
          record { is_open = refl; name = refl; client = refl },
        )
      ]
    ]

-- What a pass over one log comes to.
abbrev Visited : Events → (ℕ → Bool) → LogDescription → Run Visit → Type 0
Visited ev connected log m =
    (v : Visit) × (m ≡ returns v) × LeftOf log v.left × All (IsDue ev connected log) v.sent

checked :
    (ev : Events) (connected : ℕ → Bool) (log left : LogDescription) (sent : List (ℕ × List ℕ))
    (killed : List Victim)
    → IsLeft log left
    → All (IsDue ev connected log) sent
    → Visited ev connected log (check_exception ev sent killed left)
unfolding check_exception
checked ev connected log left sent killed kept due = elim (Bool-cases (ev.exceptional left.fd)) [
  | inl e ↦ (
    record { left = none; sent = sent; killed = noted (killed_by (ev.wait left.fd) left) killed },
    rw (e, cleanup_open (ev.wait left.fd) left kept.is_open) refl,
    tt,
    due,
  )
  | inr e ↦ (record { left = some left; sent = sent; killed = killed }, rw e refl, kept, due)
]

pub line_to_send-IsDue :
    (ev : Events) (connected : ℕ → Bool) (log : LogDescription) (code : LineCode)
    (text : Option (List ℕ))
    → ev.readable log.fd ≡ true
    → connected log.client_id ≡ true
    → All (IsDue ev connected log) (line_to_send log.client_id code text)
line_to_send-IsDue ev connected log line_read (some text) r c =
    (record { follower = refl; reported = r; present = c }, tt)
line_to_send-IsDue ev connected log line_read none r c = tt
line_to_send-IsDue ev connected log no_line_yet text r c = tt
line_to_send-IsDue ev connected log tail_lost text r c = tt
line_to_send-IsDue ev connected log tail_failed text r c = tt

visit-Visited :
    (ev : Events) (connected : ℕ → Bool) (log : LogDescription)
    → log.is_open ≡ true
    → IsCalm ev log
    → Visited ev connected log (visit ev connected log)
unfolding visit read_log
visit-Visited ev connected log h calm = elim (Bool-cases (ev.readable log.fd)) [
  | inr e ↦
      let quiet = checked ev connected log log [] [] (same_log log h) tt in
      (quiet.0, rw e quiet.1, quiet.2, quiet.3)
  | inl e ↦ elim (Bool-cases (connected log.client_id)) [
    | inr gone_client ↦ (
      record { left = none; sent = []; killed = noted (killed_by (ev.wait log.fd) log) [] },
      rw (e, gone_client, read_log, cleanup_open (ev.wait log.fd) log h) refl,
      tt,
      tt,
    )
    | inl here ↦
        let (line, got_line, kept) = calm_line ev log h calm in
        let (v, is_v, left, due) =
          checked ev connected log line.log (line_to_send log.client_id line.code line.text)
            (noted line.killed []) kept
            (line_to_send-IsDue ev connected log line.code line.text e here) in
        (v, rw (e, here, read_log, got_line) is_v, left, due)
  ]
]

IsSound-IsLeft : (log left : LogDescription) → IsSound log → IsLeft log left → IsSound left
IsSound-IsLeft log left s k = record { is_open = k.is_open; named = rw (k.name) s.named }

joined-AllSound :
    (log : LogDescription) (v : Visit) (rest : Outcome)
    → IsSound log
    → (left : Option LogDescription) → v.left ≡ left
    → LeftOf log left
    → AllSound rest.logs
    → AllSound (joined v rest).logs
joined-AllSound log v rest s none e kept sound = rw e sound
joined-AllSound log v rest s (some left) e kept sound = rw e (IsSound-IsLeft log left s kept, sound)

-- A round over logs with open streams and names without "..", on which the calls go well, comes
-- back. Every line that it sends comes from a log in the list that `select` reported, and goes to
-- the client that follows the log, who is connected; the logs that stay have open streams and
-- names without "..".
pub read_logs_lem :
    (ev : Events) (connected : ℕ → Bool) (logs : List LogDescription)
    → AllSound logs
    → All (IsCalm ev) logs
    → (o : Outcome) × (read_logs ev connected logs ≡ returns o)
      × All (Sent ev connected logs) o.sent
      × AllSound o.logs
unfolding read_logs
read_logs_lem ev connected [] sound calm =
    (record { logs = []; sent = []; killed = [] }, refl, tt, tt)
read_logs_lem ev connected (log ∷ logs) sound calm =
    let (v, is_v, left, due) = visit-Visited ev connected log sound.0.is_open calm.0 in
    let (o, is_o, sent, stays) = read_logs_lem ev connected logs sound.1 calm.1 in
    (
      joined v o,
      rw (is_v, is_o) refl,
      All-append v.sent o.sent (Sent ev connected (log ∷ logs))
          (All-weaken (λ line d. inr d) o.sent sent) (All-weaken (λ line d. inl d) v.sent due),
      joined-AllSound log v o sound.0 v.left refl left stays,
    )
