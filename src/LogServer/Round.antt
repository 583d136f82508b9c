-- ===== src/LogServer/Round.antt =====
-- log-server.cpp: LogServer::Run, a round of its loop over the logs.
use extension_project.Prelude.{
  ◌++◌, ℕ, ◌+◌, ltb, ◌==◌, Bool, true, false, List, [], ◌∷◌, Option, none, some, if◌then◌else◌,
  c_string,
}
use extension_project.WebSocket.Types.{Run, returns, corrupts, ◌>>=◌}
use extension_project.Server.Messages.{set_size}
use extension_project.LogServer.Description.{
  LogDescription, Victim, WaitResult, LineEvents, LineCode, line_read, no_line_yet, tail_lost,
  tail_failed, cleanup, get_next_line,
}
use extension_project.LogServer.Requests.{noted}

-- The loop of FD_SET over the logs, for both sets: one more than the largest descriptor, from `nfds` on.
unfoldable pub fill_logs : ℕ → List LogDescription → Run ℕ
fill_logs nfds [] = returns nfds
fill_logs nfds (log ∷ logs) =
    let filled = fill_logs (if ltb log.fd nfds then nfds else log.fd + 1) logs in
    if ltb log.fd set_size then filled else corrupts

-- The set that it fills.
unfoldable pub filled_set : List LogDescription → ℕ → Bool
filled_set [] fd = false
filled_set (log ∷ logs) fd = if log.fd == fd then true else filled_set logs fd

-- What `select` answers: EINTR, another error, 0, or how many descriptors it has left in the two sets.
pub data SelectResult : Type 0 where
  interrupted failed timed_out : SelectResult
  reported : (ℕ → Bool) → (ℕ → Bool) → SelectResult

-- The two sets that the round goes by, if there is one; on an error, `select` leaves the sets as they
-- were filled.
unfoldable pub behind_select : SelectResult → (ℕ → Bool) → Option ((ℕ → Bool) × (ℕ → Bool))
behind_select interrupted filled = none
behind_select failed filled = some (filled, filled)
behind_select timed_out filled = none
behind_select (reported readable exceptional) filled = some (readable, exceptional)

-- The two sets that `select` leaves, and what the calls on a log answer, by its descriptor.
pub record Events : Type 0 where
  pub readable : ℕ → Bool
  pub exceptional : ℕ → Bool
  pub wait : ℕ → WaitResult
  pub line : ℕ → LineEvents

-- The logs that are left, the lines sent with the client each goes to, and whom it killed.
pub record Outcome : Type 0 where
  pub logs : List LogDescription
  pub sent : List (ℕ × List ℕ)
  pub killed : List Victim

abbrev pub nothing_left : Outcome
nothing_left = record { logs = []; sent = []; killed = [] }

-- One log: what is left of it, what is sent, and whom it killed.
pub record Visit : Type 0 where
  pub left : Option LogDescription
  pub sent : List (ℕ × List ℕ)
  pub killed : List Victim

-- `Send(buf, strlen(buf))` where GetNextLine returned 0.
abbrev pub line_to_send : ℕ → LineCode → Option (List ℕ) → List (ℕ × List ℕ)
line_to_send client_id line_read (some text) = (client_id, c_string text) ∷ []
line_to_send client_id line_read none = []
line_to_send client_id no_line_yet text = []
line_to_send client_id tail_lost text = []
line_to_send client_id tail_failed text = []

-- The test of the exceptions, which erases the log.
unfoldable pub check_exception :
    Events → List (ℕ × List ℕ) → List Victim → LogDescription → Run Visit
check_exception ev sent killed log =
    if ev.exceptional log.fd
    then (cleanup (ev.wait log.fd) log >>= λ (log', k).
        returns (record { left = none; sent = sent; killed = noted k killed }))
    else returns (record { left = some log; sent = sent; killed = killed })

-- A log that can be read: its client may be gone, or gets the next line.
unfoldable pub read_log : Events → Bool → LogDescription → Run Visit
read_log ev true log = do
  line ← get_next_line (ev.line log.fd) log
  check_exception ev (line_to_send log.client_id line.code line.text) (noted line.killed [])
      line.log
read_log ev false log = do
  (log', k) ← cleanup (ev.wait log.fd) log
  returns (record { left = none; sent = []; killed = noted k [] })

-- One pass of the loop's body; `connected` is whether `clients` has the id.
unfoldable pub visit : Events → (ℕ → Bool) → LogDescription → Run Visit
visit ev connected log =
    if ev.readable log.fd
    then read_log ev (connected log.client_id) log
    else check_exception ev [] [] log

abbrev pub joined : Visit → Outcome → Outcome
joined v rest = record {
  logs = elim v.left [ none ↦ rest.logs | some log ↦ log ∷ rest.logs ];
  sent = v.sent ++ rest.sent;
  killed = v.killed ++ rest.killed;
}

-- The loop over the logs.
unfoldable pub read_logs : Events → (ℕ → Bool) → List LogDescription → Run Outcome
read_logs ev connected [] = returns nothing_left
read_logs ev connected (log ∷ logs) = do
  v ← visit ev connected log
  rest ← read_logs ev connected logs
  returns (joined v rest)
