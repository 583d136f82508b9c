-- ===== src/LogServer/Description.antt =====
-- log-server.cpp: class LogDescription, a file that a client follows, by itself or through `tail`.
use extension_project.Prelude.{
  ℕ, ◌+◌, ◌/◌, ◌%◌, Bool, true, false, List, Option, none, some, if◌then◌else◌,
}
use extension_project.WebSocket.Types.{Run, returns, corrupts, ◌>>=◌}

-- `struct timespec`
pub record Time : Type 0 where
  pub sec : ℕ
  pub nsec : ℕ

-- A `tail_pid` of -1 is `none`; `is_open` is false when `stream` has been given to fclose.
pub record LogDescription : Type 0 where
  pub name : List ℕ
  pub fd : ℕ
  pub is_open : Bool
  pub tail_pid : Option ℕ
  pub client_id : ℕ
  pub next_send_time : Time

abbrev pub send_interval : ℕ
send_interval = 10000000

abbrev pub second : ℕ
second = 1000000000

-- What open and fdopen answer to Open.
pub data OpenResult : Type 0 where
  opened : ℕ → OpenResult
  no_file no_stream : OpenResult

-- What waitpid with WNOHANG answers: a child's status or an error, or 0, for a child that runs.
pub data WaitResult : Type 0 where
  gone running : WaitResult

-- Whom `kill(pid, 9)` is sent to: at pid -1, to every process that may be sent to.
pub data Victim : Type 0 where
  process : ℕ → Victim
  every_process : Victim

abbrev pub victim : Option ℕ → Victim
victim none = every_process
victim (some pid) = process pid

abbrev pub closed : LogDescription → LogDescription
closed log = record log { is_open = false }

abbrev pub killed_by : WaitResult → LogDescription → Option Victim
killed_by gone log = none
killed_by running log = some (victim log.tail_pid)

-- Cleanup: the log, and whom it killed. A stream that is closed already is a stale pointer.
unfoldable pub cleanup : WaitResult → LogDescription → Run (LogDescription × Option Victim)
cleanup wait log = if log.is_open then returns (closed log, killed_by wait log) else corrupts

-- The constructor, then Open, then set_client_id.
unfoldable pub open_log : OpenResult → Time → List ℕ → ℕ → Option LogDescription
open_log (opened fd) now name client_id = some (record {
  name = name;
  fd = fd;
  is_open = true;
  tail_pid = none;
  client_id = client_id;
  next_send_time = now;
})
open_log no_file now name client_id = none
open_log no_stream now name client_id = none

-- What pipe, fork and fdopen answer to OpenTail in the server's own process.
pub data TailResult : Type 0 where
  no_pipe no_fork : TailResult
  no_tail_stream tailing : ℕ → ℕ → TailResult

-- OpenTail: whether it succeeds, and the log. Without a stream it cleans up a null pointer.
unfoldable pub open_tail : TailResult → LogDescription → Run (Bool × LogDescription)
open_tail no_pipe log = returns (false, log)
open_tail no_fork log = returns (false, log)
open_tail (no_tail_stream pid fd) log = corrupts
open_tail (tailing pid fd) log =
    returns (true, record log { tail_pid = some pid; fd = fd; is_open = true })

-- The point in time after which the next line may be read.
unfoldable pub next_time : Time → Time
next_time now = record {
  sec = now.sec + (now.nsec + send_interval) / second;
  nsec = (now.nsec + send_interval) % second;
}

-- What the calls in GetNextLine answer: two of fgets, OpenTail's, waitpid and the clock.
pub record LineEvents : Type 0 where
  pub first : Option (List ℕ)
  pub tail : TailResult
  pub retry : Option (List ℕ)
  pub wait : WaitResult
  pub now : Time

-- The values that GetNextLine returns: 0, 1, -2 and -3.
pub data LineCode : Type 0 where
  line_read no_line_yet tail_lost tail_failed : LineCode

-- What it leaves: its value, the log, the line in `buf`, and whom it killed.
pub record Line : Type 0 where
  pub code : LineCode
  pub log : LogDescription
  pub text : Option (List ℕ)
  pub killed : Option Victim

abbrev pub no_text : LineCode → LogDescription → Line
no_text code log = record { code = code; log = log; text = none; killed = none }

abbrev pub with_text : Time → List ℕ → LogDescription → Line
with_text now text log = record {
  code = line_read;
  log = record log { next_send_time = next_time now };
  text = some text;
  killed = none;
}

-- Behind OpenTail: it failed, or fgets is tried once more.
unfoldable pub retry_line : LineEvents → Bool → LogDescription → Line
retry_line ev false log = no_text tail_failed log
retry_line ev true log = elim ev.retry [
  | none ↦ no_text no_line_yet log
  | some text ↦ with_text ev.now text log
]

-- The branch where fgets found nothing.
unfoldable pub end_of_file : LineEvents → Option ℕ → LogDescription → Run Line
end_of_file ev (some pid) log = do
  (log', killed) ← cleanup ev.wait log
  returns (record { code = tail_lost; log = log'; text = none; killed = killed })
end_of_file ev none log = do
  (started, log') ← open_tail ev.tail (closed log)
  returns (retry_line ev started log')

-- GetNextLine, behind its sleep.
unfoldable pub get_next_line : LineEvents → LogDescription → Run Line
get_next_line ev log =
    if log.is_open
    then elim ev.first [
      | some text ↦ returns (with_text ev.now text log)
      | none ↦ end_of_file ev log.tail_pid log
    ]
    else corrupts
