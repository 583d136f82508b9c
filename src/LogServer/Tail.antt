-- ===== src/LogServer/Tail.antt =====
-- log-server.cpp: the two processes behind the fork in OpenTail, and the logs whose stream is lost.
use extension_project.Prelude.{
  ℕ, ◌≡◌, ◌≢◌, refl, ◌⊎◌, inl, inr, Bool, true, false, List, [], ◌∷◌, Option, none, some, codes,
  leb, length, if◌then◌else◌, arith,
}
use extension_project.WebSocket.Types.{Run, returns, corrupts, ◌>>=◌}
use extension_project.LogServer.Description.{
  LogDescription, LineEvents, Line, tail_lost, tail_failed, no_pipe, no_fork, WaitResult, closed,
  no_text, cleanup, get_next_line, end_of_file, open_tail, retry_line, killed_by,
}

-- What the child becomes: the program with its arguments, or it comes back with -5 or with -3.
pub data Child : Type 0 where
  becomes : List (List ℕ) → Child
  too_long no_program : Child

abbrev pub tail_args : List ℕ → List (List ℕ)
tail_args name = codes "tail" ∷ codes "-F" ∷ codes "-n" ∷ codes "0" ∷ name ∷ []

-- OpenTail in the child; `fails` is whether execvp comes back.
unfoldable pub open_tail_child : Bool → LogDescription → Child
open_tail_child fails log =
    if leb 2048 (length log.name)
    then too_long
    else if fails
    then no_program
    else becomes (tail_args log.name)

-- GetNextLine in the child, behind OpenTail, if it is still the server's program.
unfoldable pub child_line : LineEvents → Child → LogDescription → Option Line
child_line ev (becomes args) log = none
child_line ev too_long log = some (retry_line ev false log)
child_line ev no_program log = some (retry_line ev false log)

-- The server itself, or the child of its fork.
pub data Process : Type 0 where
  server : Process
  child : Bool → Process

-- What GetNextLine leaves at the end of a file, in the process.
unfoldable pub line_in : Process → LineEvents → LogDescription → Run (Option Line)
line_in server ev log = get_next_line ev log >>= λ line. returns (some line)
line_in (child fails) ev log =
    let shut = closed log in
    if log.is_open then returns (child_line ev (open_tail_child fails shut) shut) else corrupts

-- The ways in which a read fails when fgets has found nothing.
pub data Fails (log : LogDescription) (ev : LineEvents) : Process → Type 0 where
  by_tail : (pid : ℕ) → log.tail_pid ≡ some pid → Fails log ev server
  by_pipe : log.tail_pid ≡ none → ev.tail ≡ no_pipe → Fails log ev server
  by_fork : log.tail_pid ≡ none → ev.tail ≡ no_fork → Fails log ev server
  by_child :
      (fails : Bool)
      → log.tail_pid ≡ none
      → open_tail_child fails log ≢ becomes (tail_args log.name)
      → Fails log ev (child fails)

-- A failure behind which the log is of no further use.
pub record IsLost (line : Line) : Type 0 where
  pub failed : (line.code ≡ tail_lost) ⊎ (line.code ≡ tail_failed)
  pub not_read : (ev : LineEvents) → get_next_line ev line.log ≡ corrupts
  pub not_cleaned : (wait : WaitResult) → cleanup wait line.log ≡ corrupts

closed-IsLost :
    (line : Line)
    → (line.code ≡ tail_lost) ⊎ (line.code ≡ tail_failed)
    → line.log.is_open ≡ false
    → IsLost line
unfolding get_next_line cleanup
closed-IsLost line failed shut = record {
  failed = failed;
  not_read = λ ev. rw shut;
  not_cleaned = λ wait. rw shut;
}

-- When fgets finds nothing in an open log, and its `tail` is there already, or the pipe or the fork for
-- one fails, or the child of the fork does not become `tail`: GetNextLine returns -2 or -3 in that
-- process with the stream closed and the log kept, so that the next read of the log, and its clean-up,
-- use the closed stream.
pub failed_read-IsLost :
    (process : Process) (ev : LineEvents) (log : LogDescription)
    → log.is_open ≡ true
    → ev.first ≡ none
    → Fails log ev process
    → (line : Line) × (line_in process ev log ≡ returns (some line)) × IsLost line
unfolding line_in get_next_line end_of_file open_tail retry_line cleanup child_line open_tail_child
failed_read-IsLost server ev log h nothing (by_tail pid tailed) =
    let line : Line = record {
      code = tail_lost;
      log = closed log;
      text = none;
      killed = killed_by ev.wait log;
    } in
    (line, ground arith, closed-IsLost line (inl refl) refl)
failed_read-IsLost server ev log h nothing (by_pipe no_tail failed) =
    let line : Line = no_text tail_failed (closed log) in
    (line, ground arith, closed-IsLost line (inr refl) refl)
failed_read-IsLost server ev log h nothing (by_fork no_tail failed) =
    let line : Line = no_text tail_failed (closed log) in
    (line, ground arith, closed-IsLost line (inr refl) refl)
failed_read-IsLost _ ev log h nothing (by_child fails no_tail other) =
    let line : Line = no_text tail_failed (closed log) in
    (line, ground arith, closed-IsLost line (inr refl) refl)
