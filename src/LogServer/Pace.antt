-- ===== src/LogServer/Pace.antt =====
-- log-server.cpp: GetNextLine again and again on a log, with its sleep in front of each read.
use extension_project.Prelude.{
  ℕ, ◌+◌, ◌*◌, ◌≤◌, ◌≡◌, ◌≢◌, refl, ap, Bool, true, false, List, [], ◌∷◌, Option, none, some,
  length, arith,
}
use extension_project.WebSocket.Types.{returns}
use extension_project.WebSocket.Ensures.{Ensures, Ensures-bind, Ensures-returns, Ensures-if}
use extension_project.LogServer.Description.{
  Time, LogDescription, LineEvents, Line, line_read, no_line_yet, closed, next_time, send_interval,
  no_text, with_text, cleanup, open_tail, retry_line, end_of_file, get_next_line, no_pipe, no_fork,
  no_tail_stream, tailing, TailResult, Victim,
}
use extension_project.LogServer.Streams.{nanoseconds, next_time-IsNext}

-- The sleep until `next_send_time` is over: the clock does not show an earlier time behind it.
abbrev pub IsAwake : LineEvents → LogDescription → Type 0
IsAwake ev log = nanoseconds log.next_send_time ≤ nanoseconds ev.now

-- Reads of a log, one behind the other, and the times of those that had a line, the latest first.
pub data Reads (log : LogDescription) : LogDescription → List Time → Type 0 where
  no_reads : Reads log log []
  reads_line :
      {before : LogDescription} {times : List Time} (ev : LineEvents) (line : Line)
      → Reads log before times
      → IsAwake ev before
      → get_next_line ev before ≡ returns line
      → line.code ≡ line_read
      → Reads log line.log (ev.now ∷ times)
  reads_none :
      {before : LogDescription} {times : List Time} (ev : LineEvents) (line : Line)
      → Reads log before times
      → IsAwake ev before
      → get_next_line ev before ≡ returns line
      → line.code ≢ line_read
      → Reads log line.log times

-- The next time is set by a line, and stays without one.
record IsTimed (ev : LineEvents) (log : LogDescription) (line : Line) : Type 0 where
  set : line.code ≡ line_read → line.log.next_send_time ≡ next_time ev.now
  stays : line.code ≢ line_read → line.log.next_send_time ≡ log.next_send_time

module _ (ev : LineEvents) (log : LogDescription) where
  with_text-IsTimed :
      (text : List ℕ) (left : LogDescription) → IsTimed ev log (with_text ev.now text left)
  with_text-IsTimed text left = record { set = λ _. refl; stays = λ ne. absurd (ne refl) }

  retry_line-IsTimed :
      (started : Bool) (left : LogDescription)
      → left.next_send_time ≡ log.next_send_time
      → IsTimed ev log (retry_line ev started left)
  unfolding retry_line
  retry_line-IsTimed false left same = record { set = λ e. absurd (cc e); stays = λ _. same }
  retry_line-IsTimed true left same = tried ev.retry
    where
      tried :
          (retry : Option (List ℕ))
          → IsTimed ev log (elim retry [
            | none ↦ no_text no_line_yet left
            | some text ↦ with_text ev.now text left
          ])
      tried none = record { set = λ e. absurd (cc e); stays = λ _. same }
      tried (some text) = with_text-IsTimed text left

  open_tail-same :
      (tail : TailResult)
      → Ensures
          (λ (p : Bool × LogDescription). p.1.next_send_time ≡ log.next_send_time)
          (open_tail tail (closed log))
  unfolding open_tail
  open_tail-same no_pipe = refl
  open_tail-same no_fork = refl
  open_tail-same (no_tail_stream pid fd) = tt
  open_tail-same (tailing pid fd) = refl

  abbrev SameTime : LogDescription × Option Victim → Type 0
  SameTime p = p.0.next_send_time ≡ log.next_send_time

  cleanup-SameTime : Ensures SameTime (cleanup ev.wait log)
  unfolding cleanup
  cleanup-SameTime = Ensures-if SameTime log.is_open _ _ (λ _. refl) (λ _. tt)

  end_of_file-IsTimed :
      (tail_pid : Option ℕ) → Ensures (IsTimed ev log) (end_of_file ev tail_pid log)
  unfolding end_of_file
  end_of_file-IsTimed (some pid) =
      Ensures-bind SameTime (IsTimed ev log) (cleanup ev.wait log) _ cleanup-SameTime
        (λ p same. record { set = λ e. absurd (cc e); stays = λ _. same })
  end_of_file-IsTimed none =
      Ensures-bind (λ (p : Bool × LogDescription). p.1.next_send_time ≡ log.next_send_time)
        (IsTimed ev log) (open_tail ev.tail (closed log)) _ (open_tail-same ev.tail)
        (λ p same. retry_line-IsTimed p.0 p.1 same)

  get_next_line-IsTimed : Ensures (IsTimed ev log) (get_next_line ev log)
  unfolding get_next_line
  get_next_line-IsTimed =
      Ensures-if (IsTimed ev log) log.is_open _ _ (λ _. first ev.first) (λ _. tt)
    where
      first :
          (text : Option (List ℕ))
          → Ensures (IsTimed ev log) (elim text [
            | none ↦ end_of_file ev log.tail_pid log
            | some text ↦ returns (with_text ev.now text log)
          ])
      first none = end_of_file-IsTimed log.tail_pid
      first (some text) = with_text-IsTimed text log

-- What stays with the reads: n lines behind the time `since` put the next time n intervals behind it.
Reads-due :
    (log : LogDescription) {left : LogDescription} {times : List Time}
    → Reads log left times
    → nanoseconds log.next_send_time + length times * send_interval
      ≤ nanoseconds left.next_send_time
Reads-due log no_reads = omega arith
Reads-due log (reads_line {before = before} ev line reads awake is_line has) =
    let timed =
      Ensures-returns (IsTimed ev before) (get_next_line ev before) line
        (get_next_line-IsTimed ev before) is_line in
    let next = next_time-IsNext ev.now in
    omega (arith, Reads-due log reads, awake, ap nanoseconds (timed.set has), next.later)
Reads-due log (reads_none {before = before} ev line reads awake is_line none_read) =
    let timed =
      Ensures-returns (IsTimed ev before) (get_next_line ev before) line
        (get_next_line-IsTimed ev before) is_line in
    omega (arith, Reads-due log reads, ap nanoseconds (timed.stays none_read))

-- However often a log is read, with the sleep in front of each read: the last of n lines and one more is
-- not read before n times ten milliseconds are over from the point in time that was set for the
-- first one.
pub Reads-paced :
    (log left : LogDescription) (last : Time) (times : List Time)
    → Reads log left (last ∷ times)
    → nanoseconds log.next_send_time + length times * send_interval ≤ nanoseconds last
Reads-paced log _ _ _ (reads_line ev line reads awake is_line has) =
    omega (arith, Reads-due log reads, awake)
Reads-paced log _ last times (reads_none {before = before} ev line reads awake is_line none_read) =
    Reads-paced log before last times reads
