-- ===== src/LogServer/Streams.antt =====
-- log-server.cpp: what LogDescription does with its stream, its `tail` and its clock.
use extension_project.Prelude.{
  Option, List, ◌↔◌, ℕ, ◌+◌, ◌*◌, ◌<◌, ◌≡◌, ◌≢◌, refl, true, none, some, arith, Option-cases, inl,
  inr, ◌↔◌,
}
use extension_project.WebSocket.Types.{returns}
use extension_project.LogServer.Description.{
  Time, LogDescription, next_time, second, send_interval, LineEvents, line_read, no_line_yet, Line,
  get_next_line, end_of_file, open_tail, retry_line, tailing, with_text, no_text,
}

-- A time in nanoseconds.
abbrev pub nanoseconds : Time → ℕ
nanoseconds t = t.sec * second + t.nsec

-- A time that is ten milliseconds behind another, with its nanoseconds below one second.
pub record IsNext (now then_time : Time) : Type 0 where
  pub later : nanoseconds then_time ≡ nanoseconds now + send_interval
  pub normal : then_time.nsec < second

pub next_time-IsNext : (now : Time) → IsNext now (next_time now)
unfolding next_time
next_time-IsNext now = record { later = omega arith; normal = omega arith }

-- What fgets gives for a log: on the stream that is there, or else on that of the new `tail`.
abbrev pub fgets_text : LineEvents → Option (List ℕ)
fgets_text ev = elim ev.first [ none ↦ ev.retry | some text ↦ some text ]

-- GetNextLine on an open log without a `tail` comes back with the stream open, if `tail` is started
-- where the file itself ends. The text that it leaves is exactly what fgets gives, on the file or else on
-- the output of `tail`, and it returns 0 just if there is one; the log is then read through `tail`
-- just if the file had nothing. With a line, the next time is ten milliseconds behind the clock's,
-- with its nanoseconds below one second.
pub get_next_line_lem :
    (ev : LineEvents) (log : LogDescription) (pid fd : ℕ)
    → log.is_open ≡ true
    → log.tail_pid ≡ none
    → ev.tail ≡ tailing pid fd
    → (line : Line) × (get_next_line ev log ≡ returns line)
      × (line.log.is_open ≡ true)
      × (line.text ≡ fgets_text ev)
      × (line.log.tail_pid ≡ elim ev.first [ none ↦ some pid | some text ↦ none ])
      × ((line.code ≡ line_read) ↔ (line.text ≢ none))
      × ((line.text ≢ none) → IsNext ev.now line.log.next_send_time)
unfolding get_next_line end_of_file open_tail retry_line
get_next_line_lem ev log pid fd h no_tail started =
    let tailed : LogDescription = record log { tail_pid = some pid; fd = fd; is_open = true } in
    elim (Option-cases ev.first) [
      | inr (text, e) ↦ (
        with_text ev.now text log,
        ground arith,
        h,
        ground arith,
        ground arith,
        ((λ _. ground arith), (λ _. refl)),
        (λ _. next_time-IsNext ev.now),
      )
      | inl e ↦ elim (Option-cases ev.retry) [
        | inl e' ↦ (
          no_text no_line_yet tailed,
          ground arith,
          refl,
          ground arith,
          ground arith,
          ((λ same. ground arith), (λ ne. absurd (ne refl))),
          (λ ne. absurd (ne refl)),
        )
        | inr (text, e') ↦ (
          with_text ev.now text tailed,
          ground arith,
          refl,
          ground arith,
          ground arith,
          ((λ _. ground arith), (λ _. refl)),
          (λ _. next_time-IsNext ev.now),
        )
      ]
    ]
