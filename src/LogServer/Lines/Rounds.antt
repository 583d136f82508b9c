-- ===== src/LogServer/Lines/Rounds.antt =====
-- LogServer::Run: a round over the logs and the sending of its lines together.
use extension_project.Prelude.{
  ℕ, ◌≤◌, ◌≡◌, refl, inl, inr, Bool, true, false, none, some, Option, List, [], ◌∷◌, arith, All,
  All-append, length, c_string,
}
use extension_project.WebSocket.Types.{returns}
use extension_project.WebSocket.Ensures.{
  Ensures, Ensures-bind, Ensures-then, Ensures-if, Ensures-returns,
}
use extension_project.Client.{Round, to_write, write_rounds}
use extension_project.Server.{Clients, has_client}
use extension_project.Server.Arrivals.{IsKept}
use extension_project.LogServer.Description.{
  LogDescription, Victim, LineEvents, LineCode, line_read, no_line_yet, tail_lost, tail_failed,
  Line, get_next_line, end_of_file, open_tail, retry_line, cleanup, closed, with_text,
}
use extension_project.LogServer.Requests.{noted}
use extension_project.LogServer.Round.{
  Events, Outcome, Visit, visit, read_log, read_logs, check_exception, line_to_send,
}
use extension_project.LogServer.Names.{AllSound}
use extension_project.LogServer.Rounds.{IsCalm, Sent, read_logs_lem}
use extension_project.LogServer.Threads.{System, behind, read_round}
use extension_project.LogServer.Lines.Due.{lines_due, read_logs-lines_due}
use extension_project.LogServer.Lines.{IsSendable, AllGot, send_lines-AllGot}

abbrev IsShortText : Option (List ℕ) → Type 0
IsShortText none = Unit
IsShortText (some text) = length text ≤ 2047

-- What fgets puts into `buf` has less than `buf_len` bytes.
pub record ShortLines (ev : LineEvents) : Type 0 where
  pub first : IsShortText ev.first
  pub retry : IsShortText ev.retry

abbrev HasShortText : Line → Type 0
HasShortText line = IsShortText line.text

abbrev IsShortLine : ℕ × List ℕ → Type 0
IsShortLine line = length line.1 ≤ 2047

length-c_string : (text : List ℕ) → length (c_string text) ≤ length text
length-c_string [] = omega arith
length-c_string (x ∷ text) = ground (arith, length-c_string text)

retry_line-HasShortText :
    (ev : LineEvents) (started : Bool) (log : LogDescription)
    → ShortLines ev
    → HasShortText (retry_line ev started log)
unfolding retry_line
retry_line-HasShortText ev false log short = tt
retry_line-HasShortText ev true log short = tried ev.retry short.retry
  where
    tried :
        (retry : Option (List ℕ))
        → IsShortText retry
        → HasShortText (elim retry [
          | none ↦ record { code = no_line_yet; log = log; text = none; killed = none }
          | some text ↦ with_text ev.now text log
        ])
    tried none h = tt
    tried (some text) h = h

end_of_file-HasShortText :
    (ev : LineEvents) (tail_pid : Option ℕ) (log : LogDescription)
    → ShortLines ev
    → Ensures HasShortText (end_of_file ev tail_pid log)
unfolding end_of_file
end_of_file-HasShortText ev (some pid) log short =
    Ensures-then HasShortText (cleanup ev.wait log) _ (λ _ _. tt)
end_of_file-HasShortText ev none log short =
    Ensures-then HasShortText (open_tail ev.tail (closed log)) _
      (λ p _. retry_line-HasShortText ev p.0 p.1 short)

get_next_line-HasShortText :
    (ev : LineEvents) (log : LogDescription)
    → ShortLines ev
    → Ensures HasShortText (get_next_line ev log)
unfolding get_next_line
get_next_line-HasShortText ev log short =
    Ensures-if HasShortText log.is_open _ _ (λ _. first ev.first short.first) (λ _. tt)
  where
    first :
        (text : Option (List ℕ))
        → IsShortText text
        → Ensures HasShortText (elim text [
          | some text ↦ returns (with_text ev.now text log)
          | none ↦ end_of_file ev log.tail_pid log
        ])
    first (some text) h = h
    first none h = end_of_file-HasShortText ev log.tail_pid log short

line_to_send-IsShortLine :
    (id : ℕ) (code : LineCode) (text : Option (List ℕ))
    → IsShortText text
    → All IsShortLine (line_to_send id code text)
line_to_send-IsShortLine id line_read (some text) h = (omega (arith, length-c_string text), tt)
line_to_send-IsShortLine id line_read none h = tt
line_to_send-IsShortLine id no_line_yet text h = tt
line_to_send-IsShortLine id tail_lost text h = tt
line_to_send-IsShortLine id tail_failed text h = tt

abbrev VisitSendsShort : Visit → Type 0
VisitSendsShort v = All IsShortLine v.sent

abbrev RoundSendsShort : Outcome → Type 0
RoundSendsShort o = All IsShortLine o.sent

module _ (ev : Events) (connected : ℕ → Bool) (short : (fd : ℕ) → ShortLines (ev.line fd)) where
  check_exception-VisitSendsShort :
      (log : LogDescription) (sent : List (ℕ × List ℕ)) (killed : List Victim)
      → All IsShortLine sent
      → Ensures VisitSendsShort (check_exception ev sent killed log)
  unfolding check_exception
  check_exception-VisitSendsShort log sent killed h =
      Ensures-if VisitSendsShort (ev.exceptional log.fd) _ _
        (λ _. Ensures-then VisitSendsShort (cleanup (ev.wait log.fd) log) _ (λ _ _. h)) (λ _. h)

  read_log-VisitSendsShort :
      (present : Bool) (log : LogDescription) → Ensures VisitSendsShort (read_log ev present log)
  unfolding read_log
  read_log-VisitSendsShort false log =
      Ensures-then VisitSendsShort (cleanup (ev.wait log.fd) log) _ (λ _ _. tt)
  read_log-VisitSendsShort true log =
      Ensures-bind HasShortText VisitSendsShort (get_next_line (ev.line log.fd) log) _
        (get_next_line-HasShortText (ev.line log.fd) log (short log.fd))
        (λ line h.
          check_exception-VisitSendsShort line.log (line_to_send log.client_id line.code line.text)
            (noted line.killed []) (line_to_send-IsShortLine log.client_id line.code line.text h))

  read_logs-RoundSendsShort :
      (logs : List LogDescription) → Ensures RoundSendsShort (read_logs ev connected logs)
  unfolding read_logs visit
  read_logs-RoundSendsShort [] = tt
  read_logs-RoundSendsShort (log ∷ logs) =
      Ensures-bind VisitSendsShort RoundSendsShort (visit ev connected log) _
        (Ensures-if VisitSendsShort (ev.readable log.fd) _ _
          (λ _. read_log-VisitSendsShort (connected log.client_id) log)
          (λ _. check_exception-VisitSendsShort log [] [] tt))
        (λ v h.
          Ensures-bind RoundSendsShort RoundSendsShort (read_logs ev connected logs) _
            (read_logs-RoundSendsShort logs) (λ o k. All-append v.sent o.sent IsShortLine k h))

Sent-present :
    (ev : Events) (connected : ℕ → Bool) (logs : List LogDescription) (line : ℕ × List ℕ)
    → Sent ev connected logs line
    → connected line.0 ≡ true
Sent-present ev connected [] line h = absurd h
Sent-present ev connected (log ∷ logs) line (inl due) = due.present
Sent-present ev connected (log ∷ logs) line (inr h) = Sent-present ev connected logs line h

All-IsSendable :
    (ev : Events) (clients : Clients) (logs : List LogDescription) (lines : List (ℕ × List ℕ))
    → All (Sent ev (λ id. has_client id clients) logs) lines
    → All IsShortLine lines
    → All (IsSendable clients) lines
All-IsSendable ev clients logs [] sent short = tt
All-IsSendable ev clients logs (line ∷ lines) sent short = (
  (Sent-present ev (λ id. has_client id clients) logs line sent.0, omega (arith, short.0)),
  All-IsSendable ev clients logs lines sent.1 short.1,
)

-- A round of Run over logs with open streams and names without "..", on which the calls go well and
-- SSL_write takes every line, comes back, if a line has at most 2047 bytes and the map is in order.
-- The lines that are sent are exactly those that fgets gives, on the file or on the output of the `tail`
-- that is started at its end, for the logs that `select` reported and whose clients are there, one for
-- each such log and in the order of the list, each for the client that follows the log. Each client
-- gets exactly the text frames of its lines, in their order, behind what it was sent before; and
-- the logs that stay have open streams and such names.
pub read_round-AllGot :
    (ev : Events) (rounds : ℕ → List Round) (s : System)
    → IsKept s.server.clients
    → AllSound s.logs.logs
    → All (IsCalm ev) s.logs.logs
    → ((fd : ℕ) → ShortLines (ev.line fd))
    → ((n : ℕ) → write_rounds to_write (rounds n) ≡ returns true)
    → (o : Outcome) × (s' : System) × (read_logs ev
          (λ id. has_client id s.server.clients)
          s.logs.logs
        ≡ returns o)
      × (read_round ev rounds s ≡ returns s')
      × (o.sent ≡ lines_due ev (λ id. has_client id s.server.clients) s.logs.logs)
      × All (Sent ev (λ id. has_client id s.server.clients) s.logs.logs) o.sent
      × AllGot o.sent s.server.clients s'.server.clients
      × AllSound s'.logs.logs
unfolding read_round
read_round-AllGot ev rounds s kept sound calm short taken =
    let clients : Clients = s.server.clients in
    let present : ℕ → Bool = λ id. has_client id clients in
    let (o, is_o, sent, stays) = read_logs_lem ev present s.logs.logs sound calm in
    let lengths =
      Ensures-returns RoundSendsShort (read_logs ev present s.logs.logs) o
        (read_logs-RoundSendsShort ev present short s.logs.logs) is_o in
    let (after, is_after, all) =
      send_lines-AllGot rounds taken o.sent clients kept
        (All-IsSendable ev clients s.logs.logs o.sent sent lengths) in
    let s' : System = record s {
      server = record s.server { clients = after };
      logs = behind s.logs (record { logs = o.logs; killed = o.killed });
    } in
    let due =
      Ensures-returns (λ (o : Outcome). o.sent ≡ lines_due ev present s.logs.logs)
        (read_logs ev present s.logs.logs) o (read_logs-lines_due ev present s.logs.logs sound calm)
        is_o in
    (o, s', is_o, rw (is_o, is_after) refl, due, sent, all, stays)
