-- ===== src/LogServer/Locks/Leaving.antt =====
-- web_socket_server.cpp: the client that is about to be taken out, and the end of ListenConnections.
use extension_project.Prelude.{
  ℕ, ◌≡◌, refl, sym, ap, Bool, true, false, List, Option, none, some, if◌then◌else◌, arith,
}
use extension_project.WebSocket.Types.{returns}
use extension_project.WebSocket.Ensures.{Ensures, Ensures-bind, Ensures-then}
use extension_project.WebSocket.Answer.{Crypto}
use extension_project.Client.{
  Client, Code, read_succeed, read_succeed_data_available, handshake_succeed, waiting_for_more_data,
  Round, disconnect,
}
use extension_project.Client.Receive.{Received, receive}
use extension_project.Server.{has_client}
use extension_project.Server.Messages.{
  Turn, Visited, remains, react, hand_over, drop_client, message_len,
}
use extension_project.LogServer.Requests.{Answers, Cleaned}
use extension_project.LogServer.Round.{Events, read_logs}
use extension_project.LogServer.Threads.{System, log_handler, talk, send_lines, read_round}
use extension_project.LogServer.Locks.{
  Machine, ConnectionsPoint, MessagesPoint, cleared, erasing, signal_messages, behind_round,
}
use extension_project.LogServer.Locks.Moves.{
  ConnectionsMove, MessagesMove, ReaderMove, Move, accepts_next, sets_up, gives_up, turns_down,
  accepts, adds, locks_last, clears, ends, begins, stops, unlocks, locks, by_connections,
  by_messages, by_reader, by_stop,
}
use extension_project.LogServer.Locks.Owner.{in_messages}

-- The client that ListenMessages has disconnected and not yet taken out of the map.
abbrev pub leaving_of : MessagesPoint → Option ℕ
leaving_of (erasing reported id more) = some id
leaving_of _ = none

-- ListenConnections has emptied the map, behind its loop.
abbrev pub has_cleared : ConnectionsPoint → Bool
has_cleared cleared = true
has_cleared ConnectionsPoint.ended = true
has_cleared _ = false

-- It does so once.
ConnectionsMove-has_cleared :
    {m n : Machine}
    → ConnectionsMove m n
    → has_cleared n.connections ≡ false
    → has_cleared m.connections ≡ false
ConnectionsMove-has_cleared (sets_up ssl bound listens at is_done) h = ground arith
ConnectionsMove-has_cleared (gives_up ssl bound listens at not_done) h = ground arith
ConnectionsMove-has_cleared (accepts_next at go) h = ground arith
ConnectionsMove-has_cleared (stops at stop) h = ground arith
ConnectionsMove-has_cleared (turns_down arrival at result) h = ground arith
ConnectionsMove-has_cleared (accepts arrival fd at result) h = ground arith
ConnectionsMove-has_cleared (locks arrival at free) h = ground arith
ConnectionsMove-has_cleared (adds arrival at sized e) h = ap has_cleared at
ConnectionsMove-has_cleared (unlocks at) h = ground arith
ConnectionsMove-has_cleared (locks_last at free) h = ground arith
ConnectionsMove-has_cleared (clears rounds at e) h = absurd (cc h)
ConnectionsMove-has_cleared (ends at) h = absurd (cc h)

MessagesMove-has_cleared :
    {c : Crypto} {spurious : Bool} {m n : Machine}
    → MessagesMove c spurious m n
    → has_cleared n.connections ≡ false
    → has_cleared m.connections ≡ false
MessagesMove-has_cleared (begins at go) h = h
MessagesMove-has_cleared _ h = h

ReaderMove-has_cleared :
    {spurious : Bool} {m n : Machine}
    → ReaderMove spurious m n
    → has_cleared n.connections ≡ false
    → has_cleared m.connections ≡ false
ReaderMove-has_cleared (begins at go) h = h
ReaderMove-has_cleared _ h = h

pub has_cleared-before :
    {c : Crypto} {spurious : Bool} {m n : Machine}
    → Move c spurious m n
    → has_cleared n.connections ≡ false
    → has_cleared m.connections ≡ false
has_cleared-before (by_connections move) h = ConnectionsMove-has_cleared move h
has_cleared-before (by_messages move) h = MessagesMove-has_cleared move h
has_cleared-before (by_reader move) h = ReaderMove-has_cleared move h
has_cleared-before by_stop h = h

module _ (turn : Turn Answers) (id : ℕ) (r : Received) (s : Cleaned) (reported : ℕ → Bool)
    (more : List ℕ) where
  abbrev Matches : Code → Visited Cleaned → Type 0
  Matches code v =
      (if v.stays then none else some id) ≡ leaving_of (behind_round reported id more code)

  drops :
      (code : Code)
      → leaving_of (behind_round reported id more code) ≡ some id
      → Ensures (Matches code) (drop_client log_handler turn r.client s)
  unfolding drop_client
  drops code h = Ensures-then (Matches code) (disconnect turn.farewell r.client) _ (λ client _.
      Ensures-then (Matches code) (log_handler.on_disconnect turn.answers client s) _
        (λ t _. sym h))

  react-Matches : (code : Code) → Ensures (Matches code) (react log_handler turn remains code r s)
  unfolding react
  react-Matches read_succeed =
      Ensures-then (Matches read_succeed) (hand_over log_handler turn r s) _ (λ t _. refl)
  react-Matches read_succeed_data_available =
      Ensures-then (Matches read_succeed_data_available) (hand_over log_handler turn r s) _
        (λ t _. refl)
  react-Matches handshake_succeed = refl
  react-Matches waiting_for_more_data = refl
  react-Matches code = drops code refl

pub talk-leaving :
    (c : Crypto) (turn : Turn Answers) (id : ℕ) (client : Client) (s : System) (reported : ℕ → Bool)
    (more : List ℕ) (r : Received)
    → receive c turn.read turn.writes message_len client ≡ returns r
    → Ensures
        (λ (s' : System). s'.leaving ≡ leaving_of (behind_round reported id more r.code))
        (talk c turn id client s)
unfolding talk
talk-leaving c turn id client s reported more r is_r = rw is_r (
    Ensures-bind (Matches turn id r s.logs reported more r.code)
      (λ (s' : System). s'.leaving ≡ leaving_of (behind_round reported id more r.code))
      (react log_handler turn remains r.code r s.logs) _
      (react-Matches turn id r s.logs reported more r.code) (λ v h. h))

pub read_round-leaving :
    (ev : Events) (rounds : ℕ → List Round) (s : System)
    → Ensures (λ (s' : System). s'.leaving ≡ s.leaving) (read_round ev rounds s)
unfolding read_round
read_round-leaving ev rounds s =
    Ensures-then (λ (s' : System). s'.leaving ≡ s.leaving)
      (read_logs ev (λ id. has_client id s.server.clients) s.logs.logs) _
      (λ o _.
        Ensures-then (λ (s' : System). s'.leaving ≡ s.leaving)
          (send_lines rounds o.sent s.server.clients) _ (λ after _. refl))

pub signal_messages-leaving :
    (told : Bool) (point : MessagesPoint)
    → leaving_of (signal_messages told point) ≡ leaving_of point
signal_messages-leaving true MessagesPoint.waiting = refl
signal_messages-leaving false MessagesPoint.waiting = refl
signal_messages-leaving told _ = refl

pub outside-leaving : (point : MessagesPoint) → in_messages point ≡ false → leaving_of point ≡ none
outside-leaving (erasing reported id more) h = absurd (cc h)
outside-leaving _ h = refl
