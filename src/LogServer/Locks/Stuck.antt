-- ===== src/LogServer/Locks/Stuck.antt =====
-- web_socket_server.cpp: ListenMessages behind the end of ListenConnections.
use extension_project.Prelude.{◌≡◌, ap, Bool, true, false, arith}
use extension_project.WebSocket.Answer.{Crypto}
use extension_project.LogServer.Locks.{
  Machine, ConnectionsPoint, MessagesPoint, given_up, closing, clearing, cleared,
}
use extension_project.LogServer.Locks.Moves.{
  ConnectionsMove, MessagesMove, ReaderMove, Move, Moves, accepts_next, sets_up, gives_up,
  turns_down, accepts, adds, locks_last, clears, ends, finds_some, begins, stops, enters, waits,
  wakes, enters_again, fills, selects, picks, skips, serves, erases, unlocks, locks, by_connections,
  by_messages, by_reader, by_stop, none_yet, one_more,
}

-- ListenConnections is behind its loop.
abbrev pub is_behind : ConnectionsPoint → Bool
is_behind given_up = true
is_behind closing = true
is_behind clearing = true
is_behind cleared = true
is_behind ConnectionsPoint.ended = true
is_behind _ = false

record IsStuck (m : Machine) : Type 0 where
  behind : is_behind m.connections ≡ true
  waiting : m.messages ≡ MessagesPoint.waiting

ConnectionsMove-IsStuck : {m n : Machine} → ConnectionsMove m n → IsStuck m → IsStuck n
ConnectionsMove-IsStuck (sets_up ssl bound listens at is_done) h = ground arith
ConnectionsMove-IsStuck (gives_up ssl bound listens at not_done) h = ground arith
ConnectionsMove-IsStuck (accepts_next at go) h = ground arith
ConnectionsMove-IsStuck (stops at stop) h = ground arith
ConnectionsMove-IsStuck (turns_down arrival at result) h = ground arith
ConnectionsMove-IsStuck (accepts arrival fd at result) h = ground arith
ConnectionsMove-IsStuck (locks arrival at free) h = ground arith
ConnectionsMove-IsStuck (adds arrival at sized e) h = absurd (cc (h.behind, ap is_behind at))
ConnectionsMove-IsStuck (unlocks at) h = ground arith
ConnectionsMove-IsStuck (locks_last at free) h = ground arith
ConnectionsMove-IsStuck (clears rounds at e) h = ground arith
ConnectionsMove-IsStuck (ends at) h = ground arith

MessagesMove-IsStuck :
    {c : Crypto} {m n : Machine} → MessagesMove c false m n → IsStuck m → IsStuck n
MessagesMove-IsStuck (begins at go) h = ground arith
MessagesMove-IsStuck (stops at stop) h = ground arith
MessagesMove-IsStuck (enters at free) h = ground arith
MessagesMove-IsStuck (finds_some at some_there) h = ground arith
MessagesMove-IsStuck (waits at none_there) h = ground arith
MessagesMove-IsStuck (wakes may at) h = absurd (cc may)
MessagesMove-IsStuck (enters_again at free) h = ground arith
MessagesMove-IsStuck (fills nfds at e) h = ground arith
MessagesMove-IsStuck (selects reported at) h = ground arith
MessagesMove-IsStuck (locks reported at free) h = ground arith
MessagesMove-IsStuck (picks reported id fd more client at there e is_reported) h = ground arith
MessagesMove-IsStuck (skips reported id fd more client at there e not_reported) h = ground arith
MessagesMove-IsStuck (serves reported id more client turn r at there fits is_r free e) h =
    absurd (ground arith)
MessagesMove-IsStuck (erases reported id more at) h = ground arith
MessagesMove-IsStuck (unlocks reported at) h = ground arith

ReaderMove-IsStuck : {m n : Machine} → ReaderMove false m n → IsStuck m → IsStuck n
ReaderMove-IsStuck (begins at go) h = record { behind = h.behind; waiting = h.waiting }
ReaderMove-IsStuck _ h = record { behind = h.behind; waiting = h.waiting }

Move-IsStuck : {c : Crypto} {m n : Machine} → Move c false m n → IsStuck m → IsStuck n
Move-IsStuck (by_connections move) h = ConnectionsMove-IsStuck move h
Move-IsStuck (by_messages move) h = MessagesMove-IsStuck move h
Move-IsStuck (by_reader move) h = ReaderMove-IsStuck move h
Move-IsStuck by_stop h = ground arith

Moves-IsStuck : {c : Crypto} {m n : Machine} → Moves c false m n → IsStuck m → IsStuck n
Moves-IsStuck none_yet h = h
Moves-IsStuck (one_more before move) h = Move-IsStuck move (Moves-IsStuck before h)

-- While ListenMessages waits for a client and ListenConnections is behind its loop, no move of any
-- thread and no further call of Stop ends the wait, if a wait ends by a signal only: ListenMessages,
-- which Stop joins, does not come to its end.
pub Moves-waiting :
    (c : Crypto) (m n : Machine)
    → m.messages ≡ MessagesPoint.waiting
    → is_behind m.connections ≡ true
    → Moves c false m n
    → n.messages ≡ MessagesPoint.waiting
Moves-waiting c m n waiting behind moves =
    (Moves-IsStuck moves (record { behind = behind; waiting = waiting })).waiting
