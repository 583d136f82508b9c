-- ===== src/LogServer/Locks/Owner.antt =====
-- web_socket_server.cpp and log-server.cpp: who holds the locks, and who waits for a condition.
use extension_project.Prelude.{
  ℕ, suc, ◌≤◌, ◌≡◌, refl, Bool, true, false, ◌&&◌, List, [], ◌∷◌, Option, none, some, ltb,
  if◌then◌else◌, length, arith,
}
use extension_project.WebSocket.Ensures.{Ensures-returns}
use extension_project.WebSocket.Answer.{Crypto}
use extension_project.Server.{Clients, listen_connections, disconnect_all}
use extension_project.LogServer.Threads.{System, talk, read_round}
use extension_project.LogServer.Locks.Sizes.{
  OneClient, OneLog, listen_connections-OneClient, disconnect_all-empty, talk-OneLog,
  read_round-empty,
}
use extension_project.Client.{
  Code, read_succeed, read_succeed_data_available, handshake_succeed, waiting_for_more_data,
}
use extension_project.LogServer.Locks.{
  Thread, connections, messages, reader, Machine, ConnectionsPoint, MessagesPoint, ReaderPoint,
  added, clearing, cleared, adding, passing, serving, erasing, reading, done, tells,
  signal_messages, signal_reader, behind_round, started,
}
use extension_project.LogServer.Locks.Moves.{
  ConnectionsMove, MessagesMove, ReaderMove, Move, Moves, accepts_next, sets_up, gives_up,
  turns_down, accepts, adds, locks_last, clears, ends, finds_some, begins, stops, enters, waits,
  wakes, enters_again, fills, selects, picks, skips, serves, erases, unlocks, selects_nothing,
  reads, locks, by_connections, by_messages, by_reader, by_stop, none_yet, one_more,
}

abbrev pub in_connections : ConnectionsPoint → Bool
in_connections added = true
in_connections clearing = true
in_connections cleared = true
in_connections (adding arrival) = true
in_connections _ = false

abbrev pub in_messages : MessagesPoint → Bool
in_messages MessagesPoint.testing = true
in_messages MessagesPoint.filling = true
in_messages (passing reported more) = true
in_messages (serving reported id more) = true
in_messages (erasing reported id more) = true
in_messages _ = false

abbrev pub in_reader : ReaderPoint → Bool
in_reader ReaderPoint.testing = true
in_reader ReaderPoint.filling = true
in_reader (reading sets) = true
in_reader done = true
in_reader _ = false

abbrev pub messages_wait : MessagesPoint → Bool
messages_wait MessagesPoint.waiting = true
messages_wait _ = false

abbrev pub reader_waits : ReaderPoint → Bool
reader_waits ReaderPoint.waiting = true
reader_waits _ = false

abbrev pub clients_owner : ConnectionsPoint → MessagesPoint → Option Thread
clients_owner c m =
    if in_connections c then some connections else if in_messages m then some messages else none

abbrev pub logs_owner : ReaderPoint → Option Thread
logs_owner r = if in_reader r then some reader else none

-- A lock is held by the thread that is between its taking and its giving back, by one at most; and a
-- thread waits for a condition only with nothing to wait for.
pub record IsOrdered (m : Machine) : Type 0 where
  pub clients_held : m.clients_lock ≡ clients_owner m.connections m.messages
  pub exclusive : (in_connections m.connections && in_messages m.messages) ≡ false
  pub logs_held : m.logs_lock ≡ logs_owner m.reader
  pub no_clients : (messages_wait m.messages && ltb 0 (length m.system.server.clients)) ≡ false
  pub no_logs : (reader_waits m.reader && ltb 0 (length m.system.logs.logs)) ≡ false

-- One item more wakes a thread that waits for the first one; a thread that does not wait goes on.
signal_messages-woken :
    (before after : ℕ) (point : MessagesPoint)
    → after ≤ suc before
    → (messages_wait point && ltb 0 before) ≡ false
    → ((messages_wait (signal_messages (tells before after) point) && ltb 0 after) ≡ false)
      × (in_messages (signal_messages (tells before after) point) ≡ in_messages point)
signal_messages-woken before after MessagesPoint.waiting few h = ground arith
signal_messages-woken before after point few h = (h, refl)

signal_reader-woken :
    (before after : ℕ) (point : ReaderPoint)
    → after ≤ suc before
    → (reader_waits point && ltb 0 before) ≡ false
    → ((reader_waits (signal_reader (tells before after) point) && ltb 0 after) ≡ false)
      × (in_reader (signal_reader (tells before after) point) ≡ in_reader point)
signal_reader-woken before after ReaderPoint.waiting few h = ground arith
signal_reader-woken before after point few h = (h, refl)

-- Behind a round, the thread is in its pass.
behind_round-in_messages :
    (reported : ℕ → Bool) (id : ℕ) (more : List ℕ) (code : Code)
    → (in_messages (behind_round reported id more code) ≡ true)
      × (messages_wait (behind_round reported id more code) ≡ false)
behind_round-in_messages reported id more read_succeed = (refl, refl)
behind_round-in_messages reported id more read_succeed_data_available = (refl, refl)
behind_round-in_messages reported id more handshake_succeed = (refl, refl)
behind_round-in_messages reported id more waiting_for_more_data = (refl, refl)
behind_round-in_messages reported id more _ = (refl, refl)

keeps_waiting :
    (waits : Bool) (before after : Clients)
    → (before ≡ [] → after ≡ [])
    → (waits && ltb 0 (length before)) ≡ false
    → (waits && ltb 0 (length after)) ≡ false
keeps_waiting false before after stays h = refl
keeps_waiting true [] after stays h = let none_there = stays refl in ground arith
keeps_waiting true (entry ∷ before) after stays h = ground arith

ConnectionsMove-IsOrdered : {m n : Machine} → ConnectionsMove m n → IsOrdered m → IsOrdered n
ConnectionsMove-IsOrdered (sets_up ssl bound listens at is_done) h = ground arith
ConnectionsMove-IsOrdered (gives_up ssl bound listens at not_done) h = ground arith
ConnectionsMove-IsOrdered (accepts_next at go) h = ground arith
ConnectionsMove-IsOrdered (stops at stop) h = ground arith
ConnectionsMove-IsOrdered (turns_down arrival at result) h = ground arith
ConnectionsMove-IsOrdered (accepts arrival fd at result) h = ground arith
ConnectionsMove-IsOrdered (locks arrival at free) h = ground arith
ConnectionsMove-IsOrdered {m = m} (adds {server = server} arrival at sized e) h =
    let few =
      Ensures-returns (OneClient m.system.server) (listen_connections arrival m.system.server)
        server (listen_connections-OneClient arrival m.system.server) e in
    let (woken, same) =
      signal_messages-woken (length m.system.server.clients) (length server.clients) m.messages few
        h.no_clients in
    record {
      clients_held = ground arith;
      exclusive = ground arith;
      logs_held = h.logs_held;
      no_clients = woken;
      no_logs = h.no_logs;
    }
ConnectionsMove-IsOrdered (unlocks at) h = ground arith
ConnectionsMove-IsOrdered (locks_last at free) h = ground arith
ConnectionsMove-IsOrdered {m = m} (clears {clients = clients} rounds at e) h =
    let none_left =
      Ensures-returns (λ (after : Clients). after ≡ [])
        (disconnect_all rounds m.system.server.clients) clients
        (disconnect_all-empty rounds m.system.server.clients) e in
    ground arith
ConnectionsMove-IsOrdered (ends at) h = ground arith

MessagesMove-IsOrdered :
    {c : Crypto} {spurious : Bool} {m n : Machine}
    → MessagesMove c spurious m n
    → IsOrdered m
    → IsOrdered n
MessagesMove-IsOrdered (begins at go) h = ground arith
MessagesMove-IsOrdered (stops at stop) h = ground arith
MessagesMove-IsOrdered (enters at free) h = ground arith
MessagesMove-IsOrdered (finds_some at some_there) h = ground arith
MessagesMove-IsOrdered (waits at none_there) h = ground arith
MessagesMove-IsOrdered (wakes may at) h = ground arith
MessagesMove-IsOrdered (enters_again at free) h = ground arith
MessagesMove-IsOrdered (fills nfds at e) h = ground arith
MessagesMove-IsOrdered (selects reported at) h = ground arith
MessagesMove-IsOrdered (locks reported at free) h = ground arith
MessagesMove-IsOrdered (picks reported id fd more client at there e is_reported) h = ground arith
MessagesMove-IsOrdered (skips reported id fd more client at there e not_reported) h = ground arith
MessagesMove-IsOrdered {c = c} {m = m}
      (serves {s' = s'} reported id more client turn r at there fits is_r free e) h =
    let few =
      Ensures-returns (λ (s' : System). OneLog m.system.logs.logs s'.logs)
        (talk c turn id client m.system) s' (talk-OneLog c turn id client m.system) e in
    let (woken, same) =
      signal_reader-woken (length m.system.logs.logs) (length s'.logs.logs) m.reader few
        h.no_logs in
    let (inside, goes_on) = behind_round-in_messages reported id more r.code in
    record {
      clients_held = ground arith;
      exclusive = ground arith;
      logs_held = ground arith;
      no_clients = ground arith;
      no_logs = woken;
    }
MessagesMove-IsOrdered (erases reported id more at) h = ground arith
MessagesMove-IsOrdered (unlocks reported at) h = ground arith

ReaderMove-IsOrdered :
    {spurious : Bool} {m n : Machine} → ReaderMove spurious m n → IsOrdered m → IsOrdered n
ReaderMove-IsOrdered (begins at go) h = ground arith
ReaderMove-IsOrdered (stops at stop) h = ground arith
ReaderMove-IsOrdered (enters at free) h = ground arith
ReaderMove-IsOrdered (finds_some at some_there) h = ground arith
ReaderMove-IsOrdered (waits at none_there) h = ground arith
ReaderMove-IsOrdered (wakes may at) h = ground arith
ReaderMove-IsOrdered (enters_again at free) h = ground arith
ReaderMove-IsOrdered (fills nfds at e) h = ground arith
ReaderMove-IsOrdered (selects_nothing result filled at e) h = ground arith
ReaderMove-IsOrdered (selects result filled sets at e) h = ground arith
ReaderMove-IsOrdered (locks sets at free) h = ground arith
ReaderMove-IsOrdered {m = m} (reads {s' = s'} sets ev rounds at those e) h = record {
  clients_held = h.clients_held;
  exclusive = h.exclusive;
  logs_held = ground arith;
  no_clients =
      keeps_waiting (messages_wait m.messages) m.system.server.clients s'.server.clients
        (λ none_there.
          Ensures-returns (λ (s' : System). s'.server.clients ≡ []) (read_round ev rounds m.system)
            s' (read_round-empty ev rounds m.system none_there) e)
        h.no_clients;
  no_logs = ground arith;
}
ReaderMove-IsOrdered (unlocks at) h = ground arith

started-IsOrdered : IsOrdered started
started-IsOrdered = record {
  clients_held = refl;
  exclusive = refl;
  logs_held = refl;
  no_clients = refl;
  no_logs = refl;
}

-- In every state that the three threads come to, by whatever moves, woken without a signal or not: each
-- lock is held by the thread that stands between its taking and its giving back and by no other, never
-- are two threads there for the map of the clients, and a thread waits for its condition only while
-- the map or the list is empty, so that no signal is lost.
pub Moves-IsOrdered :
    (c : Crypto) (spurious : Bool) {m : Machine} → Moves c spurious started m → IsOrdered m
Moves-IsOrdered c spurious none_yet = started-IsOrdered
Moves-IsOrdered c spurious (one_more before move) = by_move move (Moves-IsOrdered c spurious before)
  where
    by_move : {m n : Machine} → Move c spurious m n → IsOrdered m → IsOrdered n
    by_move (by_connections move) h = ConnectionsMove-IsOrdered move h
    by_move (by_messages move) h = MessagesMove-IsOrdered move h
    by_move (by_reader move) h = ReaderMove-IsOrdered move h
    by_move by_stop h = ground arith
