-- ===== src/LogServer/Locks/Refine.antt =====
-- web_socket_server.cpp and log-server.cpp: the moves of the threads make the steps of the server.
use extension_project.Prelude.{◌≡◌, refl, ◌∙◌, sym, ap, Bool, false, length, arith, subst}
use extension_project.WebSocket.Ensures.{Ensures-returns}
use extension_project.WebSocket.Answer.{Crypto}
use extension_project.LogServer.Threads.{
  System, start, log_handler, talk, send_lines, read_round, Step, arrives, talks, leaves, Reach,
  here, next,
}
use extension_project.LogServer.Threads
use extension_project.LogServer.Locks.{Machine, tells, behind_round, started}
use extension_project.LogServer.Locks.Moves.{
  ConnectionsMove, MessagesMove, ReaderMove, Move, Moves, accepts_next, sets_up, gives_up,
  turns_down, accepts, adds, locks_last, clears, ends, finds_some, begins, stops, enters, waits,
  wakes, enters_again, fills, selects, picks, skips, serves, erases, unlocks, reads, locks,
  by_connections, by_messages, by_reader, by_stop, none_yet, one_more,
}
use extension_project.LogServer.Locks.Owner.{IsOrdered, Moves-IsOrdered}
use extension_project.LogServer.Locks.Leaving.{
  leaving_of, has_cleared, talk-leaving, read_round-leaving, signal_messages-leaving,
  outside-leaving,
}

-- The state of the server as the steps have it.
record Refines (c : Crypto) (m : Machine) : Type 0 where
  matched : m.system.leaving ≡ leaving_of m.messages
  reached : has_cleared m.connections ≡ false → Reach c start m.system

module _ {c : Crypto} where
  -- A move that changes nothing of the server.
  silent :
      {m n : Machine}
      → Refines c m
      → n.system ≡ m.system
      → leaving_of n.messages ≡ leaving_of m.messages
      → (has_cleared n.connections ≡ false → has_cleared m.connections ≡ false)
      → Refines c n
  silent f same leaving still = record {
    matched = ap (λ (s : System). s.leaving) same ∙ f.matched ∙ sym leaving;
    reached = λ h. subst (Reach c start) (sym same) (f.reached (still h));
  }

  ConnectionsMove-Refines :
      {m n : Machine} → ConnectionsMove m n → IsOrdered m → Refines c m → Refines c n
  ConnectionsMove-Refines (sets_up ssl bound listens at is_done) h f =
      silent f refl refl (ground arith)
  ConnectionsMove-Refines (gives_up ssl bound listens at not_done) h f =
      silent f refl refl (ground arith)
  ConnectionsMove-Refines (accepts_next at go) h f = silent f refl refl (ground arith)
  ConnectionsMove-Refines (stops at stop) h f = silent f refl refl (ground arith)
  ConnectionsMove-Refines (turns_down arrival at result) h f = silent f refl refl (ground arith)
  ConnectionsMove-Refines (accepts arrival fd at result) h f = silent f refl refl (ground arith)
  ConnectionsMove-Refines (locks arrival at free) h f = silent f refl refl (ground arith)
  ConnectionsMove-Refines {m = m} (adds {server = server} arrival at sized e) h f =
      let same =
        signal_messages-leaving (tells (length m.system.server.clients) (length server.clients))
          m.messages in
      let none_leaves = f.matched ∙ outside-leaving m.messages (ground arith) in
      record {
        matched = f.matched ∙ sym same;
        reached = λ _. next (f.reached (ground arith)) (arrives arrival sized none_leaves e);
      }
  ConnectionsMove-Refines (unlocks at) h f = silent f refl refl (ground arith)
  ConnectionsMove-Refines (locks_last at free) h f = silent f refl refl (ground arith)
  ConnectionsMove-Refines (clears rounds at e) h f = record {
    matched = f.matched;
    reached = λ no. absurd (cc no);
  }
  ConnectionsMove-Refines (ends at) h f = silent f refl refl (ground arith)

  MessagesMove-Refines :
      {spurious : Bool} {m n : Machine} → MessagesMove c spurious m n → Refines c m → Refines c n
  MessagesMove-Refines (begins at go) f = silent f refl (ground arith) (λ h. h)
  MessagesMove-Refines (stops at stop) f = silent f refl (ground arith) (λ h. h)
  MessagesMove-Refines (enters at free) f = silent f refl (ground arith) (λ h. h)
  MessagesMove-Refines (finds_some at some_there) f = silent f refl (ground arith) (λ h. h)
  MessagesMove-Refines (waits at none_there) f = silent f refl (ground arith) (λ h. h)
  MessagesMove-Refines (wakes may at) f = silent f refl (ground arith) (λ h. h)
  MessagesMove-Refines (enters_again at free) f = silent f refl (ground arith) (λ h. h)
  MessagesMove-Refines (fills nfds at e) f = silent f refl (ground arith) (λ h. h)
  MessagesMove-Refines (selects reported at) f = silent f refl (ground arith) (λ h. h)
  MessagesMove-Refines (locks reported at free) f = silent f refl (ground arith) (λ h. h)
  MessagesMove-Refines (picks reported id fd more client at there e is_reported) f =
      silent f refl (ground arith) (λ h. h)
  MessagesMove-Refines (skips reported id fd more client at there e not_reported) f =
      silent f refl (ground arith) (λ h. h)
  MessagesMove-Refines {m = m}
        (serves {s' = s'} reported id more client turn r at there fits is_r free e) f =
      record {
        matched =
            Ensures-returns
              (λ (s' : System). s'.leaving ≡ leaving_of (behind_round reported id more r.code))
              (talk c turn id client m.system) s'
              (talk-leaving c turn id client m.system reported more r is_r) e;
        reached = λ h. next (f.reached h) (talks turn id client (ground arith) there fits e);
      }
  MessagesMove-Refines (erases reported id more at) f = record {
    matched = refl;
    reached = λ h. next (f.reached h) (leaves id (ground arith));
  }
  MessagesMove-Refines (unlocks reported at) f = silent f refl (ground arith) (λ h. h)

  ReaderMove-Refines :
      {spurious : Bool} {m n : Machine} → ReaderMove spurious m n → Refines c m → Refines c n
  ReaderMove-Refines {m = m} (reads {s' = s'} sets ev rounds at those e) f = record {
    matched =
        Ensures-returns (λ (s' : System). s'.leaving ≡ m.system.leaving)
          (read_round ev rounds m.system) s' (read_round-leaving ev rounds m.system) e
        ∙ f.matched;
    reached = λ h. next (f.reached h) (Threads.reads ev rounds e);
  }
  ReaderMove-Refines _ f = silent f refl refl (λ h. h)

  Move-Refines :
      {spurious : Bool} {m n : Machine}
      → Move c spurious m n
      → IsOrdered m
      → Refines c m
      → Refines c n
  Move-Refines (by_connections move) h f = ConnectionsMove-Refines move h f
  Move-Refines (by_messages move) h f = MessagesMove-Refines move f
  Move-Refines (by_reader move) h f = ReaderMove-Refines move f
  Move-Refines by_stop h f = silent f refl refl (λ h. h)

  Moves-Refines : {spurious : Bool} {m : Machine} → Moves c spurious started m → Refines c m
  Moves-Refines none_yet = record { matched = refl; reached = λ _. here }
  Moves-Refines {spurious = spurious} (one_more before move) =
      Move-Refines move (Moves-IsOrdered c spurious before) (Moves-Refines before)

-- Whatever the three threads do under their locks, the server is in a state that the steps of whole
-- critical sections reach, as long as ListenConnections has not emptied the map behind its loop.
pub Moves-Reach :
    (c : Crypto) (spurious : Bool) (m : Machine)
    → Moves c spurious started m
    → has_cleared m.connections ≡ false
    → Reach c start m.system
Moves-Reach c spurious m moves open_still = (Moves-Refines moves).reached open_still
