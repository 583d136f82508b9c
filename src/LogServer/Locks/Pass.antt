-- ===== src/LogServer/Locks/Pass.antt =====
-- web_socket_server.cpp: ListenMessages comes to clients that are in the map.
use extension_project.Prelude.{
  ℕ, ◌≡◌, refl, ◌∙◌, sym, ap, Bool, true, false, List, [], ◌∷◌, some, ◌==◌, length, arith, subst,
  All, All-weaken, inl, inr, Bool-cases,
}
use extension_project.WebSocket.Ensures.{Ensures-returns}
use extension_project.WebSocket.Answer.{Crypto}
use extension_project.Client.{Client}
use extension_project.Server.{Clients, has_client, get_client}
use extension_project.Server.Arrivals.{Rising, IsEntry, IsKept}
use extension_project.Server.Entries.{Within, get_client-All}
use extension_project.LogServer.Threads.{System, talk, read_round}
use extension_project.LogServer.Invariant.Steps.{Reach-IsSafe}
use extension_project.LogServer.Locks.{
  Machine, MessagesPoint, passing, serving, erasing, tells, signal_messages, started,
}
use extension_project.LogServer.Locks.Moves.{
  ConnectionsMove, MessagesMove, ReaderMove, Move, Moves, adds, clears, picks, skips, serves,
  erases, reads, locks, by_connections, by_messages, by_reader, by_stop, none_yet, one_more,
}
use extension_project.LogServer.Locks.Owner.{IsOrdered, Moves-IsOrdered, in_messages}
use extension_project.LogServer.Locks.Leaving.{has_cleared, has_cleared-before}
use extension_project.LogServer.Locks.Refine.{Moves-Reach}
use extension_project.LogServer.Locks.Visits.{
  to_visit, IsIn, Visits, AllVisits, ids-RisingIds, ids-IsIn, Visits-Within, Visits-tail,
  Visits-erase_client, none-Visits, behind_round-Visits, talk-Within, read_round-Within,
}

signal_messages-to_visit :
    (told : Bool) (point : MessagesPoint) → to_visit (signal_messages told point) ≡ to_visit point
signal_messages-to_visit true MessagesPoint.waiting = refl
signal_messages-to_visit false MessagesPoint.waiting = refl
signal_messages-to_visit told _ = refl

outside-to_visit : (point : MessagesPoint) → in_messages point ≡ false → to_visit point ≡ []
outside-to_visit (passing reported more) h = absurd (cc h)
outside-to_visit (serving reported id more) h = absurd (cc h)
outside-to_visit (erasing reported id more) h = absurd (cc h)
outside-to_visit _ h = refl

has_client-get_client :
    (id : ℕ) (clients : Clients)
    → has_client id clients ≡ true
    → (client : Client) × (get_client id clients ≡ some client)
unfolding has_client get_client
has_client-get_client id [] h = absurd (cc h)
has_client-get_client id (entry ∷ clients) h = elim (Bool-cases (entry.0 == id)) [
  | inl here ↦ (entry.1, rw here refl)
  | inr further ↦ rw further (has_client-get_client id clients (rw further at h))
]

-- Another list, that is the same.
along :
    {clients : Clients} {these those : List ℕ}
    → these ≡ those
    → Visits clients these
    → Visits clients those
along {clients = clients} e f = subst (Visits clients) e f

ConnectionsMove-AllVisits :
    {m n : Machine} → ConnectionsMove m n → IsOrdered m → AllVisits m → AllVisits n
ConnectionsMove-AllVisits {m = m} (adds {server = server} arrival at sized e) h f =
    along
      (sym (
        signal_messages-to_visit (tells (length m.system.server.clients) (length server.clients))
          m.messages
        ∙ outside-to_visit m.messages (ground arith)))
      (none-Visits server.clients)
ConnectionsMove-AllVisits {m = m} (clears {clients = clients} rounds at e) h f =
    along (sym (outside-to_visit m.messages (ground arith))) (none-Visits clients)
ConnectionsMove-AllVisits _ h f = f

MessagesMove-AllVisits :
    {c : Crypto} {spurious : Bool} {m n : Machine}
    → MessagesMove c spurious m n
    → Rising 0 m.system.server.clients
    → AllVisits m
    → AllVisits n
MessagesMove-AllVisits {m = m} (locks reported at free) rising f = record {
  there = ids-IsIn m.system.server.clients;
  rising = ids-RisingIds 0 m.system.server.clients rising;
}
MessagesMove-AllVisits (picks reported id fd more client at there e is_reported) rising f =
    along (ap to_visit at) f
MessagesMove-AllVisits {m = m} (skips reported id fd more client at there e not_reported) rising f =
    Visits-tail m.system.server.clients id more (along (ap to_visit at) f)
MessagesMove-AllVisits {c = c} {m = m}
      (serves {s' = s'} reported id more client turn r at there fits is_r free e) rising f =
    behind_round-Visits s'.server.clients reported id more r.code (
      Visits-Within m.system.server.clients s'.server.clients (id ∷ more)
        (Ensures-returns (λ (s' : System). Within m.system.server.clients s'.server.clients)
          (talk c turn id client m.system) s' (talk-Within c turn id client m.system) e)
        (along (ap to_visit at) f))
MessagesMove-AllVisits {m = m} (erases reported id more at) rising f =
    Visits-erase_client m.system.server.clients id more (along (ap to_visit at) f)
MessagesMove-AllVisits {m = m} _ rising f = none-Visits m.system.server.clients

ReaderMove-AllVisits :
    {spurious : Bool} {m n : Machine} → ReaderMove spurious m n → AllVisits m → AllVisits n
ReaderMove-AllVisits {m = m} (reads {s' = s'} sets ev rounds at those e) f =
    Visits-Within m.system.server.clients s'.server.clients (to_visit m.messages)
      (Ensures-returns (λ (s' : System). Within m.system.server.clients s'.server.clients)
        (read_round ev rounds m.system) s' (read_round-Within ev rounds m.system) e)
      f
ReaderMove-AllVisits _ f = f

Move-AllVisits :
    {c : Crypto} {spurious : Bool} {m n : Machine}
    → Move c spurious m n
    → IsOrdered m
    → Rising 0 m.system.server.clients
    → AllVisits m
    → AllVisits n
Move-AllVisits (by_connections move) h rising f = ConnectionsMove-AllVisits move h f
Move-AllVisits (by_messages move) h rising f = MessagesMove-AllVisits move rising f
Move-AllVisits (by_reader move) h rising f = ReaderMove-AllVisits move f
Move-AllVisits by_stop h rising f = f

Moves-IsKept :
    (c : Crypto) (spurious : Bool) {m : Machine}
    → Moves c spurious started m
    → has_cleared m.connections ≡ false
    → IsKept m.system.server.clients
Moves-IsKept c spurious {m = m} moves open_still =
    (Reach-IsSafe c (Moves-Reach c spurious m moves open_still)).kept

Moves-AllVisits :
    (c : Crypto) (spurious : Bool) {m : Machine}
    → Moves c spurious started m
    → has_cleared m.connections ≡ false
    → AllVisits m
Moves-AllVisits c spurious none_yet open_still = none-Visits []
Moves-AllVisits c spurious (one_more before move) open_still =
    let still = has_cleared-before move open_still in
    Move-AllVisits move (Moves-IsOrdered c spurious before)
      (Moves-IsKept c spurious before still).rising (Moves-AllVisits c spurious before still)

-- A client in the map, under its own id.
pub record IsFound (clients : Clients) (id : ℕ) : Type 0 where
  pub client : Client
  pub found_there : get_client id clients ≡ some client
  pub own_id : client.id ≡ some id

IsIn-IsFound : (clients : Clients) (id : ℕ) → IsKept clients → IsIn clients id → IsFound clients id
IsIn-IsFound clients id kept h =
    let (client, there) = has_client-get_client id clients h in
    record {
      client = client;
      found_there = there;
      own_id = (get_client-All IsEntry id client clients kept.entries there).own_id;
    }

-- Whatever the other threads do between its moves: every client that a pass of ListenMessages still
-- comes to, or is at, is in the map, under its own id, until ListenConnections has emptied the map
-- behind its loop.
pub Moves-IsFound :
    (c : Crypto) (spurious : Bool) (m : Machine)
    → Moves c spurious started m
    → has_cleared m.connections ≡ false
    → All (IsFound m.system.server.clients) (to_visit m.messages)
Moves-IsFound c spurious m moves open_still =
    let kept = Moves-IsKept c spurious moves open_still in
    All-weaken (λ id h. IsIn-IsFound m.system.server.clients id kept h) (to_visit m.messages)
      (Moves-AllVisits c spurious moves open_still).there
