-- ===== src/LogServer/Locks/Deadlock.antt =====
-- web_socket_server.cpp and log-server.cpp: which threads wait for which locks.
use extension_project.Prelude.{
  ◌≡◌, ◌⊎◌, inl, inr, Bool-cases, refl, Bool, true, false, Option, none, some, arith,
}
use extension_project.WebSocket.Answer.{Crypto}
use extension_project.LogServer.Locks.{
  Thread, connections, messages, reader, Machine, ConnectionsPoint, MessagesPoint, ReaderPoint,
  added, closing, clearing, cleared, arrived, adding, locking, passing, serving, erasing, reading,
  done, started,
}
use extension_project.LogServer.Locks.Moves.{Moves}
use extension_project.LogServer.Locks.Owner.{
  IsOrdered, Moves-IsOrdered, in_connections, in_messages, in_reader,
}

abbrev is_taken : Option Thread → Bool
is_taken none = false
is_taken (some thread) = true

-- Whether ListenConnections waits for the lock of the clients.
abbrev connections_blocked : Option Thread → ConnectionsPoint → Bool
connections_blocked lock (arrived arrival) = is_taken lock
connections_blocked lock closing = is_taken lock
connections_blocked lock _ = false

-- Whether ListenMessages waits for the lock of the clients, or, in a handler, for that of the logs.
abbrev messages_blocked : Option Thread → Option Thread → MessagesPoint → Bool
messages_blocked clients_lock logs_lock MessagesPoint.entering = is_taken clients_lock
messages_blocked clients_lock logs_lock MessagesPoint.woken = is_taken clients_lock
messages_blocked clients_lock logs_lock (locking reported) = is_taken clients_lock
messages_blocked clients_lock logs_lock (serving reported id more) = is_taken logs_lock
messages_blocked clients_lock logs_lock _ = false

-- Whether Run waits for the lock of the logs.
abbrev reader_blocked : Option Thread → ReaderPoint → Bool
reader_blocked lock ReaderPoint.entering = is_taken lock
reader_blocked lock ReaderPoint.woken = is_taken lock
reader_blocked lock (ReaderPoint.locking sets) = is_taken lock
reader_blocked lock _ = false

abbrev is_blocked : Machine → Thread → Bool
is_blocked m connections = connections_blocked m.clients_lock m.connections
is_blocked m messages = messages_blocked m.clients_lock m.logs_lock m.messages
is_blocked m reader = reader_blocked m.logs_lock m.reader

connections_blocked-taken :
    (lock : Option Thread) (point : ConnectionsPoint)
    → connections_blocked lock point ≡ true
    → is_taken lock ≡ true
connections_blocked-taken lock (arrived arrival) h = h
connections_blocked-taken lock closing h = h
connections_blocked-taken lock _ h = absurd (cc h)

reader_blocked-taken :
    (lock : Option Thread) (point : ReaderPoint)
    → reader_blocked lock point ≡ true
    → is_taken lock ≡ true
reader_blocked-taken lock ReaderPoint.entering h = h
reader_blocked-taken lock ReaderPoint.woken h = h
reader_blocked-taken lock (ReaderPoint.locking sets) h = h
reader_blocked-taken lock _ h = absurd (cc h)

messages_blocked-taken :
    (clients_lock logs_lock : Option Thread) (point : MessagesPoint)
    → messages_blocked clients_lock logs_lock point ≡ true
    → (is_taken clients_lock ≡ true) ⊎ (is_taken logs_lock ≡ true)
messages_blocked-taken clients_lock logs_lock MessagesPoint.entering h = inl h
messages_blocked-taken clients_lock logs_lock MessagesPoint.woken h = inl h
messages_blocked-taken clients_lock logs_lock (locking reported) h = inl h
messages_blocked-taken clients_lock logs_lock (serving reported id more) h = inr h
messages_blocked-taken clients_lock logs_lock _ h = absurd (cc h)

-- Who is behind the taking of a lock waits for no other, but ListenMessages for that of the logs.
connections_free :
    (lock : Option Thread) (point : ConnectionsPoint)
    → in_connections point ≡ true
    → connections_blocked lock point ≡ false
connections_free lock added h = refl
connections_free lock clearing h = refl
connections_free lock cleared h = refl
connections_free lock (adding arrival) h = refl
connections_free lock _ h = absurd (cc h)

reader_free :
    (lock : Option Thread) (point : ReaderPoint)
    → in_reader point ≡ true
    → reader_blocked lock point ≡ false
reader_free lock ReaderPoint.testing h = refl
reader_free lock ReaderPoint.filling h = refl
reader_free lock (reading sets) h = refl
reader_free lock done h = refl
reader_free lock _ h = absurd (cc h)

messages_free :
    (lock : Option Thread) (point : MessagesPoint)
    → in_messages point ≡ true
    → messages_blocked lock none point ≡ false
messages_free lock MessagesPoint.testing h = refl
messages_free lock MessagesPoint.filling h = refl
messages_free lock (passing reported more) h = refl
messages_free lock (serving reported id more) h = refl
messages_free lock (erasing reported id more) h = refl
messages_free lock _ h = absurd (cc h)

is_blocked-taken :
    (m : Machine) (thread : Thread)
    → is_blocked m thread ≡ true
    → (is_taken m.clients_lock ≡ true) ⊎ (is_taken m.logs_lock ≡ true)
is_blocked-taken m connections h = inl (connections_blocked-taken m.clients_lock m.connections h)
is_blocked-taken m messages h = messages_blocked-taken m.clients_lock m.logs_lock m.messages h
is_blocked-taken m reader h = inr (reader_blocked-taken m.logs_lock m.reader h)

-- A thread that holds a lock and waits for none.
abbrev pub GoesOn : Machine → Type 0
GoesOn m =
    (holder : Thread) × ((m.clients_lock ≡ some holder) ⊎ (m.logs_lock ≡ some holder))
    × (is_blocked m holder ≡ false)

-- With the lock of the logs free, the one that holds that of the clients goes on.
clients-GoesOn :
    (m : Machine) → IsOrdered m → m.logs_lock ≡ none → is_taken m.clients_lock ≡ true → GoesOn m
clients-GoesOn m h free taken = elim (Bool-cases (in_connections m.connections)) [
  | inl inside ↦
      (connections, inl (ground arith), connections_free m.clients_lock m.connections inside)
  | inr outside ↦ elim (Bool-cases (in_messages m.messages)) [
    | inl inside ↦
        (messages, inl (ground arith), rw free (messages_free m.clients_lock m.messages inside))
    | inr none_inside ↦ absurd (ground arith)
  ]
]

-- In every state that the three threads come to: if a thread waits for a lock, then some thread holds a
-- lock and waits for none. So the threads never wait for each other in a ring.
pub Moves-GoesOn :
    (c : Crypto) (spurious : Bool) (m : Machine) (thread : Thread)
    → Moves c spurious started m
    → is_blocked m thread ≡ true
    → GoesOn m
Moves-GoesOn c spurious m thread moves waits =
    let h = Moves-IsOrdered c spurious moves in
    elim (Bool-cases (in_reader m.reader)) [
      | inl inside ↦ (reader, inr (ground arith), reader_free m.logs_lock m.reader inside)
      | inr outside ↦
          let free : m.logs_lock ≡ none = ground arith in
          elim (is_blocked-taken m thread waits) [
            | inl taken ↦ clients-GoesOn m h free taken
            | inr taken ↦ absurd (ground arith)
          ]
    ]
