-- ===== src/LogServer/Locks.antt =====
-- web_socket_server.cpp and log-server.cpp: the three threads with their locks and conditions. A thread
-- stands at a point of its loop, and a move takes it to the next one.
pub mod Moves
pub mod Sizes
pub mod Owner
pub mod Deadlock
pub mod Leaving
pub mod Refine
pub mod Stuck
pub mod Visits
pub mod Pass
use extension_project.Prelude.{
  ℕ, ◌≡◌, Bool, true, false, ◌&&◌, List, [], ◌∷◌, Option, none, some, ltb, ◌==◌, if◌then◌else◌,
  length,
}
use extension_project.Client.{
  Code, read_succeed, read_succeed_data_available, handshake_succeed, waiting_for_more_data,
}
use extension_project.Server.{Clients, Arrival}
use extension_project.LogServer.Threads.{System, start}

pub data Thread : Type 0 where
  connections messages reader : Thread

-- ListenConnections: in front of its set-up, and at its end if that fails; at the head of its loop, in
-- `accept`, with a connection in front of the lock and behind it, behind the adding; behind the loop in
-- front of the lock, behind it, and with an empty map; at its end.
pub data ConnectionsPoint : Type 0 where
  starting given_up looping accepting added closing clearing cleared ended : ConnectionsPoint
  arrived adding : Arrival → ConnectionsPoint

-- ListenMessages: at the head of its loop, in front of the lock, at the test of the map, in the wait
-- for the condition and behind it, at the filling of the set, in `select`, in front of the lock; then
-- with the ids that are left of the pass, in the do-while loop over a client, and with a client to be
-- taken out.
pub data MessagesPoint : Type 0 where
  looping entering testing waiting woken filling selecting ended : MessagesPoint
  locking : (ℕ → Bool) → MessagesPoint
  passing : (ℕ → Bool) → List ℕ → MessagesPoint
  serving erasing : (ℕ → Bool) → ℕ → List ℕ → MessagesPoint

-- LogServer::Run: as ListenMessages, with the set that it has filled in front of `select`, and with the
-- two sets behind it; then the round over the logs and the point behind that.
pub data ReaderPoint : Type 0 where
  looping entering testing waiting woken filling done ended : ReaderPoint
  selecting : (ℕ → Bool) → ReaderPoint
  locking reading : (ℕ → Bool) × (ℕ → Bool) → ReaderPoint

pub record Machine : Type 0 where
  pub system : System
  pub stop : Bool
  pub clients_lock : Option Thread
  pub logs_lock : Option Thread
  pub connections : ConnectionsPoint
  pub messages : MessagesPoint
  pub reader : ReaderPoint

-- TellThatListIsNotEmpty and TellThatLogsListIsNotEmpty: one more item, and it is the only one.
abbrev pub tells : ℕ → ℕ → Bool
tells before after = ltb before after && after == 1

abbrev pub signal_messages : Bool → MessagesPoint → MessagesPoint
signal_messages told MessagesPoint.waiting =
    if told then MessagesPoint.woken else MessagesPoint.waiting
signal_messages told point = point

abbrev pub signal_reader : Bool → ReaderPoint → ReaderPoint
signal_reader told ReaderPoint.waiting = if told then ReaderPoint.woken else ReaderPoint.waiting
signal_reader told point = point

-- The ids of the map, which the pass goes through.
abbrev pub ids : Clients → List ℕ
ids [] = []
ids (entry ∷ clients) = entry.0 ∷ ids clients

-- The codes behind which a handler is called, that takes the lock of the logs.
abbrev pub takes_logs : Code → Bool
takes_logs handshake_succeed = false
takes_logs waiting_for_more_data = false
takes_logs _ = true

-- Behind a round of the do-while loop.
abbrev pub behind_round : (ℕ → Bool) → ℕ → List ℕ → Code → MessagesPoint
behind_round reported id more read_succeed = MessagesPoint.passing reported more
behind_round reported id more waiting_for_more_data = MessagesPoint.passing reported more
behind_round reported id more read_succeed_data_available = MessagesPoint.serving reported id more
behind_round reported id more handshake_succeed = MessagesPoint.serving reported id more
behind_round reported id more _ = MessagesPoint.erasing reported id more

-- The threads in front of their first round, and ListenConnections in front of its set-up.
abbrev pub started : Machine
started = record {
  system = start;
  stop = false;
  clients_lock = none;
  logs_lock = none;
  connections = starting;
  messages = MessagesPoint.looping;
  reader = ReaderPoint.looping;
}
