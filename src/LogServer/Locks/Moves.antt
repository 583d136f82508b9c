-- ===== src/LogServer/Locks/Moves.antt =====
-- web_socket_server.cpp and log-server.cpp: the moves of ListenConnections, ListenMessages and Run.
use extension_project.Prelude.{ℕ, ◌≡◌, ◌≢◌, Bool, true, false, List, [], ◌∷◌, none, some, length}
use extension_project.WebSocket.Types.{returns}
use extension_project.WebSocket.Answer.{Crypto}
use extension_project.Client.{Client, Round}
use extension_project.Client.Connect.{connected}
use extension_project.Client.Receive.{Received, receive}
use extension_project.Client.Keeps.Input.{Fits}
use extension_project.Server.{
  Clients, Server, Arrival, get_client, erase_client, listen_connections, disconnect_all,
}
use extension_project.Server.Arrivals.{Sized}
use extension_project.Server.Startup.{SslResults, is_set_up}
use extension_project.Server.Messages.{Turn, fill_set, message_len}
use extension_project.LogServer.Requests.{Answers}
use extension_project.LogServer.Round.{Events, SelectResult, fill_logs, filled_set, behind_select}
use extension_project.LogServer.Threads.{System, talk, read_round}
use extension_project.LogServer.Locks.{
  connections, messages, reader, Machine, ConnectionsPoint, MessagesPoint, ReaderPoint, starting,
  given_up, accepting, added, closing, clearing, cleared, arrived, adding, passing, serving,
  erasing, reading, done, tells, signal_messages, signal_reader, ids, behind_round, takes_logs,
}

-- ListenConnections.
pub data ConnectionsMove (m : Machine) : Machine → Type 0 where
  sets_up :
      (ssl : SslResults) (bound listens : Bool)
      → m.connections ≡ starting
      → is_set_up ssl bound listens ≡ true
      → ConnectionsMove m (record m { connections = ConnectionsPoint.looping })
  gives_up :
      (ssl : SslResults) (bound listens : Bool)
      → m.connections ≡ starting
      → is_set_up ssl bound listens ≡ false
      → ConnectionsMove m (record m { connections = given_up })
  accepts_next :
      m.connections ≡ ConnectionsPoint.looping
      → m.stop ≡ false
      → ConnectionsMove m (record m { connections = accepting })
  stops :
      m.connections ≡ ConnectionsPoint.looping
      → m.stop ≡ true
      → ConnectionsMove m (record m { connections = closing })
  turns_down :
      (arrival : Arrival)
      → m.connections ≡ accepting
      → ((fd : ℕ) → arrival.result ≢ connected fd)
      → ConnectionsMove m (record m { connections = ConnectionsPoint.looping })
  accepts :
      (arrival : Arrival) (fd : ℕ)
      → m.connections ≡ accepting
      → arrival.result ≡ connected fd
      → ConnectionsMove m (record m { connections = arrived arrival })
  locks :
      (arrival : Arrival)
      → m.connections ≡ arrived arrival
      → m.clients_lock ≡ none
      → ConnectionsMove m
          (record m { connections = adding arrival; clients_lock = some connections })
  adds :
      {server : Server} (arrival : Arrival)
      → m.connections ≡ adding arrival
      → Sized arrival
      → listen_connections arrival m.system.server ≡ returns server
      → ConnectionsMove m (record m {
        connections = added;
        system = record m.system { server = server };
        messages =
            signal_messages
              (tells (length m.system.server.clients) (length server.clients))
              m.messages;
      })
  unlocks :
      m.connections ≡ added
      → ConnectionsMove m (record m { connections = ConnectionsPoint.looping; clients_lock = none })
  locks_last :
      m.connections ≡ closing
      → m.clients_lock ≡ none
      → ConnectionsMove m (record m { connections = clearing; clients_lock = some connections })
  clears :
      {clients : Clients} (rounds : ℕ → List Round)
      → m.connections ≡ clearing
      → disconnect_all rounds m.system.server.clients ≡ returns clients
      → ConnectionsMove m (record m {
        connections = cleared;
        system = record m.system { server = record m.system.server { clients = clients } };
      })
  ends :
      m.connections ≡ cleared
      → ConnectionsMove m (record m { connections = ConnectionsPoint.ended; clients_lock = none })

-- ListenMessages. The wait for the condition gives the lock back and takes it again; it may end
-- without a signal, if `spurious` says so.
pub data MessagesMove (c : Crypto) (spurious : Bool) (m : Machine) : Machine → Type 0 where
  begins :
      m.messages ≡ MessagesPoint.looping
      → m.stop ≡ false
      → MessagesMove c spurious m (record m { messages = MessagesPoint.entering })
  stops :
      m.messages ≡ MessagesPoint.looping
      → m.stop ≡ true
      → MessagesMove c spurious m (record m { messages = MessagesPoint.ended })
  enters :
      m.messages ≡ MessagesPoint.entering
      → m.clients_lock ≡ none
      → MessagesMove c spurious m
          (record m { messages = MessagesPoint.testing; clients_lock = some messages })
  finds_some :
      m.messages ≡ MessagesPoint.testing
      → m.system.server.clients ≢ []
      → MessagesMove c spurious m (record m { messages = MessagesPoint.filling })
  waits :
      m.messages ≡ MessagesPoint.testing
      → m.system.server.clients ≡ []
      → MessagesMove c spurious m
          (record m { messages = MessagesPoint.waiting; clients_lock = none })
  wakes :
      spurious ≡ true
      → m.messages ≡ MessagesPoint.waiting
      → MessagesMove c spurious m (record m { messages = MessagesPoint.woken })
  enters_again :
      m.messages ≡ MessagesPoint.woken
      → m.clients_lock ≡ none
      → MessagesMove c spurious m
          (record m { messages = MessagesPoint.filling; clients_lock = some messages })
  fills :
      (nfds : ℕ)
      → m.messages ≡ MessagesPoint.filling
      → fill_set 0 m.system.server.clients ≡ returns nfds
      → MessagesMove c spurious m
          (record m { messages = MessagesPoint.selecting; clients_lock = none })
  selects :
      (reported : ℕ → Bool)
      → m.messages ≡ MessagesPoint.selecting
      → MessagesMove c spurious m (record m { messages = MessagesPoint.locking reported })
  locks :
      (reported : ℕ → Bool)
      → m.messages ≡ MessagesPoint.locking reported
      → m.clients_lock ≡ none
      → MessagesMove c spurious m (record m {
        messages = passing reported (ids m.system.server.clients);
        clients_lock = some messages;
      })
  picks :
      (reported : ℕ → Bool) (id fd : ℕ) (more : List ℕ) (client : Client)
      → m.messages ≡ passing reported (id ∷ more)
      → get_client id m.system.server.clients ≡ some client
      → client.socket ≡ some fd
      → reported fd ≡ true
      → MessagesMove c spurious m (record m { messages = serving reported id more })
  skips :
      (reported : ℕ → Bool) (id fd : ℕ) (more : List ℕ) (client : Client)
      → m.messages ≡ passing reported (id ∷ more)
      → get_client id m.system.server.clients ≡ some client
      → client.socket ≡ some fd
      → reported fd ≡ false
      → MessagesMove c spurious m (record m { messages = passing reported more })
  serves :
      {s' : System} (reported : ℕ → Bool) (id : ℕ) (more : List ℕ) (client : Client)
      (turn : Turn Answers) (r : Received)
      → m.messages ≡ serving reported id more
      → get_client id m.system.server.clients ≡ some client
      → Fits turn.read client
      → receive c turn.read turn.writes message_len client ≡ returns r
      → (takes_logs r.code ≡ true → m.logs_lock ≡ none)
      → talk c turn id client m.system ≡ returns s'
      → MessagesMove c spurious m (record m {
        messages = behind_round reported id more r.code;
        system = s';
        reader = signal_reader (tells (length m.system.logs.logs) (length s'.logs.logs)) m.reader;
      })
  erases :
      (reported : ℕ → Bool) (id : ℕ) (more : List ℕ)
      → m.messages ≡ erasing reported id more
      → MessagesMove c spurious m (record m {
        messages = passing reported more;
        system = record m.system {
          server = record m.system.server { clients = erase_client id m.system.server.clients };
          leaving = none;
        };
      })
  unlocks :
      (reported : ℕ → Bool)
      → m.messages ≡ passing reported []
      → MessagesMove c spurious m
          (record m { messages = MessagesPoint.looping; clients_lock = none })

-- LogServer::Run.
pub data ReaderMove (spurious : Bool) (m : Machine) : Machine → Type 0 where
  begins :
      m.reader ≡ ReaderPoint.looping
      → m.stop ≡ false
      → ReaderMove spurious m (record m { reader = ReaderPoint.entering })
  stops :
      m.reader ≡ ReaderPoint.looping
      → m.stop ≡ true
      → ReaderMove spurious m (record m { reader = ReaderPoint.ended })
  enters :
      m.reader ≡ ReaderPoint.entering
      → m.logs_lock ≡ none
      → ReaderMove spurious m (record m { reader = ReaderPoint.testing; logs_lock = some reader })
  finds_some :
      m.reader ≡ ReaderPoint.testing
      → m.system.logs.logs ≢ []
      → ReaderMove spurious m (record m { reader = ReaderPoint.filling })
  waits :
      m.reader ≡ ReaderPoint.testing
      → m.system.logs.logs ≡ []
      → ReaderMove spurious m (record m { reader = ReaderPoint.waiting; logs_lock = none })
  wakes :
      spurious ≡ true
      → m.reader ≡ ReaderPoint.waiting
      → ReaderMove spurious m (record m { reader = ReaderPoint.woken })
  enters_again :
      m.reader ≡ ReaderPoint.woken
      → m.logs_lock ≡ none
      → ReaderMove spurious m (record m { reader = ReaderPoint.filling; logs_lock = some reader })
  fills :
      (nfds : ℕ)
      → m.reader ≡ ReaderPoint.filling
      → fill_logs 0 m.system.logs.logs ≡ returns nfds
      → ReaderMove spurious m (record m {
        reader = ReaderPoint.selecting (filled_set m.system.logs.logs);
        logs_lock = none;
      })
  selects_nothing :
      (result : SelectResult) (filled : ℕ → Bool)
      → m.reader ≡ ReaderPoint.selecting filled
      → behind_select result filled ≡ none
      → ReaderMove spurious m (record m { reader = ReaderPoint.looping })
  selects :
      (result : SelectResult) (filled : ℕ → Bool) (sets : (ℕ → Bool) × (ℕ → Bool))
      → m.reader ≡ ReaderPoint.selecting filled
      → behind_select result filled ≡ some sets
      → ReaderMove spurious m (record m { reader = ReaderPoint.locking sets })
  locks :
      (sets : (ℕ → Bool) × (ℕ → Bool))
      → m.reader ≡ ReaderPoint.locking sets
      → m.logs_lock ≡ none
      → ReaderMove spurious m (record m { reader = reading sets; logs_lock = some reader })
  reads :
      {s' : System} (sets : (ℕ → Bool) × (ℕ → Bool)) (ev : Events) (rounds : ℕ → List Round)
      → m.reader ≡ reading sets
      → (ev.readable, ev.exceptional) ≡ sets
      → read_round ev rounds m.system ≡ returns s'
      → ReaderMove spurious m (record m { reader = done; system = s' })
  unlocks :
      m.reader ≡ done
      → ReaderMove spurious m (record m { reader = ReaderPoint.looping; logs_lock = none })

-- One move of one thread, or the call of Stop that sets the flag.
pub data Move (c : Crypto) (spurious : Bool) (m : Machine) : Machine → Type 0 where
  by_connections : {m' : Machine} → ConnectionsMove m m' → Move c spurious m m'
  by_messages : {m' : Machine} → MessagesMove c spurious m m' → Move c spurious m m'
  by_reader : {m' : Machine} → ReaderMove spurious m m' → Move c spurious m m'
  by_stop : Move c spurious m (record m { stop = true })

pub data Moves (c : Crypto) (spurious : Bool) (m : Machine) : Machine → Type 0 where
  none_yet : Moves c spurious m m
  one_more : {n k : Machine} → Moves c spurious m n → Move c spurious n k → Moves c spurious m k
