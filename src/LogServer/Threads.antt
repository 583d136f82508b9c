-- ===== src/LogServer/Threads.antt =====
-- log-server.cpp and web_socket_server.cpp together: what the log server does with messages, and the
-- steps of its three threads, ListenConnections, ListenMessages and Run. A step is what a thread does
-- in one hold of the locks: the clients' lock for a connection, the logs' lock for a message, a
-- disconnect or a round over the logs.
use extension_project.Prelude.{
  ℕ, ◌≡◌, List, [], ◌∷◌, ◌++◌, Option, none, some, if◌then◌else◌, length, c_string,
}
use extension_project.WebSocket.Types.{Run, returns, ◌>>=◌, found}
use extension_project.WebSocket.Answer.{Crypto}
use extension_project.Client.{Client, Round, send}
use extension_project.Client.Receive.{receive}
use extension_project.Client.Keeps.Input.{Fits}
use extension_project.Server.{
  Clients, Server, has_client, put_client, get_client, erase_client, Arrival, listen_connections,
}
use extension_project.Server.Arrivals.{Sized}
use extension_project.Server.Messages.{Handler, Turn, remains, react, message_len}
use extension_project.LogServer.Requests.{Answers, Cleaned, on_message, delete_requests_from_client}
use extension_project.LogServer.Round.{Events, read_logs}

abbrev pub behind : Cleaned → Cleaned → Cleaned
behind before c = record c { killed = before.killed ++ c.killed }

-- OnMessage and OnDisconnect of LogServer on the list of logs, with all that has been killed. A
-- client in the map has an id; `data_buf` is read as a C string.
abbrev pub log_handler : Handler Answers Cleaned
log_handler = record {
  on_message = λ ev client message s. found client.id >>= λ id.
      on_message ev id (c_string message) s.logs >>= λ c. returns (behind s c);
  on_disconnect = λ ev client s. found client.id >>= λ id.
      delete_requests_from_client ev.wait id s.logs >>= λ c. returns (behind s c);
}

-- The server: its clients, its logs, and the client that has been disconnected and is not yet taken
-- out of the map.
pub record System : Type 0 where
  pub server : Server
  pub logs : Cleaned
  pub leaving : Option ℕ

abbrev pub start : System
start = record {
  server = record { clients = []; id_counter = 0 };
  logs = record { logs = []; killed = [] };
  leaving = none;
}

-- A round of the do-while loop of ListenMessages over the client with this id.
unfoldable pub talk : Crypto → Turn Answers → ℕ → Client → System → Run System
talk c turn id client s = do
  r ← receive c turn.read turn.writes message_len client
  v ← react log_handler turn remains r.code r s.logs
  returns (record {
    server = record s.server { clients = put_client id v.client s.server.clients };
    logs = v.state;
    leaving = if v.stays then none else some id;
  })

-- `Send` of each line to the client that it goes to; `rounds` is by the number of lines to come.
unfoldable pub send_lines : (ℕ → List Round) → List (ℕ × List ℕ) → Clients → Run Clients
send_lines rounds [] clients = returns clients
send_lines rounds ((id, line) ∷ lines) clients = do
  client ← found (get_client id clients)
  (r, client') ← send (rounds (length lines)) line client
  send_lines rounds lines (put_client id client' clients)

-- A round of Run over the logs.
unfoldable pub read_round : Events → (ℕ → List Round) → System → Run System
read_round ev rounds s = do
  o ← read_logs ev (λ id. has_client id s.server.clients) s.logs.logs
  clients ← send_lines rounds o.sent s.server.clients
  returns (record s {
    server = record s.server { clients = clients };
    logs = behind s.logs (record { logs = o.logs; killed = o.killed });
  })

pub data Step (c : Crypto) : System → System → Type 0 where
  arrives :
      {s : System} {server : Server} (arrival : Arrival)
      → Sized arrival
      → s.leaving ≡ none
      → listen_connections arrival s.server ≡ returns server
      → Step c s (record s { server = server })
  talks :
      {s s' : System} (turn : Turn Answers) (id : ℕ) (client : Client)
      → s.leaving ≡ none
      → get_client id s.server.clients ≡ some client
      → Fits turn.read client
      → talk c turn id client s ≡ returns s'
      → Step c s s'
  leaves :
      {s : System} (id : ℕ)
      → s.leaving ≡ some id
      → Step c s (record s {
        server = record s.server { clients = erase_client id s.server.clients };
        leaving = none;
      })
  reads :
      {s s' : System} (ev : Events) (rounds : ℕ → List Round)
      → read_round ev rounds s ≡ returns s'
      → Step c s s'

pub data Reach (c : Crypto) (s : System) : System → Type 0 where
  here : Reach c s s
  next : {t u : System} → Reach c s t → Step c t u → Reach c s u
