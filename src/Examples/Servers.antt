-- ===== src/Examples/Servers.antt =====
-- Connections that come in, and messages of a client that follows logs.
use extension_project.Prelude.{
  ℕ, ◌+◌, ◌<◌, ◌≤◌, ◌≡◌, ◌≢◌, refl, List, [], ◌∷◌, ◌++◌, All, true, false, some, none, codes,
  length, arith,
}
use extension_project.WebSocket.Types.{returns, corrupts, ◌>>=◌}
use extension_project.Client.{Client, got, want_read, at_end}
use extension_project.Client.Connect.{connected, no_tls}
use extension_project.Server.{
  Clients, Server, int_max, Arrival, listen_connections, generate_id, get_client,
}
use extension_project.Server.Sets.{Below, fill_set_lem}
use extension_project.Server.Messages.{set_size}
use extension_project.Prelude.{◌≤◌}
use extension_project.Server.Ids.{IsFirstFree}
use extension_project.Server.Arrivals.{IsKept, Sized}
use extension_project.Server.Arrivals.Newcomers.{
  IsAdded, newcomer, listen_connections-IsAdded, blocking-corrupts,
}
use extension_project.Server.Messages.{fill_set, Turn, pass, serve, remains}
use extension_project.LogServer.Description.{opened, gone, LogDescription, LineEvents, tailing}
use extension_project.Prelude.{find_text-none_iff, inl}
use extension_project.LogServer.Names.{dots, AllSound}
use extension_project.LogServer.Round.{Events, Outcome, read_logs}
use extension_project.LogServer.Rounds.{Sent}
use extension_project.LogServer.Lines.{AllGot}
use extension_project.LogServer.Lines.Rounds.{read_round-AllGot}
use extension_project.LogServer.Threads.{read_round}
use extension_project.Server.{has_client}
use extension_project.LogServer.Requests.{Answers, Cleaned}
use extension_project.LogServer.Threads.{System, start, log_handler, arrives, Reach, here, next}
use extension_project.LogServer.Invariant.{IsSafe}
use extension_project.LogServer.Invariant.Steps.{Reach-IsSafe, newcomer-follows_nothing}
use extension_project.LogServer.Passes.Steps.{pass-Reach}
use extension_project.LogServer.Stream.{Incoming, handle_all, IsDone, serve-handle_all}
use extension_project.Examples.Data.{
  crypto, zeros, length-zeros, open_client, open_client-IsValid, key, ready,
}
use extension_project.LogServer.Effects.{of_client}
use extension_project.WebSocket.Rfc.{client_frame, length_bytes}

abbrev pub arrival : Arrival
arrival = record {
  result = connected 7;
  non_blocking = true;
  frame_buf = zeros 8193;
  send_buf = zeros 16001;
}

pub arrival-Sized : Sized arrival
arrival-Sized = record { frame_size = length-zeros 8193; send_size = length-zeros 16001 }

-- One client, under the id that the counter is at.
abbrev pub server : Server
server = record { clients = (3, open_client) ∷ []; id_counter = 3 }

server-IsKept : IsKept server.clients
server-IsKept = record {
  rising = (omega arith, tt);
  entries = (record { own_id = refl; valid = open_client-IsValid }, tt);
}

listen_connections-IsAdded_example :
    ((fd : ℕ)
      → connected 7 ≡ connected fd
      → true ≡ true
      → (id : ℕ) × (server' : Server) × (listen_connections arrival server ≡ returns server')
        × IsFirstFree 3 id server.clients
        × IsAdded id (newcomer id fd arrival) server server')
    × (((fd : ℕ) → connected 7 ≢ connected fd) → listen_connections arrival server ≡ returns server)
listen_connections-IsAdded_example =
    listen_connections-IsAdded arrival server server-IsKept arrival-Sized (omega arith)

abbrev blocking : Arrival
blocking = record arrival { non_blocking = false }

blocking-Sized : Sized blocking
blocking-Sized = record { frame_size = length-zeros 8193; send_size = length-zeros 16001 }

blocking-corrupts_example :
    (server' : Server) × (listen_connections blocking server ≡ returns server')
    × (fill_set 0 server'.clients ≡ corrupts)
blocking-corrupts_example =
    blocking-corrupts blocking server server-IsKept blocking-Sized (omega arith) 7 0 refl refl

-- The first client comes in.
abbrev pub first_server : Server
first_server = record { clients = (0, newcomer 0 7 arrival) ∷ []; id_counter = 0 }

abbrev pub first : System
first = record start { server = first_server }

first-Reach : Reach crypto start first
unfolding listen_connections extension_project.Client.Connect.accept
    extension_project.Client.Connect.set_non_blocking extension_project.Client.new_client
    extension_project.Server.add_client extension_project.Server.generate_id
    extension_project.Server.free_id extension_project.Server.put_client
    extension_project.Client.set_id extension_project.Server.has_client
first-Reach = next here (arrives arrival arrival-Sized refl refl)

Reach-IsSafe_example : IsSafe first
Reach-IsSafe_example = Reach-IsSafe crypto first-Reach

abbrev pub answers : Answers
answers = record { result = opened 12; now = record { sec = 0; nsec = 0 }; wait = λ fd. gone }

newcomer-follows_nothing_example :
    (id : ℕ) × (server' : Server) × (listen_connections arrival first_server ≡ returns server')
    × (get_client id server'.clients ≡ some (newcomer id 7 arrival))
    × (of_client id [] ≡ [])
newcomer-follows_nothing_example =
    newcomer-follows_nothing crypto first arrival 7 first-Reach arrival-Sized (omega arith) refl
      refl

-- SSL_read has nothing.
abbrev pub quiet : Turn Answers
quiet = record { read = want_read; writes = []; farewell = []; answers = answers }

-- The connection ends, and the close frame is taken.
abbrev last : Turn Answers
last = record { read = at_end; writes = ready ∷ []; farewell = ready ∷ []; answers = answers }

pass-Reach_example :
    Reach crypto first (record first { server = record first_server { clients = [] } })
unfolding pass extension_project.Client.Receive.receive
    extension_project.Client.Receive.receive_handshake extension_project.Client.Receive.handshake
    extension_project.Client.is_error extension_project.Client.disconnect
    extension_project.WebSocket.Frame.make_frame extension_project.WebSocket.Types.type_code
    extension_project.WebSocket.Frame.frame_header extension_project.Prelude.as_int
    extension_project.Client.send_frame extension_project.Client.write_rounds
    extension_project.Client.close_socket
    extension_project.LogServer.Requests.delete_requests_from_client
pass-Reach_example =
    pass-Reach crypto (λ fd. true) (λ id. last ∷ []) first [] first.logs first-Reach refl
      ((tt, λ r e. tt), tt) refl

abbrev message : Turn Answers → List ℕ → Incoming
message turn payload = record { turn = turn; key = key; payload = payload }

abbrev pub add_web : List ℕ
add_web = codes "add web"

abbrev del_web : List ℕ
del_web = codes "del web"

abbrev both : Turn Answers
both = record quiet { read = got (client_frame 1 key add_web ++ client_frame 1 key del_web ++ []) }

serve-handle_all_example :
    (client' : Client) × ((s : Cleaned)
      → serve log_handler crypto (both ∷ quiet ∷ quiet ∷ []) open_client s
        ≡ (handle_all 3 (message both add_web ∷ message quiet del_web ∷ []) s >>= remains client'))
    × IsDone 3 client'
unfolding client_frame length_bytes
serve-handle_all_example =
    serve-handle_all crypto 3 (quiet ∷ []) (message both add_web) (message quiet del_web ∷ [])
      open_client (client_frame 1 key add_web ++ client_frame 1 key del_web ++ [])
      open_client-IsValid refl refl refl (omega arith) refl
      ((omega arith, omega arith), ((omega arith, omega arith), tt)) (refl, tt)

abbrev pub web_log : LogDescription
web_log = record {
  name = codes "web";
  fd = 12;
  is_open = true;
  tail_pid = none;
  client_id = 3;
  next_send_time = record { sec = 0; nsec = 0 };
}

abbrev followed : System
followed = record {
  server = server;
  logs = record { logs = web_log ∷ []; killed = [] };
  leaving = none;
}

abbrev line_events : LineEvents
line_events = record {
  first = some (codes "a line");
  tail = tailing 77 20;
  retry = none;
  wait = gone;
  now = record { sec = 0; nsec = 0 };
}

abbrev pub events : Events
events = record {
  readable = λ fd. true;
  exceptional = λ fd. false;
  wait = λ fd. gone;
  line = λ fd. line_events;
}

read_round-AllGot_example :
    (o : Outcome) × (s' : System) × (read_logs events
        (λ id. has_client id server.clients)
        (web_log ∷ [])
      ≡ returns o)
    × (read_round events (λ n. ready ∷ []) followed ≡ returns s')
    × (o.sent ≡ (3, codes "a line") ∷ [])
    × All (Sent events (λ id. has_client id server.clients) (web_log ∷ [])) o.sent
    × AllGot o.sent server.clients s'.server.clients
    × AllSound s'.logs.logs
unfolding extension_project.Client.write_rounds has_client
read_round-AllGot_example =
    read_round-AllGot events (λ n. ready ∷ []) followed server-IsKept
      (record { is_open = refl; named = (find_text-none_iff (codes "web") dots).0 refl }, tt)
      (inl (codes "a line", refl), tt) (λ fd. record { first = omega arith; retry = tt })
      (λ n. refl)

fill_set_lem_example :
    (All (Below set_size) server.clients
      → (top : ℕ) × (fill_set 0 server.clients ≡ returns top)
        × (top ≤ set_size)
        × All (Below top) server.clients)
    × ((id fd : ℕ) (client : Client)
        → get_client id server.clients ≡ some client
        → client.socket ≡ some fd
        → set_size ≤ fd
        → fill_set 0 server.clients ≡ corrupts)
fill_set_lem_example = fill_set_lem server.clients
