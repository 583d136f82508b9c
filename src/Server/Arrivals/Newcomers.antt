-- ===== src/Server/Arrivals/Newcomers.antt =====
-- web_socket_server.cpp: ListenConnections, which puts a client into the map.
use extension_project.Prelude.{
  ℕ, ◌+◌, ◌<◌, ◌≡◌, ◌≢◌, refl, ◌∙◌, inl, inr, true, false, none, some, [], ◌∷◌, arith, ltb, ◌==◌,
  if◌then◌else◌, length, Bool-cases, Option-cases, Option,
}
use extension_project.WebSocket.Types.{returns, corrupts}
use extension_project.Client.{Client, new_client, set_id, close_socket}
use extension_project.Client.Buffer.{IsValid}
use extension_project.Client.Connect.{
  AcceptResult, no_socket, no_connection, no_descriptor, no_tls, connected, accept,
  set_non_blocking,
}
use extension_project.Server.{
  Clients, Server, int_max, put_client, get_client, add_client, Arrival, listen_connections,
}
use extension_project.Server.Messages.{fill_set}
use extension_project.Server.Ids.{IsFirstFree, generate_id-IsFirstFree}
use extension_project.Server.Arrivals.{
  Sized, IsEntry, IsKept, put_client-Rising, put_client-All, get_client-put_client,
}

-- The client that comes in on a socket.
abbrev pub newcomer : ℕ → ℕ → Arrival → Client
newcomer id fd arrival = record {
  id = some id;
  socket = some fd;
  frame_buf = arrival.frame_buf;
  send_buf = arrival.send_buf;
  frame_buf_pos = 0;
  handshaked = false;
  sent = [];
}

fill_set-corrupts :
    (nfds id : ℕ) (client : Client) (clients : Clients)
    → get_client id clients ≡ some client
    → client.socket ≡ none
    → fill_set nfds clients ≡ corrupts
unfolding fill_set get_client
fill_set-corrupts nfds id client [] there closed = cc
fill_set-corrupts nfds id client (entry ∷ clients) there closed =
    elim (Option-cases entry.1.socket) [
      | inl e ↦ rw e
      | inr (fd, e) ↦ elim (Bool-cases (entry.0 == id)) [
        | inl here ↦ ground arith
        | inr further ↦
            let rest =
              fill_set-corrupts (if ltb fd nfds then nfds else fd + 1) id client clients
                (rw further at there) closed in
            ground (arith, rest)
      ]
    ]

-- A client without an id, on a socket or none.
abbrev arrived_client : Option ℕ → Arrival → Client
arrived_client socket arrival = record {
  id = none;
  socket = socket;
  frame_buf = arrival.frame_buf;
  send_buf = arrival.send_buf;
  frame_buf_pos = 0;
  handshaked = false;
  sent = [];
}

module _ (arrival : Arrival) (fd : ℕ) (server : Server) (e : arrival.result ≡ connected fd) where
  arrived_plain :
      arrival.non_blocking ≡ true
      → listen_connections arrival server ≡ add_client (arrived_client (some fd) arrival) server
  unfolding listen_connections accept set_non_blocking new_client
  arrived_plain plain = simp (e, plain)

  arrived_blocking :
      arrival.non_blocking ≡ false
      → listen_connections arrival server ≡ add_client (arrived_client none arrival) server
  unfolding listen_connections accept set_non_blocking new_client close_socket
  arrived_blocking blocking = simp (e, blocking)

turned_down_by :
    (result : AcceptResult) (arrival : Arrival) (server : Server)
    → arrival.result ≡ result
    → ((fd : ℕ) → result ≢ connected fd)
    → listen_connections arrival server ≡ returns server
unfolding listen_connections accept
turned_down_by no_socket arrival server e ne = simp e
turned_down_by (no_connection fd) arrival server e ne = simp e
turned_down_by (no_descriptor fd) arrival server e ne = simp e
turned_down_by (no_tls fd) arrival server e ne = simp e
turned_down_by (connected fd) arrival server e ne = absurd (ne fd refl)

turned_down :
    (arrival : Arrival) (server : Server)
    → ((fd : ℕ) → arrival.result ≢ connected fd)
    → listen_connections arrival server ≡ returns server
turned_down arrival server ne = turned_down_by arrival.result arrival server refl ne

-- What a round of ListenConnections makes of the server: a new client under `id`, and nothing else.
pub record IsAdded (id : ℕ) (client : Client) (server server' : Server) : Type 0 where
  pub counter : server'.id_counter ≡ id
  pub found_there : get_client id server'.clients ≡ some client
  pub others_stay : (j : ℕ) → j ≢ id → get_client j server'.clients ≡ get_client j server.clients
  pub kept : IsKept server'.clients

module _ (arrival : Arrival) (server : Server) (kept : IsKept server.clients)
    (sized : Sized arrival) (room : server.id_counter + length server.clients < int_max) where
  add_client-IsAdded :
      (client : Client)
      → IsValid client
      → (id : ℕ) × (server' : Server) × (add_client client server ≡ returns server')
        × IsFirstFree server.id_counter id server.clients
        × IsAdded id (set_id id client) server server'
  unfolding add_client set_id
  add_client-IsAdded client valid =
      let (id, is_id, first) = generate_id-IsFirstFree server room in
      let clients : Clients = put_client id (set_id id client) server.clients in
      (
        id,
        record { clients = clients; id_counter = id },
        rw is_id refl,
        first,
        record {
          counter = refl;
          found_there =
              get_client-put_client id id (set_id id client) server.clients ∙ ground arith;
          others_stay =
              λ j ne. get_client-put_client j id (set_id id client) server.clients ∙ ground arith;
          kept = record {
            rising =
                put_client-Rising 0 id (set_id id client) server.clients (omega arith) kept.rising;
            entries =
                put_client-All IsEntry id (set_id id client) server.clients
                  (record {
                    own_id = refl;
                    valid = record {
                      frame_size = valid.frame_size;
                      send_size = valid.send_size;
                      within = valid.within;
                    };
                  })
                  kept.entries;
          };
        },
      )

  fresh-IsValid : (socket : Option ℕ) → IsValid (arrived_client socket arrival)
  fresh-IsValid socket = record {
    frame_size = sized.frame_size;
    send_size = sized.send_size;
    within = omega arith;
  }

  -- A connection that is accepted with TLS and made non-blocking is put into the map under the first
  -- free id from the counter on, with that id, its socket and an empty input; no other entry changes,
  -- and the ids of the map still rise and are those of their clients. A connection that Accept turns
  -- down leaves the server as it was. The arrays have their sizes, and the counter is in range.
  pub listen_connections-IsAdded :
      ((fd : ℕ)
        → arrival.result ≡ connected fd
        → arrival.non_blocking ≡ true
        → (id : ℕ) × (server' : Server) × (listen_connections arrival server ≡ returns server')
          × IsFirstFree server.id_counter id server.clients
          × IsAdded id (newcomer id fd arrival) server server')
      × (((fd : ℕ) → arrival.result ≢ connected fd)
          → listen_connections arrival server ≡ returns server)
  unfolding set_id
  listen_connections-IsAdded = (
    (λ fd e plain.
        let (id, server', is_added, first, added) =
          add_client-IsAdded (arrived_client (some fd) arrival) (fresh-IsValid (some fd)) in
        (id, server', arrived_plain arrival fd server e plain ∙ is_added, first, added)),
    (λ refused. turned_down arrival server refused),
  )

  -- If fcntl fails on a connection that was accepted, the client is put into the map all the same,
  -- without a socket, and the next loop of FD_SET over the clients leaves its set.
  pub blocking-corrupts :
      (fd nfds : ℕ)
      → arrival.result ≡ connected fd
      → arrival.non_blocking ≡ false
      → (server' : Server) × (listen_connections arrival server ≡ returns server')
        × (fill_set nfds server'.clients ≡ corrupts)
  unfolding set_id
  blocking-corrupts fd nfds e blocking =
      let (id, server', is_added, first, added) =
        add_client-IsAdded (arrived_client none arrival) (fresh-IsValid none) in
      (
        server',
        arrived_blocking arrival fd server e blocking ∙ is_added,
        fill_set-corrupts nfds id (record (newcomer id fd arrival) { socket = none })
            server'.clients added.found_there refl,
      )
