-- ===== src/LogServer/Session/Whole.antt =====
-- client.cpp, web_socket_server.cpp and log-server.cpp together: a whole session, from the start of the
-- threads over a connection to the first line of a log, as moves of the threads.
use extension_project.Prelude.{
  ℕ, ◌+◌, ◌≤◌, ◌<◌, ◌≡◌, ◌≢◌, refl, ◌∙◌, ap, true, false, some, List, [], ◌∷◌, ◌++◌, arith, All,
  Lacks, Lacks-drop, inl, length, c_string,
}
use extension_project.WebSocket.Types.{returns}
use extension_project.WebSocket.Rfc.{Key, client_frame, server_frame}
use extension_project.WebSocket.Request.{
  Header, request_text, response_text, IsFine, IsResource, last_key,
}
use extension_project.WebSocket.Handshake.Rule.{is_taken}
use extension_project.WebSocket.Answer.{Crypto}
use extension_project.WebSocket.Answer.Keys.{accept_of}
use extension_project.Client.{
  Client, Round, got, to_write, write_rounds, buf_len, handshake_succeed, read_succeed, new_client,
  set_id,
}
use extension_project.Client.Connect.{connected, accept, set_non_blocking}
use extension_project.Server.{
  Arrival, has_client, get_client, put_client, listen_connections, add_client, generate_id, free_id,
}
use extension_project.Server.Startup.{SslResults, is_set_up}
use extension_project.Client.Buffer.{IsValid}
use extension_project.Server.Arrivals.{Sized, IsKept}
use extension_project.Server.Arrivals.Newcomers.{newcomer}
use extension_project.Server.Messages.{Turn, fill_set, set_size}
use extension_project.LogServer.Description.{LogDescription, opened}
use extension_project.LogServer.Requests.{Answers, Cleaned, add_action}
use extension_project.LogServer.Names.{AllSound, dots}
use extension_project.LogServer.Round.{Events, fill_logs}
use extension_project.LogServer.Lines.{frames_for}
use extension_project.LogServer.Streams.{fgets_text}
use extension_project.LogServer.Lines.Due.{lines_due}
use extension_project.LogServer.Lines.Rounds.{ShortLines, read_round-AllGot}
use extension_project.LogServer.Rounds.{IsCalm}
use extension_project.LogServer.Threads.{System, start}
use extension_project.LogServer.Invariant.Steps.{Reach-IsSafe}
use extension_project.LogServer.Session.Rounds.{all_reported, serve-Moves, read-Moves}
use extension_project.LogServer.Session.{Served, talked, new_log, shake_hands, ask_for_log}
use extension_project.LogServer.Locks.{
  Machine, ConnectionsPoint, started, serving, passing, messages, reader, done,
}
use extension_project.LogServer.Locks.Moves.{
  Moves, none_yet, one_more, by_connections, by_messages, sets_up, accepts_next, accepts, locks,
  adds, unlocks, begins, enters, finds_some, fills, selects, picks,
}
use extension_project.LogServer.Locks.Refine.{Moves-Reach}

-- What a browser and the system do in a session.
pub record Script : Type 0 where
  pub ssl : SslResults
  pub arrival : Arrival
  pub socket : ℕ
  pub resource : List ℕ
  pub headers : List Header
  pub key : List ℕ
  pub asks : Turn Answers
  pub mask : Key
  pub file : List ℕ
  pub fd : ℕ
  pub adds : Turn Answers
  pub events : Events
  pub writes : ℕ → List Round
  pub line : List ℕ

module _ (c : Crypto) (script : Script) where
  open script use {
    ssl, arrival, socket, resource, headers, key, asks, mask, file, fd, events, writes, line,
  }

  first_client : Client
  first_client = newcomer 0 socket arrival

  came : System
  came = record start { server = record { clients = (0, first_client) ∷ []; id_counter = 0 } }

  module _ (set_up : is_set_up ssl true true ≡ true) (sized : Sized arrival)
      (is_connected : arrival.result ≡ connected socket) (plain : arrival.non_blocking ≡ true)
      (in_set : socket < set_size) (asks_so : asks.read ≡ got (request_text resource headers []))
      (fits : length (request_text resource headers []) ≤ buf_len) (named : IsResource resource)
      (fine : All IsFine headers) (opens : is_taken headers ≡ true)
      (keyed : last_key headers ≡ some key) (short : length key ≤ 219)
      (answered : write_rounds to_write asks.writes ≡ returns true)
      (adds_so : script.adds.read ≡ got (client_frame 1 mask (add_action ++ 32 ∷ file)))
      (short_name : length file ≤ 121) (no_null : All (λ b. b ≢ 0) file)
      (no_dots : Lacks dots (add_action ++ 32 ∷ file))
      (is_open : script.adds.answers.result ≡ opened fd) (fd_in_set : fd < set_size)
      (short_lines : (n : ℕ) → ShortLines (events.line n)) (readable : events.readable fd ≡ true)
      (has_line : (events.line fd).first ≡ some line)
      (taken : (n : ℕ) → write_rounds to_write (writes n) ≡ returns true) where
    first_added : listen_connections arrival start.server ≡ returns came.server
    unfolding came first_client listen_connections accept set_non_blocking new_client add_client
        generate_id free_id put_client set_id has_client
    first_added = rw (is_connected, plain) refl

    -- The connection is in the map.
    connected_machine : Machine
    connected_machine = record started { system = came; connections = ConnectionsPoint.looping }

    connected-Moves : Moves c false started connected_machine
    unfolding connected_machine came
    connected-Moves =
        one_more
          (one_more
            (one_more
              (one_more
                (one_more (one_more none_yet (by_connections (sets_up ssl true true refl set_up)))
                  (by_connections (accepts_next refl refl)))
                (by_connections (accepts arrival socket refl is_connected)))
              (by_connections (locks arrival refl refl)))
            (by_connections (adds arrival refl sized first_added)))
          (by_connections (unlocks refl))

    -- ListenMessages has come to the client.
    serving_machine : Machine
    serving_machine = record connected_machine {
      clients_lock = some messages;
      messages = serving all_reported 0 [];
    }

    filled : fill_set 0 came.server.clients ≡ returns (socket + 1)
    unfolding fill_set came first_client
    filled = ground arith

    serving-Moves : Moves c false started serving_machine
    unfolding serving_machine connected_machine came get_client first_client all_reported
    serving-Moves =
        one_more
          (one_more
            (one_more
              (one_more
                (one_more
                  (one_more (one_more connected-Moves (by_messages (begins refl refl)))
                    (by_messages (enters refl refl)))
                  (by_messages (finds_some refl (λ e. cc e))))
                (by_messages (fills (socket + 1) refl filled)))
              (by_messages (selects all_reported refl)))
            (by_messages (locks all_reported refl refl)))
          (by_messages (picks all_reported 0 socket [] first_client refl refl refl refl))

    first_client-IsValid : IsValid first_client
    unfolding first_client
    first_client-IsValid = record {
      frame_size = sized.frame_size;
      send_size = sized.send_size;
      within = omega arith;
    }

    shaken :
        Served c 0 asks came first_client handshake_succeed came.logs
          (response_text (accept_of c key) ∷ [])
    unfolding came first_client
    shaken =
        shake_hands c 0 asks came first_client resource key headers first_client-IsValid refl refl
          refl asks_so fits named fine opens keyed short answered

    client : Client
    client = shaken.received.client

    s : System
    s = talked 0 client came.logs came

    shaken_machine : Machine
    shaken_machine = record serving_machine { system = s }

    shaken-Moves : Moves c false started shaken_machine
    unfolding shaken_machine serving_machine connected_machine s client came get_client first_client
    shaken-Moves =
        serve-Moves c serving_machine asks first_client handshake_succeed came.logs
          (response_text (accept_of c key) ∷ []) shaken refl refl refl serving-Moves

    log : LogDescription
    log = new_log file fd 0 script.adds.answers.now

    logged : Cleaned
    logged = record { logs = log ∷ []; killed = [] }

    welcome : List ℕ
    welcome = response_text (accept_of c key)

    asked : Served c 0 script.adds s client read_succeed logged (welcome ∷ [])
    unfolding logged log s client came welcome
    asked =
        ask_for_log c 0 script.adds s client mask file fd (response_text (accept_of c key) ∷ [])
          shaken.talking adds_so short_name no_null no_dots is_open

    client' : Client
    client' = asked.received.client

    said : client'.sent ≡ welcome ∷ []
    unfolding client'
    said = asked.talking.said

    s' : System
    s' = talked 0 client' logged s

    asked_machine : Machine
    asked_machine = record shaken_machine { system = s'; messages = passing all_reported [] }

    asked-Moves : Moves c false started asked_machine
    unfolding asked_machine shaken_machine serving_machine connected_machine s' s client' client
        came logged log get_client put_client welcome
    asked-Moves =
        serve-Moves c shaken_machine script.adds client read_succeed logged (welcome ∷ []) asked
          refl refl refl shaken-Moves

    -- What Run finds.
    filled_logs : fill_logs 0 s'.logs.logs ≡ returns (fd + 1)
    unfolding fill_logs s' logged log
    filled_logs = ground arith

    there : get_client 0 s'.server.clients ≡ some client'
    unfolding s' s came get_client put_client
    there = refl

    present : has_client 0 s'.server.clients ≡ true
    unfolding s' s came has_client put_client
    present = refl

    sound : AllSound s'.logs.logs
    unfolding s' logged log
    sound =
        (record { is_open = refl; named = Lacks-drop dots (add_action ++ 32 ∷ file) 4 no_dots }, tt)

    calm : All (IsCalm events) s'.logs.logs
    unfolding s' logged log
    calm = (inl (line, has_line), tt)

    some_logs : s'.logs.logs ≢ []
    unfolding s' logged
    some_logs e = cc e

    kept : IsKept s'.server.clients
    unfolding asked_machine shaken_machine serving_machine connected_machine
    kept = (Reach-IsSafe c (Moves-Reach c false asked_machine asked-Moves refl)).kept

    due :
        lines_due events (λ id. has_client id s'.server.clients) s'.logs.logs
        ≡ (0, c_string line) ∷ []
    unfolding s' logged log fgets_text
    due = rw (readable, present, has_line) refl

    -- A session: from the start of the threads, with a set-up that succeeds, moves of the three threads
    -- alone, with no signal out of turn, lead to a machine in which a client that connects gets the answer
    -- 101 with the accept value of its key and then the frame of the line that fgets gave for its log,
    -- and nothing else. The connection has a socket below 1024; it sends a request that the server takes
    -- (`is_taken`: an upgrade to "websocket", no version that does not begin with "13", and no
    -- subprotocol), with values of 1 to 255 bytes and a key of at most 219 bytes, which fits the buffer,
    -- and then the frame of "add <file>", with a name of at most 121 bytes, no null byte and no "..".
    -- The calls go well: the file opens, with a descriptor below 1024, it is reported and has a line,
    -- and SSL_write takes each frame.
    pub session-IsServed :
        (m : Machine) × (client : Client) × Moves c false started m
        × (get_client 0 m.system.server.clients ≡ some client)
        × (client.sent ≡ response_text (accept_of c key) ∷ server_frame 1 (c_string line) ∷ [])
    unfolding asked_machine shaken_machine serving_machine connected_machine welcome
    session-IsServed =
        let (o, s2, is_o, is_read, sent, present_for, all, sound2) =
          read_round-AllGot events writes s' kept sound calm short_lines taken in
        let (client2, there2, got_it) = all.each 0 client' there in
        (
          record asked_machine { reader = done; system = s2; logs_lock = some reader },
          client2,
          read-Moves c asked_machine (fd + 1) events writes s2 refl refl refl some_logs filled_logs
              is_read asked-Moves,
          there2,
          got_it.sent
              ∙ ap (λ lines. client'.sent ++ frames_for 0 lines) (sent ∙ due)
              ∙ ap (λ sent. sent ++ server_frame 1 (c_string line) ∷ []) said,
        )
