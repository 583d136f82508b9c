-- ===== src/LogServer/Locks/Sizes.antt =====
-- web_socket_server.cpp and log-server.cpp: by how much the map of clients and the list of logs grow.
use extension_project.Prelude.{
  ℕ, suc, ◌+◌, ◌≤◌, ◌≡◌, refl, ap, List, [], ◌∷◌, Option, none, some, ◌==◌, length, length-append,
  arith, c_string, find_text, starts_with, drop,
}
use extension_project.WebSocket.Types.{returns, found}
use extension_project.WebSocket.Ensures.{
  Ensures, Ensures-bind, Ensures-then, Ensures-if, Ensures-weaken,
}
use extension_project.WebSocket.Answer.{Crypto}
use extension_project.Client.{
  Client, Code, Round, new_client, read_succeed, read_succeed_data_available, handshake_succeed,
  waiting_for_more_data, disconnect,
}
use extension_project.Client.Connect.{accept, set_non_blocking}
use extension_project.Client.{set_id}
use extension_project.Prelude.{ℤ, pos, negsuc}
use extension_project.Client.Receive.{Received, receive}
use extension_project.Server.{
  Clients, Server, Arrival, put_client, generate_id, add_client, enter, listen_connections,
  disconnect_all, get_client, has_client,
}
use extension_project.Server.Entries.{SameClients, generate_id-clients}
use extension_project.Server.Messages.{
  Turn, Visited, remains, react, hand_over, drop_client, message_len,
}
use extension_project.LogServer.Description.{
  LogDescription, OpenResult, WaitResult, Time, cleanup, opened, no_file, no_stream, open_log,
}
use extension_project.LogServer.Requests.{
  Answers, Cleaned, check_log_name, start_reading_log, stop_reading_log, add_action, del_action,
  delete_requests_from_client, perform, on_message, is_request,
}
use extension_project.LogServer.Round.{Events, read_logs}
use extension_project.LogServer.Threads.{System, log_handler, talk, send_lines, read_round}

length-put_client :
    (id : ℕ) (client : Client) (clients : Clients)
    → length (put_client id client clients) ≤ suc (length clients)
unfolding put_client
length-put_client id client [] = omega arith
length-put_client id client (entry ∷ clients) = ground (arith, length-put_client id client clients)

-- At most one client more.
abbrev pub OneClient : Server → Server → Type 0
OneClient before after = length after.clients ≤ suc (length before.clients)

add_client-OneClient :
    (client : Client) (server : Server) → Ensures (OneClient server) (add_client client server)
unfolding add_client
add_client-OneClient client server =
    Ensures-bind (SameClients server) (OneClient server) (generate_id server) _
      (generate_id-clients server) (λ p same. added p.0 p.1 same)
  where
    added :
        (id : Option ℕ) (server' : Server)
        → server'.clients ≡ server.clients
        → OneClient server (elim id [
          | none ↦ server'
          | some new_id ↦ record server' {
            clients = put_client new_id (set_id new_id client) server'.clients;
          }
        ])
    added none server' same = omega (arith, ap (λ (l : Clients). length l) same)
    added (some id) server' same = omega (
      arith,
      ap (λ (l : Clients). length l) same,
      length-put_client id (set_id id client) server'.clients,
    )

pub listen_connections-OneClient :
    (arrival : Arrival) (server : Server)
    → Ensures (OneClient server) (listen_connections arrival server)
unfolding listen_connections
listen_connections-OneClient arrival server =
    by_value (accept arrival.result (new_client arrival.frame_buf arrival.send_buf)).0
      (accept arrival.result (new_client arrival.frame_buf arrival.send_buf)).1
  where
    by_value :
        (ret : ℤ) (client : Client)
        → Ensures (OneClient server) (enter ret arrival.non_blocking client server)
    by_value (negsuc n) client = omega arith
    by_value (pos n) client =
        Ensures-if (OneClient server) (n == 0) _ _
          (λ _. add_client-OneClient (set_non_blocking arrival.non_blocking client) server)
          (λ _. omega arith)

pub disconnect_all-empty :
    (rounds : ℕ → List Round) (clients : Clients)
    → Ensures (λ (after : Clients). after ≡ []) (disconnect_all rounds clients)
unfolding disconnect_all
disconnect_all-empty rounds [] = refl
disconnect_all-empty rounds (entry ∷ clients) =
    Ensures-then (λ (after : Clients). after ≡ []) (disconnect (rounds entry.0) entry.1) _
      (λ _ _. disconnect_all-empty rounds clients)

-- At most one log more.
abbrev pub OneLog : List LogDescription → Cleaned → Type 0
OneLog before after = length after.logs ≤ suc (length before)

abbrev NoLog : List LogDescription → Cleaned → Type 0
NoLog before after = length after.logs ≤ length before

stop_reading_log-NoLog :
    (wait : ℕ → WaitResult) (id : ℕ) (name : List ℕ) (logs : List LogDescription)
    → Ensures (NoLog logs) (stop_reading_log wait id name logs)
unfolding stop_reading_log
stop_reading_log-NoLog wait id name [] = omega arith
stop_reading_log-NoLog wait id name (log ∷ logs) =
    Ensures-if (NoLog (log ∷ logs)) (is_request id name log) _ _
      (λ _. Ensures-then (NoLog (log ∷ logs)) (cleanup (wait log.fd) log) _ (λ _ _. omega arith))
      (λ _.
        Ensures-bind (NoLog logs) (NoLog (log ∷ logs)) (stop_reading_log wait id name logs) _
          (stop_reading_log-NoLog wait id name logs) (λ c h. omega arith))

delete_requests_from_client-NoLog :
    (wait : ℕ → WaitResult) (id : ℕ) (logs : List LogDescription)
    → Ensures (NoLog logs) (delete_requests_from_client wait id logs)
unfolding delete_requests_from_client
delete_requests_from_client-NoLog wait id [] = omega arith
delete_requests_from_client-NoLog wait id (log ∷ logs) =
    let rest = delete_requests_from_client-NoLog wait id logs in
    Ensures-if (NoLog (log ∷ logs)) (log.client_id == id) _ _
      (λ _. Ensures-then (NoLog (log ∷ logs)) (cleanup (wait log.fd) log) _ (λ _ _.
        Ensures-bind (NoLog logs) (NoLog (log ∷ logs)) (delete_requests_from_client wait id logs) _
          rest (λ c h. omega arith)))
      (λ _.
        Ensures-bind (NoLog logs) (NoLog (log ∷ logs)) (delete_requests_from_client wait id logs) _
          rest (λ c h. omega arith))

start_reading_log-OneLog :
    (result : OpenResult) (now : Time) (id : ℕ) (name : List ℕ) (logs : List LogDescription)
    → length (start_reading_log result now id name logs).0 ≤ suc (length logs)
unfolding start_reading_log open_log
start_reading_log-OneLog (opened fd) now id name logs = omega (arith, length-append logs)
start_reading_log-OneLog no_file now id name logs = omega arith
start_reading_log-OneLog no_stream now id name logs = omega arith

perform-OneLog :
    (ev : Answers) (id : ℕ) (message name : List ℕ) (logs : List LogDescription)
    → Ensures (OneLog logs) (perform ev id message name logs)
unfolding perform
perform-OneLog ev id message name logs =
    Ensures-if (OneLog logs) (starts_with message add_action) _ _
      (λ _. start_reading_log-OneLog ev.result ev.now id name logs)
      (λ _.
        Ensures-if (OneLog logs) (starts_with message del_action) _ _
          (λ _.
            Ensures-weaken (NoLog logs) (OneLog logs) (λ c h. omega arith) _
              (stop_reading_log-NoLog ev.wait id name logs))
          (λ _. omega arith))

on_message-OneLog :
    (ev : Answers) (id : ℕ) (message : List ℕ) (logs : List LogDescription)
    → Ensures (OneLog logs) (on_message ev id message logs)
unfolding on_message
on_message-OneLog ev id message logs =
    Ensures-if (OneLog logs) (check_log_name message) _ _
      (λ _. at_space (find_text message (32 ∷ []))) (λ _. omega arith)
  where
    at_space :
        (at : Option ℕ)
        → Ensures (OneLog logs) (elim at [
          | none ↦ returns (record { logs = logs; killed = [] })
          | some at ↦ perform ev id message (drop (at + 1) message) logs
        ])
    at_space none = omega arith
    at_space (some at) = perform-OneLog ev id message (drop (at + 1) message) logs

module _ (turn : Turn Answers) (r : Received) (s : Cleaned) where
  hand_over-OneLog : Ensures (OneLog s.logs) (hand_over log_handler turn r s)
  unfolding hand_over
  hand_over-OneLog = Ensures-then (OneLog s.logs) (found r.message) _ (λ message _.
      Ensures-then (OneLog s.logs) (found r.client.id) _ (λ id _.
        Ensures-bind (OneLog s.logs) (OneLog s.logs)
          (on_message turn.answers id (c_string message) s.logs) _
          (on_message-OneLog turn.answers id (c_string message) s.logs) (λ c h. h)))

  abbrev OneLogThere : Visited Cleaned → Type 0
  OneLogThere v = OneLog s.logs v.state

  drop_client-OneLog : Ensures OneLogThere (drop_client log_handler turn r.client s)
  unfolding drop_client
  drop_client-OneLog = Ensures-then OneLogThere (disconnect turn.farewell r.client) _ (λ client _.
      Ensures-bind (NoLog s.logs) OneLogThere (log_handler.on_disconnect turn.answers client s) _
        (Ensures-then (NoLog s.logs) (found client.id) _ (λ id _.
          Ensures-bind (NoLog s.logs) (NoLog s.logs)
            (delete_requests_from_client turn.answers.wait id s.logs) _
            (delete_requests_from_client-NoLog turn.answers.wait id s.logs) (λ c h. h)))
        (λ c h. omega arith))

  react-OneLog : (code : Code) → Ensures OneLogThere (react log_handler turn remains code r s)
  unfolding react
  react-OneLog read_succeed =
      Ensures-bind (OneLog s.logs) OneLogThere (hand_over log_handler turn r s) _ hand_over-OneLog
        (λ t h. h)
  react-OneLog read_succeed_data_available =
      Ensures-bind (OneLog s.logs) OneLogThere (hand_over log_handler turn r s) _ hand_over-OneLog
        (λ t h. h)
  react-OneLog handshake_succeed = omega arith
  react-OneLog waiting_for_more_data = omega arith
  react-OneLog _ = drop_client-OneLog

pub talk-OneLog :
    (c : Crypto) (turn : Turn Answers) (id : ℕ) (client : Client) (s : System)
    → Ensures (λ (s' : System). OneLog s.logs.logs s'.logs) (talk c turn id client s)
unfolding talk
talk-OneLog c turn id client s =
    Ensures-then (λ (s' : System). OneLog s.logs.logs s'.logs)
      (receive c turn.read turn.writes message_len client) _
      (λ r _.
        Ensures-bind (OneLogThere turn r s.logs) (λ (s' : System). OneLog s.logs.logs s'.logs)
          (react log_handler turn remains r.code r s.logs) _ (react-OneLog turn r s.logs r.code)
          (λ v h. h))

-- Without clients, nothing is sent in a round over the logs.
pub read_round-empty :
    (ev : Events) (rounds : ℕ → List Round) (s : System)
    → s.server.clients ≡ []
    → Ensures (λ (s' : System). s'.server.clients ≡ []) (read_round ev rounds s)
unfolding read_round send_lines get_client
read_round-empty ev rounds s empty =
    Ensures-then (λ (s' : System). s'.server.clients ≡ [])
      (read_logs ev (λ id. has_client id s.server.clients) s.logs.logs) _
      (λ o _.
        Ensures-bind (λ (after : Clients). after ≡ []) (λ (s' : System). s'.server.clients ≡ [])
          (send_lines rounds o.sent s.server.clients) _ (no_one o.sent s.server.clients empty)
          (λ after h. h))
  where
    no_one :
        (lines : List (ℕ × List ℕ)) (clients : Clients)
        → clients ≡ []
        → Ensures (λ (after : Clients). after ≡ []) (send_lines rounds lines clients)
    no_one [] clients none_there = none_there
    no_one ((id, line) ∷ lines) [] none_there = tt
    no_one ((id, line) ∷ lines) (entry ∷ clients) none_there = absurd (cc none_there)
