-- ===== src/LogServer/Session.antt =====
-- client.cpp, web_socket_server.cpp and log-server.cpp together: the rounds of ListenMessages in which a
-- client shakes hands and asks for a log.
pub mod Rounds
pub mod Whole
use extension_project.Prelude.{
  ℕ, ◌+◌, ◌≤◌, ◌<◌, ◌≡◌, refl, ◌∙◌, sym, ap, true, false, none, some, List, [], ◌∷◌, ◌++◌, arith,
  All, Lacks, find_text-none_iff, length, c_string, append-nil, take, subst, if◌then◌else◌, ◌≢◌,
  ◌==◌, starts_with,
}
use extension_project.WebSocket.Handshake.Rule.{is_taken}
use extension_project.WebSocket.Types.{returns, ◌>>=◌}
use extension_project.WebSocket.Ensures.{Ensures-returns}
use extension_project.WebSocket.Rfc.{Key, client_frame}
use extension_project.WebSocket.Frame.RoundTrip.{length-client_frame}
use extension_project.WebSocket.Request.{
  Header, request_text, response_text, IsFine, IsResource, last_key,
}
use extension_project.WebSocket.Handshake.Texts.{c_string-append}
use extension_project.WebSocket.Answer.{Crypto}
use extension_project.WebSocket.Answer.Keys.{accept_of}
use extension_project.Client.{
  Code, Client, got, to_write, write_rounds, buf_len, handshake_succeed, read_succeed, available,
}
use extension_project.Client.Buffer.{IsValid, pending, length-pending}
use extension_project.Client.Receive.{Received, receive}
use extension_project.Client.Delivery.{Supplies, Delivered, receive-Delivered}
use extension_project.Client.Silent.{receive-IsSilent}
use extension_project.Client.Keeps.Input.{Fits, KeepsReceived, receive-Keeps}
use extension_project.Client.Welcome.{IsWelcome}
use extension_project.Client.Welcome.Reply.{receive-IsWelcome}
use extension_project.Server.{Server, Clients, get_client, put_client}
use extension_project.Server.Arrivals.{get_client-put_client}
use extension_project.Server.Messages.{Turn, Visited, remains, react, hand_over, message_len}
use extension_project.LogServer.Description.{LogDescription, Time, opened}
use extension_project.LogServer.Requests.{Answers, Cleaned, on_message, add_action}
use extension_project.LogServer.Effects.{on_message-add}
use extension_project.LogServer.Names.{dots}
use extension_project.LogServer.Stream.{available_none, hand_over_lem}
use extension_project.LogServer.Threads.{System, log_handler, behind, talk, Step, talks}

-- A client that has shaken hands, has nothing left of its input, and has been sent `sent`.
pub record IsTalking (id : ℕ) (sent : List (List ℕ)) (client : Client) : Type 0 where
  pub own_id : client.id ≡ some id
  pub valid : IsValid client
  pub done : client.handshaked ≡ true
  pub nothing_left : pending client ≡ []
  pub said : client.sent ≡ sent

-- The state behind a round over the client `id`, which stays.
abbrev pub talked : ℕ → Client → Cleaned → System → System
talked id client logs s = record {
  server = record s.server { clients = put_client id client s.server.clients };
  logs = logs;
  leaving = none;
}

-- The log of a file that was just opened.
abbrev pub new_log : List ℕ → ℕ → ℕ → Time → LogDescription
new_log file fd id now = record {
  name = file;
  fd = fd;
  is_open = true;
  tail_pid = none;
  client_id = id;
  next_send_time = now;
}

c_string-All : (text : List ℕ) → All (λ b. b ≢ 0) text → c_string text ≡ text
c_string-All text h =
    ap c_string (sym (append-nil text)) ∙ c_string-append text [] h ∙ append-nil text

add_IsWord : Lacks (32 ∷ []) add_action
add_IsWord = (find_text-none_iff add_action (32 ∷ [])).0 refl

-- A round over the client `id` that stays: what Receive returns, and what the round leaves.
pub record Served (c : Crypto) (id : ℕ) (turn : Turn Answers) (s : System) (client : Client)
    (code : Code) (logs : Cleaned) (sent : List (List ℕ)) : Type 0 where
  pub received : Received
  pub is_received : receive c turn.read turn.writes message_len client ≡ returns received
  pub returned : received.code ≡ code
  pub fits : Fits turn.read client
  pub is_talked : talk c turn id client s ≡ returns (talked id received.client logs s)
  pub talking : IsTalking id sent received.client

module _ (c : Crypto) (id : ℕ) (turn : Turn Answers) (s : System) (client : Client) where
  talk_stays :
      (r : Received) (logs : Cleaned)
      → receive c turn.read turn.writes message_len client ≡ returns r
      → react log_handler turn remains r.code r s.logs
        ≡ returns (record { client = r.client; state = logs; stays = true })
      → talk c turn id client s ≡ returns (talked id r.client logs s)
  unfolding talk
  talk_stays r logs is_r e = rw is_r (rw e refl)

  room-Fits :
      (bytes : List ℕ)
      → turn.read ≡ got bytes
      → client.frame_buf_pos + length bytes ≤ buf_len
      → Fits turn.read client
  room-Fits bytes e h = subst (λ read. Fits read client) (sym e) h

  -- A round in which the opening request comes in.
  pub shake_hands :
      (resource key : List ℕ) (headers : List Header)
      → IsValid client
      → client.id ≡ some id
      → client.handshaked ≡ false
      → client.frame_buf_pos ≡ 0
      → turn.read ≡ got (request_text resource headers [])
      → length (request_text resource headers []) ≤ buf_len
      → IsResource resource
      → All IsFine headers
      → is_taken headers ≡ true
      → last_key headers ≡ some key
      → length key ≤ 219
      → write_rounds to_write turn.writes ≡ returns true
      → Served c id turn s client handshake_succeed s.logs
          (client.sent ++ response_text (accept_of c key) ∷ [])
  unfolding react
  shake_hands resource key headers v own new empty is_read fits named fine opens keyed short taken =
      let text : List ℕ = request_text resource headers [] in
      let nothing : pending client ≡ [] = ap (λ n. take n client.frame_buf) empty in
      let (r, is_r, code, no_message, shaken, w) =
        receive-IsWelcome c turn.writes client v text resource [] headers (omega arith)
          (ap (λ p. p ++ text) nothing ∙ sym (append-nil text)) named fine key message_len new opens
          keyed short taken in
      let is_r' : receive c turn.read turn.writes message_len client ≡ returns r =
        ap (λ read. receive c read turn.writes message_len client) is_read ∙ is_r in
      let e : react log_handler turn remains r.code r s.logs
          ≡ returns (record { client = r.client; state = s.logs; stays = true }) =
        ap (λ code. react log_handler turn remains code r s.logs) code in
      record {
        received = r;
        is_received = is_r';
        returned = code;
        fits = room-Fits text is_read (omega arith);
        is_talked = talk_stays r s.logs is_r' e;
        talking = record {
          own_id = w.id ∙ own;
          valid = w.valid;
          done = shaken;
          nothing_left = w.rest_stays;
          said = w.answered;
        };
      }

  -- A round in which the message "add <file>" comes in, and the file opens.
  pub ask_for_log :
      (key : Key) (file : List ℕ) (fd : ℕ) (sent : List (List ℕ))
      → IsTalking id sent client
      → turn.read ≡ got (client_frame 1 key (add_action ++ 32 ∷ file))
      → length file ≤ 121
      → All (λ b. b ≢ 0) file
      → Lacks dots (add_action ++ 32 ∷ file)
      → turn.answers.result ≡ opened fd
      → Served c id turn s client read_succeed
          (behind s.logs (record {
            logs = s.logs.logs ++ new_log file fd id turn.answers.now ∷ [];
            killed = [];
          }))
          sent
  unfolding react
  ask_for_log key file fd sent t is_read short no_null no_dots is_open =
      let payload : List ℕ = add_action ++ 32 ∷ file in
      let frame : List ℕ = client_frame 1 key payload in
      let room : client.frame_buf_pos + length frame ≤ buf_len = omega (
        arith,
        length-pending t.valid,
        ap length t.nothing_left,
        length-client_frame 1 key payload (omega arith),
      ) in
      let (r, is_r, d) =
        receive-Delivered c turn.writes message_len key payload [] client t.valid t.done
          (omega arith) (omega arith) (omega arith) turn.read frame
          (subst (λ read. Supplies read frame) (sym is_read) refl) room
          (ap (λ p. p ++ frame) t.nothing_left ∙ sym (append-nil frame)) in
      let k =
        Ensures-returns (KeepsReceived client) (receive c turn.read turn.writes message_len client)
          r
          (receive-Keeps c turn.read turn.writes message_len client t.valid
            (room-Fits frame is_read room))
          is_r in
      let quiet =
        Ensures-returns (λ (r : Received). r.client.sent ≡ client.sent)
          (receive c turn.read turn.writes message_len client) r
          (receive-IsSilent c turn.read turn.writes message_len client t.done) is_r in
      let after : Cleaned = record {
        logs = s.logs.logs ++ new_log file fd id turn.answers.now ∷ [];
        killed = [];
      } in
      let text : c_string payload ≡ payload =
        c_string-All payload (omega arith, (omega arith, (omega arith, (omega arith, no_null)))) in
      let handled : on_message turn.answers id (c_string payload) s.logs.logs ≡ returns after =
        ap (λ m. on_message turn.answers id m s.logs.logs) text
        ∙ (on_message-add turn.answers id add_action file s.logs.logs add_IsWord no_dots refl).0 fd
            is_open in
      let said : hand_over log_handler turn r s.logs ≡ returns (behind s.logs after) =
        hand_over_lem id (record { turn = turn; key = key; payload = payload }) r s.logs d.message
          (k.id ∙ t.own_id)
        ∙ ap (λ m. m >>= λ c'. returns (behind s.logs c')) handled in
      let code : r.code ≡ read_succeed = d.code ∙ available_none r.client d.valid d.rest_stays in
      let e : react log_handler turn remains r.code r s.logs
          ≡ returns (record { client = r.client; state = behind s.logs after; stays = true }) =
        ap (λ code. react log_handler turn remains code r s.logs) code
        ∙ ap (λ h. h >>= remains r.client) said in
      record {
        received = r;
        is_received = is_r;
        returned = code;
        fits = room-Fits frame is_read room;
        is_talked = talk_stays r (behind s.logs after) is_r e;
        talking = record {
          own_id = k.id ∙ t.own_id;
          valid = d.valid;
          done = k.shaken t.done;
          nothing_left = d.rest_stays;
          said = quiet ∙ t.said;
        };
      }
