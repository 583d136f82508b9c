-- ===== src/LogServer/Stream.antt =====
-- client.cpp, web_socket_server.cpp and log-server.cpp together: several messages that come in at once.
use extension_project.Prelude.{
  ℕ, ◌+◌, ◌<◌, ◌≤◌, ◌≡◌, refl, ◌∙◌, sym, ap, subst, true, false, some, List, [], ◌∷◌, ◌++◌, arith,
  ltb, All, length, length-append, c_string, append-nil, lt→ltb, le→ltb_false,
}
use mathlib.Core.Path.{fun_ext}
use extension_project.WebSocket.Types.{Run, returns, aborts, corrupts, hangs, ◌>>=◌}
use extension_project.WebSocket.Ensures.{Ensures-returns}
use extension_project.WebSocket.Rfc.{Key, client_frame}
use extension_project.WebSocket.Frame.RoundTrip.{length-client_frame}
use extension_project.WebSocket.Answer.{Crypto}
use extension_project.Client.{
  Client, buf_len, ReadResult, got, want_read, at_end, failed, available, Code, read_succeed,
  read_succeed_data_available,
}
use extension_project.Client.Buffer.{IsValid, pending, length-pending}
use extension_project.Client.Delivery.{Supplies, receive-Delivered}
use extension_project.Client.Receive.{Received, receive}
use extension_project.Client.Keeps.Input.{Fits, KeepsReceived, receive-Keeps}
use extension_project.Server.Messages.{Turn, remains, react, hand_over, serve, message_len}
use extension_project.LogServer.Requests.{Answers, Cleaned, on_message}
use extension_project.LogServer.Threads.{log_handler, behind}

-- A message that a client has sent, with the mask of its frame and the round in which it is taken.
pub record Incoming : Type 0 where
  pub turn : Turn Answers
  pub key : Key
  pub payload : List ℕ

abbrev pub bytes_of : List Incoming → List ℕ
bytes_of [] = []
bytes_of (m ∷ ms) = client_frame 1 m.key m.payload ++ bytes_of ms

abbrev pub turns_of : List Incoming → List (Turn Answers) → List (Turn Answers)
turns_of [] more = more
turns_of (m ∷ ms) more = m.turn ∷ turns_of ms more

abbrev pub IsShort : Incoming → Type 0
IsShort m = (0 < length m.payload) × (length m.payload ≤ 125)

-- SSL_read has nothing new.
abbrev pub IsQuiet : Incoming → Type 0
IsQuiet m = m.turn.read ≡ want_read

-- OnMessage on each message in turn.
abbrev pub handle_all : ℕ → List Incoming → Cleaned → Run Cleaned
handle_all id [] s = returns s
handle_all id (m ∷ ms) s =
    on_message m.turn.answers id (c_string m.payload) s.logs >>= λ c. handle_all id ms (behind s c)

bind_assoc :
    {A B C : Type 0} (m : Run A) (f : A → Run B) (g : B → Run C)
    → (m >>= f >>= g) ≡ (m >>= λ a. f a >>= g)
bind_assoc (returns a) f g = refl
bind_assoc aborts f g = refl
bind_assoc corrupts f g = refl
bind_assoc hangs f g = refl

length-bytes_of : (m : Incoming) (ms : List Incoming) → IsShort m → 0 < length (bytes_of (m ∷ ms))
length-bytes_of m ms h = omega (
  arith,
  length-append (client_frame 1 m.key m.payload) (bytes_of ms),
  length-client_frame 1 m.key m.payload h.1,
)

-- The code tells whether there is more.
pub available_none :
    (client : Client) → IsValid client → pending client ≡ [] → available client ≡ read_succeed
available_none client v e =
    let empty : ltb 0 client.frame_buf_pos ≡ false =
      le→ltb_false 0 client.frame_buf_pos (omega (arith, length-pending v, ap length e)) in
    rw empty

available_some :
    (client : Client)
    → IsValid client
    → 0 < length (pending client)
    → available client ≡ read_succeed_data_available
available_some client v h =
    let more : ltb 0 client.frame_buf_pos ≡ true =
      lt→ltb 0 client.frame_buf_pos (omega (arith, length-pending v)) in
    rw more

Supplies-Fits :
    (read : ReadResult) (added : List ℕ) (client : Client)
    → Supplies read added
    → client.frame_buf_pos + length added ≤ buf_len
    → Fits read client
Supplies-Fits (got bytes) added client same h = omega (arith, ap length same)
Supplies-Fits want_read added client same h = tt
Supplies-Fits at_end added client same h = tt
Supplies-Fits failed added client same h = tt

pub hand_over_lem :
    (id : ℕ) (m : Incoming) (r : Received) (s : Cleaned)
    → r.message ≡ some m.payload
    → r.client.id ≡ some id
    → hand_over log_handler m.turn r s
      ≡ (on_message m.turn.answers id (c_string m.payload) s.logs >>= λ c. returns (behind s c))
unfolding hand_over
hand_over_lem id m r s message own = rw (message, own)

-- What is left of the client.
pub record IsDone (id : ℕ) (client : Client) : Type 0 where
  pub own_id : client.id ≡ some id
  pub nothing_left : pending client ≡ []
  pub valid : IsValid client

serve_code :
    (c : Crypto) (turn : Turn Answers) (turns : List (Turn Answers)) (client : Client)
    (r : Received) (code : Code) (s : Cleaned)
    → receive c turn.read turn.writes message_len client ≡ returns r
    → r.code ≡ code
    → serve log_handler c (turn ∷ turns) client s
      ≡ react log_handler turn (serve log_handler c turns) code r s
unfolding serve
serve_code c turn turns client r code s is_r is_code = rw is_r (rw is_code)

module _ (c : Crypto) (id : ℕ) (m : Incoming) (turns : List (Turn Answers)) (client : Client)
    (r : Received) (is_r : receive c m.turn.read m.turn.writes message_len client ≡ returns r)
    (message : r.message ≡ some m.payload) (own : r.client.id ≡ some id) where
  serve_last :
      r.code ≡ read_succeed
      → (s : Cleaned)
      → serve log_handler c (m.turn ∷ turns) client s
        ≡ (handle_all id (m ∷ []) s >>= remains r.client)
  unfolding react
  serve_last is_code s =
      serve_code c m.turn turns client r read_succeed s is_r is_code
      ∙ ap (λ h. h >>= remains r.client) (hand_over_lem id m r s message own)

  serve_further :
      (ms : List Incoming) (client' : Client)
      → r.code ≡ read_succeed_data_available
      → ((s : Cleaned)
          → serve log_handler c turns r.client s ≡ (handle_all id ms s >>= remains client'))
      → (s : Cleaned)
      → serve log_handler c (m.turn ∷ turns) client s
        ≡ (handle_all id (m ∷ ms) s >>= remains client')
  unfolding react
  serve_further ms client' is_code rest s =
      let said : Run Cleaned = on_message m.turn.answers id (c_string m.payload) s.logs in
      serve_code c m.turn turns client r read_succeed_data_available s is_r is_code
      ∙ ap (λ h. h >>= serve log_handler c turns r.client) (hand_over_lem id m r s message own)
      ∙ bind_assoc said (λ c'. returns (behind s c')) (serve log_handler c turns r.client)
      ∙ ap (λ f. said >>= f) (fun_ext (λ c'. rest (behind s c')))
      ∙ sym (bind_assoc said (λ c'. handle_all id ms (behind s c')) (remains client'))

-- What Receive leaves of the first message.
record Taken (id : ℕ) (m : Incoming) (rest : List ℕ) (r : Received) : Type 0 where
  message : r.message ≡ some m.payload
  code : r.code ≡ available r.client
  rest_stays : pending r.client ≡ rest
  own_id : r.client.id ≡ some id
  done : r.client.handshaked ≡ true
  valid : IsValid r.client

module _ (c : Crypto) (id : ℕ) where
  take_first :
      (m : Incoming) (rest : List ℕ) (client : Client) (added : List ℕ)
      → IsValid client
      → client.handshaked ≡ true
      → client.id ≡ some id
      → Supplies m.turn.read added
      → client.frame_buf_pos + length added ≤ buf_len
      → pending client ++ added ≡ client_frame 1 m.key m.payload ++ rest
      → IsShort m
      → (r : Received) × (receive c m.turn.read m.turn.writes message_len client ≡ returns r)
        × Taken id m rest r
  take_first m rest client added v done own supplies room e short =
      let (r, is_r, d) =
        receive-Delivered c m.turn.writes message_len m.key m.payload rest client v done short.0
          short.1 (omega arith) m.turn.read added supplies room e in
      let k =
        Ensures-returns (KeepsReceived client)
          (receive c m.turn.read m.turn.writes message_len client) r
          (receive-Keeps c m.turn.read m.turn.writes message_len client v
            (Supplies-Fits m.turn.read added client supplies room))
          is_r in
      (
        r,
        is_r,
        record {
          message = d.message;
          code = d.code;
          rest_stays = d.rest_stays;
          own_id = k.id ∙ own;
          done = k.shaken done;
          valid = d.valid;
        },
      )

module _ (c : Crypto) (id : ℕ) (more : List (Turn Answers)) where
  -- A client that has shaken hands sends text messages of 1 to 125 bytes, which come in with what
  -- SSL_read gives in the first round, all of them at once, and are all that there is. ListenMessages
  -- then goes one round for each message, and calls OnMessage on each, in the order in which they
  -- were sent, each time on the logs that the call before has left; the client stays in the map, with
  -- nothing left of the input.
  pub serve-handle_all :
      (m : Incoming) (ms : List Incoming) (client : Client) (added : List ℕ)
      → IsValid client
      → client.handshaked ≡ true
      → client.id ≡ some id
      → Supplies m.turn.read added
      → client.frame_buf_pos + length added ≤ buf_len
      → pending client ++ added ≡ bytes_of (m ∷ ms)
      → All IsShort (m ∷ ms)
      → All IsQuiet ms
      → (client' : Client) × ((s : Cleaned)
          → serve log_handler c (turns_of (m ∷ ms) more) client s
            ≡ (handle_all id (m ∷ ms) s >>= remains client'))
        × IsDone id client'
  serve-handle_all m [] client added v done own supplies room e short quiet =
      let (r, is_r, t) = take_first c id m [] client added v done own supplies room e short.0 in
      (
        r.client,
        serve_last c id m more client r is_r t.message t.own_id
            (t.code ∙ available_none r.client t.valid t.rest_stays),
        record { own_id = t.own_id; nothing_left = t.rest_stays; valid = t.valid },
      )
  serve-handle_all m (m' ∷ ms) client added v done own supplies room e short quiet =
      let (r, is_r, t) =
        take_first c id m (bytes_of (m' ∷ ms)) client added v done own supplies room e short.0 in
      let (client', served, is_done) =
        serve-handle_all m' ms r.client [] t.valid t.done t.own_id
          (subst (λ read. Supplies read []) (sym quiet.0) refl) (omega (arith, t.valid.within))
          (append-nil (pending r.client) ∙ t.rest_stays) short.1 quiet.1 in
      let there : 0 < length (pending r.client) =
        omega (arith, length-bytes_of m' ms short.1.0, ap length t.rest_stays) in
      (
        client',
        serve_further c id m (turns_of (m' ∷ ms) more) client r is_r t.message t.own_id (m' ∷ ms)
            client' (t.code ∙ available_some r.client t.valid there) served,
        is_done,
      )
