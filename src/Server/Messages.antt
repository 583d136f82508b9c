-- ===== src/Server/Messages.antt =====
-- web_socket_server.cpp: ListenMessages, which waits for input and serves one client after another,
-- and what a class of server does with a message or a disconnect. A pass over the clients holds the
-- lock of the map throughout.
use extension_project.Prelude.{ℕ, ◌+◌, Bool, true, false, List, [], ◌∷◌, ltb, if◌then◌else◌}
use extension_project.WebSocket.Types.{Run, returns, corrupts, hangs, ◌>>=◌, found}
use extension_project.WebSocket.Answer.{Crypto}
use extension_project.Client.{
  Client, Code, read_succeed, read_succeed_data_available, waiting_for_more_data, handshake_succeed,
  ReadResult, Round, disconnect,
}
use extension_project.Client.Receive.{Received, receive}
use extension_project.Server.{Clients}

-- BUF_LEN of this file, the room for a message.
abbrev pub message_len : ℕ
message_len = 2048

-- FD_SETSIZE: a larger descriptor lies outside of an `fd_set`.
abbrev pub set_size : ℕ
set_size = 1024

-- The loop of FD_SET over the clients: one more than the largest descriptor, from `nfds` on.
unfoldable pub fill_set : ℕ → Clients → Run ℕ
fill_set nfds [] = returns nfds
fill_set nfds ((id, client) ∷ clients) = do
  fd ← found client.socket
  let filled = fill_set (if ltb fd nfds then nfds else fd + 1) clients
  if ltb fd set_size then filled else corrupts

-- OnMessage and OnDisconnect, which a class of server defines on its state `S`; what the system
-- answers to its calls is of type `E`. They leave the client as it is.
pub record Handler (E S : Type 0) : Type 0 where
  pub on_message : E → Client → List ℕ → S → Run S
  pub on_disconnect : E → Client → S → Run S

-- What the calls in a round of the loop over one client answer.
pub record Turn (E : Type 0) : Type 0 where
  pub read : ReadResult
  pub writes : List Round
  pub farewell : List Round
  pub answers : E

-- What a visit to a client leaves: whether it stays in the map, which is when `ret >= 0`.
pub record Visited (S : Type 0) : Type 0 where
  pub client : Client
  pub state : S
  pub stays : Bool

abbrev pub remains : {S : Type 0} → Client → S → Run (Visited S)
remains client s = returns (record { client = client; state = s; stays = true })

module _ {E S : Type 0} (handler : Handler E S) where
  -- A `ret` below 0: Disconnect, then OnDisconnect.
  unfoldable pub drop_client : Turn E → Client → S → Run (Visited S)
  drop_client turn client s = do
    client' ← disconnect turn.farewell client
    s' ← handler.on_disconnect turn.answers client' s
    returns (record { client = client'; state = s'; stays = false })

  -- OnMessage on what is in `data_buf`, which no one has filled if there is no message.
  unfoldable pub hand_over : Turn E → Received → S → Run S
  hand_over turn r s =
      found r.message >>= λ message. handler.on_message turn.answers r.client message s

  -- The body of the do-while loop on the code that Receive returned; `again` is a further round.
  unfoldable pub react :
      Turn E → (Client → S → Run (Visited S)) → Code → Received → S → Run (Visited S)
  unfolding hand_over drop_client
  react turn again read_succeed r s = do s' ← hand_over turn r s; remains r.client s'
  react turn again read_succeed_data_available r s = do s' ← hand_over turn r s; again r.client s'
  react turn again handshake_succeed r s = again r.client s
  react turn again waiting_for_more_data r s = remains r.client s
  react turn again _ r s = drop_client turn r.client s

  -- The do-while loop over one client, with the turns to come.
  unfoldable pub serve : Crypto → List (Turn E) → Client → S → Run (Visited S)
  unfolding react
  serve c [] client s = hangs
  serve c (turn ∷ turns) client s = do
    r ← receive c turn.read turn.writes message_len client
    react turn (serve c turns) r.code r s

  -- The body of the loop over the clients: a client is served if `select` has reported its socket.
  unfoldable pub visit : Crypto → (ℕ → Bool) → List (Turn E) → Client → S → Run (Visited S)
  unfolding serve
  visit c reported turns client s = do
    fd ← found client.socket
    if reported fd then serve c turns client s else remains client s

  -- The loop over the clients behind `select`: the clients that are left, and the server's state.
  unfoldable pub pass : Crypto → (ℕ → Bool) → (ℕ → List (Turn E)) → Clients → S → Run (Clients × S)
  unfolding visit
  pass c reported turns [] s = returns ([], s)
  pass c reported turns ((id, client) ∷ clients) s = do
    v ← visit c reported (turns id) client s
    (clients', s') ← pass c reported turns clients v.state
    returns (if v.stays then (id, v.client) ∷ clients' else clients', s')
