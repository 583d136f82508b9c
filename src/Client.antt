-- ===== src/Client.antt =====
-- client.h and client.cpp: a connection with its input buffer. What OpenSSL and `select` answer to
-- a call are arguments; a Client's `sent` is the list of what SSL_write has taken.
pub mod Connect
pub mod Receive
pub mod Buffer
pub mod Delivery
pub mod Safety
pub mod Overrun
pub mod Sending
pub mod Keeps
pub mod Silent
pub mod Welcome
use extension_project.Prelude.{
  ℕ, ◌+◌, ◌-◌, Bool, true, false, not, ◌&&◌, ◌||◌, List, [], ◌∷◌, ◌++◌, Option, none, some, ltb,
  leb, if◌then◌else◌, length, replicate, set, write_at, overwrite, ℤ, pos, negsuc, is_negative,
  codes,
}
use extension_project.WebSocket.Types.{
  FrameType, error_frame, incomplete_frame, text_frame, closing_frame, opening_frame, Run, returns,
  aborts, corrupts, hangs, ◌>>=◌, ◌>>◌, assert, write_into, found,
}
use extension_project.WebSocket.Frame.{make_frame, parse_input_frame, slice, Parsed, Extent}
use extension_project.WebSocket.Names
use extension_project.WebSocket.Names.{version_word, crlf}
use extension_project.WebSocket.Handshake.{
  Handshake, null_handshake, free_handshake, parse_handshake, Opening,
}
use extension_project.WebSocket.Answer.{Crypto, get_handshake_answer}

abbrev pub buf_len : ℕ
buf_len = 8192

abbrev pub send_buf_len : ℕ
send_buf_len = 16000

-- The codes that Receive and Handshake return.
pub data Code : Type 0 where
  read_succeed read_succeed_data_available waiting_for_more_data handshake_succeed : Code
  network_error handshake_failed invalid_frame client_disconnected buffer_too_small : Code

unfoldable pub code_value : Code → ℤ
code_value read_succeed = pos 0
code_value read_succeed_data_available = pos 1
code_value waiting_for_more_data = pos 2
code_value handshake_succeed = pos 3
code_value network_error = negsuc 0
code_value handshake_failed = negsuc 5
code_value invalid_frame = negsuc 4
code_value client_disconnected = negsuc 3
code_value buffer_too_small = negsuc 2

-- `ret < 0`
unfoldable pub is_error : Code → Bool
unfolding code_value
is_error c = is_negative (code_value c)

-- `class Client`: an `id` or a `socket` of -1 is `none`.
pub record Client : Type 0 where
  pub id : Option ℕ
  pub socket : Option ℕ
  pub frame_buf : List ℕ
  pub send_buf : List ℕ
  pub frame_buf_pos : ℕ
  pub handshaked : Bool
  pub sent : List (List ℕ)

-- Client::Client. The arrays are not initialised; any contents of their sizes will do.
unfoldable pub new_client : List ℕ → List ℕ → Client
new_client frame_buf send_buf = record {
  id = none;
  socket = none;
  frame_buf = frame_buf;
  send_buf = send_buf;
  frame_buf_pos = 0;
  handshaked = false;
  sent = [];
}

unfoldable pub set_id : ℕ → Client → Client
set_id new_id client = record client { id = some new_id }

-- CloseSocket: the connection is shut down, and the socket closed if there is one.
unfoldable pub close_socket : Client → Client
close_socket client = record client { socket = none }

-- What SSL_read answers, with SSL_get_error: bytes, a wish to wait, the end, or another error.
pub data ReadResult : Type 0 where
  got : List ℕ → ReadResult
  want_read at_end failed : ReadResult

-- What SSL_write answers, with SSL_get_error.
pub data WriteResult : Type 0 where
  wrote wants_read wants_write write_failed : WriteResult

-- A round of the loop in SendFrame: what `select` found, and what SSL_write would answer.
pub record Round : Type 0 where
  pub writable : Bool
  pub readable : Bool
  pub write : WriteResult

-- The error that the loop waits on.
pub data Wish : Type 0 where
  to_read to_write : Wish

-- `continue`: the socket is not ready for what SSL asked for.
abbrev pub not_ready : Wish → Round → Bool
not_ready to_write r = not r.writable
not_ready to_read r = not r.readable

-- SendFrame's loop over the rounds to come: whether SSL_write took the bytes.
unfoldable pub write_rounds : Wish → List Round → Run Bool
write_rounds wish [] = hangs
write_rounds wish (r ∷ rs) =
    let again = write_rounds wish rs in
    if not_ready wish r then again else elim r.write [
      | wrote ↦ returns true
      | write_failed ↦ returns false
      | wants_read ↦ write_rounds to_read rs
      | wants_write ↦ write_rounds to_write rs
    ]

-- SendFrame
unfoldable pub send_frame : List Round → List ℕ → Client → Run (ℤ × Client)
send_frame rounds bytes client = do
  taken ← write_rounds to_write rounds
  returns (
      if taken
      then (pos 0, record client { sent = client.sent ++ bytes ∷ [] })
      else (negsuc 0, client))

-- Client::Send
unfoldable pub send : List Round → List ℕ → Client → Run (ℤ × Client)
send rounds message client = do
  (frame_len, send_buf) ← make_frame message client.send_buf send_buf_len text_frame
  let client' = record client { send_buf = send_buf }
  elim frame_len [
    | negsuc n ↦ returns (negsuc 9, client')
    | pos n ↦ send_frame rounds (slice 0 n send_buf) client'
  ]

-- Client::Disconnect
unfoldable pub disconnect : List Round → Client → Run Client
disconnect rounds client = do
  (frame_size, send_buf) ← make_frame [] client.send_buf send_buf_len closing_frame
  let client' = record client { send_buf = send_buf }
  let farewell : Run Client = elim frame_size [
    | negsuc n ↦ returns client'
    | pos n ↦
        (if ltb 0 n
          then (send_frame rounds (slice 0 n send_buf) client' >>= λ (r, client'').
              returns client'')
          else returns client')
  ]
  client'' ← farewell
  returns (close_socket client'')

-- `frame_buf_pos -= frame_size; memcpy(frame_buf, frame_buf + frame_size, frame_buf_pos)`; a
-- difference below zero makes the copy run off.
unfoldable pub consume : ℕ → Client → Run Client
consume frame_size client = do
  write_into client.frame_buf_pos frame_size
  let left = client.frame_buf_pos - frame_size
  returns (record client {
    frame_buf = overwrite client.frame_buf (slice frame_size left client.frame_buf);
    frame_buf_pos = left;
  })

-- Bytes from SSL_read behind those that are there.
unfoldable pub append_input : List ℕ → Client → Client
append_input bytes client = record client {
  frame_buf = write_at client.frame_buf client.frame_buf_pos bytes;
  frame_buf_pos = client.frame_buf_pos + length bytes;
}

abbrev pub bad_request : List ℕ
bad_request =
    codes "HTTP/1.1 400 Bad Request"
    ++ (crlf ++ (Names.version ++ (version_word ++ (crlf ++ crlf))))

-- `memset(send_buf, 0, BUF_LEN)`, then a text and its 0.
abbrev pub prepared : List ℕ → List ℕ → List ℕ
prepared send_buf text = write_at (write_at send_buf 0 (replicate buf_len 0)) 0 (text ++ 0 ∷ [])

abbrev pub available : Client → Code
available client = if ltb 0 client.frame_buf_pos then read_succeed_data_available else read_succeed
