-- ===== src/Client/Receive.antt =====
-- client.cpp: Client::Handshake and Client::Receive.
use extension_project.Prelude.{
  ◌≡◌, if_true, ℕ, true, List, [], Option, none, some, leb, ◌==◌, if◌then◌else◌, set, is_negative,
}
use extension_project.WebSocket.Types.{
  FrameType, error_frame, incomplete_frame, text_frame, closing_frame, opening_frame, Run, returns,
  ◌>>=◌, ◌>>◌, assert, found,
}
use extension_project.WebSocket.Frame.{parse_input_frame, slice, Parsed, Extent}
use extension_project.WebSocket.Handshake.{null_handshake, parse_handshake, Opening}
use extension_project.WebSocket.Answer.{Crypto, get_handshake_answer}
use extension_project.Client.{
  Client, Code, waiting_for_more_data, handshake_succeed, network_error, handshake_failed,
  invalid_frame, client_disconnected, buffer_too_small, is_error, buf_len, ReadResult, got,
  want_read, at_end, failed, Round, send_frame, consume, append_input, bad_request, prepared,
  available,
}

-- The refusal that Handshake sends; its result is not looked at.
unfoldable pub refuse : List Round → Client → Run (Code × Client)
refuse rounds client = do
  let client' = record client { send_buf = prepared client.send_buf bad_request }
  (r, client'') ← send_frame rounds bad_request client'
  returns (invalid_frame, client'')

-- The answer to an opening frame of `frame_size` bytes.
unfoldable pub welcome : Crypto → List Round → Opening → ℕ → Client → Run (Code × Client)
welcome c rounds opening frame_size client = do
  let send_buf = prepared client.send_buf []
  (send_size, send_buf') ← get_handshake_answer c opening.hs send_buf buf_len
  let client' = record client { send_buf = send_buf' }
  assert (leb frame_size client'.frame_buf_pos)
  client'' ← consume frame_size client'
  (r, client''') ← send_frame rounds (slice 0 send_size send_buf') client''
  returns (
      if is_negative r
      then (network_error, client''')
      else (available client''', record client''' { handshaked = true }))

-- On the type that wsParseHandshake returns.
unfoldable pub handshake_reply :
    Crypto → List Round → Opening → FrameType → Client → Run (Code × Client)
unfolding refuse welcome
handshake_reply c rounds opening error_frame client = refuse rounds client
handshake_reply c rounds opening incomplete_frame client =
    if leb buf_len client.frame_buf_pos
    then refuse rounds client
    else returns (waiting_for_more_data, client)
handshake_reply c rounds opening opening_frame client = do
  frame_size ← found opening.frame_length
  welcome c rounds opening frame_size client
handshake_reply c rounds opening _ client = returns (invalid_frame, client)

-- Client::Handshake: the input gets a 0 behind it, and is parsed as a text.
unfoldable pub handshake : Crypto → ReadResult → List Round → Client → Run (Code × Client)
unfolding null_handshake
handshake c want_read rounds client = returns (waiting_for_more_data, client)
handshake c failed rounds client = returns (network_error, client)
handshake c at_end rounds client = returns (client_disconnected, client)
handshake c (got bytes) rounds client = do
  let read = append_input bytes client
  let client' = record read { frame_buf = set read.frame_buf read.frame_buf_pos 0 }
  opening ← parse_handshake client'.frame_buf null_handshake
  handshake_reply c rounds opening opening.frame_type client'

-- What Receive leaves: its code, the client, and the message, if one is put into `buf`.
pub record Received : Type 0 where
  pub code : Code
  pub client : Client
  pub message : Option (List ℕ)

abbrev pub silent : Code → Client → Run Received
silent code client = returns (record { code = code; client = client; message = none })

-- A text frame: into `buf` of `len` bytes, with a 0 behind it, if it fits.
unfoldable pub take_message : ℕ → Extent → List ℕ → Client → Run Received
take_message len e frame client =
    if leb len e.data_length
    then (consume e.frame_length client >>= λ client'. silent buffer_too_small client')
    else (do
      start ← elim e.data_start [ none ↦ returns 0 | some s ↦ returns s ]
      let message = slice start e.data_length frame
      assert (leb e.frame_length client.frame_buf_pos)
      client' ← consume e.frame_length client
      returns (record { code = available client'; client = client'; message = some message }))

-- On the type that wsParseInputFrame returns.
unfoldable pub frame_reply : ℕ → Parsed → FrameType → Client → Run Received
frame_reply len parsed error_frame client = silent invalid_frame client
frame_reply len parsed incomplete_frame client =
    silent (if leb buf_len client.frame_buf_pos then invalid_frame else waiting_for_more_data)
      client
frame_reply len parsed text_frame client = do
  e ← found parsed.extent
  take_message len e parsed.frame client
frame_reply len parsed closing_frame client = silent client_disconnected client
frame_reply len parsed _ client = silent invalid_frame client

-- The part behind SSL_read.
unfoldable pub receive_frame : ℕ → Client → Run Received
receive_frame len client = do
  parsed ← parse_input_frame client.frame_buf client.frame_buf_pos
  frame_reply len parsed parsed.frame_type (record client { frame_buf = parsed.frame })

-- SSL_read on an open connection.
unfoldable pub receive_open : ReadResult → ℕ → Client → Run Received
receive_open want_read len client =
    if client.frame_buf_pos == 0
    then silent waiting_for_more_data client
    else receive_frame len client
receive_open failed len client = silent network_error client
receive_open at_end len client = silent client_disconnected client
receive_open (got bytes) len client = receive_frame len (append_input bytes client)

-- Receive while the handshake is not done.
unfoldable pub receive_handshake : Crypto → ReadResult → List Round → Client → Run Received
receive_handshake c read rounds client = do
  (code, client') ← handshake c read rounds client
  silent
      (if is_error code
        then handshake_failed
        else if client'.handshaked
        then handshake_succeed
        else waiting_for_more_data)
      client'

-- Client::Receive
unfoldable pub receive : Crypto → ReadResult → List Round → ℕ → Client → Run Received
receive c read rounds len client =
    if client.handshaked
    then receive_open read len client
    else receive_handshake c read rounds client

-- The two states that Receive tells apart.
pub receive_done :
    (c : Crypto) (read : ReadResult) (rounds : List Round) (len : ℕ) (client : Client)
    → client.handshaked ≡ true
    → receive c read rounds len client ≡ receive_open read len client
unfolding receive
receive_done c read rounds len client done = if_true _ _ done
