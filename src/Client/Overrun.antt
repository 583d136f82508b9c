-- ===== src/Client/Overrun.antt =====
-- Client::Receive on an open connection: when the mask is taken off past the end of the buffer.
use extension_project.Prelude.{
  ℕ, ◌+◌, ◌^◌, ◌≤◌, ◌<◌, ◌≡◌, refl, ap, ◌∙◌, List, some, arith, length, le→ltb_false, true,
  length-write_at, le_value,
}
use extension_project.WebSocket.Types.{corrupts, ◌>>=◌, FrameType}
use extension_project.WebSocket.Frame.{
  slice, byte, parse_input_frame, parse_opcode, parse_payload, known_opcode, get_payload_length,
  field,
}
use extension_project.WebSocket.Frame.Head.{parse_input_frame_head}
use extension_project.WebSocket.Answer.{Crypto}
use extension_project.Client.{Client, append_input, got, Round}
use extension_project.Client.Receive.{
  receive_done, receive, receive_frame, receive_open, frame_reply,
}
use extension_project.Client.Buffer.{IsValid}

-- The length that stands in two bytes, as the host reads it.
abbrev pub two_bytes : List ℕ → ℕ
two_bytes input = le_value (slice 2 2 input)

get_payload_length_126 :
    (input : List ℕ) (n : ℕ) (ty : FrameType)
    → byte input 1 ≡ 128 + 126
    → 4 ≤ n
    → get_payload_length input n ty ≡ field (two_bytes input) 2 ty
unfolding get_payload_length
get_payload_length_126 input n ty e four = rw (e, le→ltb_false n 4 four) refl

parse_payload_past :
    (input : List ℕ) (n l : ℕ) (ty : FrameType)
    → 4 ≤ n
    → n < 8
    → l < 2 ^ 63
    → length input < 8 + l
    → 0 < l
    → parse_payload input n (field l 2 ty) ≡ corrupts
unfolding parse_payload
parse_payload_past input n l ty four few bound past some_data = ground arith

parse_input_frame_past :
    (input : List ℕ) (n op : ℕ) (ty : FrameType)
    → op < 16
    → known_opcode op ≡ some ty
    → byte input 0 ≡ 128 + op
    → byte input 1 ≡ 128 + 126
    → 4 ≤ n
    → n < 8
    → two_bytes input < 2 ^ 16
    → length input < 8 + two_bytes input
    → 8 ≤ length input
    → parse_input_frame input n ≡ corrupts
unfolding parse_opcode
parse_input_frame_past input n op ty small known e0 e1 four few bound past room =
    parse_input_frame_head input n op 126 small (omega arith) e0 e1 (omega arith)
    ∙ ap (λ o. parse_opcode input n o) known
    ∙ ap (λ p. parse_payload input n p) (get_payload_length_126 input n ty e1 four)
    ∙ parse_payload_past input n (two_bytes input) ty four few (omega arith) past (omega arith)

-- On a valid client, Receive writes past the end of the client's buffer where SSL_read brings the
-- input to between 4 and 7 bytes that begin a masked frame with a length in two bytes, if that length,
-- read in the host's order, with the eight bytes in front of the data is above the buffer's 8193 bytes.
pub receive_corrupts :
    (c : Crypto) (bytes : List ℕ) (rounds : List Round) (len op : ℕ) (ty : FrameType)
    (client : Client)
    → IsValid client
    → client.handshaked ≡ true
    → 4 ≤ client.frame_buf_pos + length bytes
    → client.frame_buf_pos + length bytes < 8
    → op < 16
    → known_opcode op ≡ some ty
    → byte (append_input bytes client).frame_buf 0 ≡ 128 + op
    → byte (append_input bytes client).frame_buf 1 ≡ 128 + 126
    → two_bytes (append_input bytes client).frame_buf < 2 ^ 16
    → 8193 < 8 + two_bytes (append_input bytes client).frame_buf
    → receive c (got bytes) rounds len client ≡ corrupts
unfolding receive_open append_input receive_frame
receive_corrupts c bytes rounds len op ty client v done four few small known e0 e1 bound past =
    let size = length-write_at client.frame_buf client.frame_buf_pos bytes in
    receive_done c (got bytes) rounds len client done
    ∙ ap
        (λ m. m >>= λ p.
          frame_reply len p p.frame_type
            (record (append_input bytes client) { frame_buf = p.frame }))
        (parse_input_frame_past (append_input bytes client).frame_buf
          (client.frame_buf_pos + length bytes) op ty small known e0 e1 four few bound
          (omega (arith, size, v.frame_size)) (omega (arith, size, v.frame_size)))
