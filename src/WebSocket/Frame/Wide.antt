-- ===== src/WebSocket/Frame/Wide.antt =====
-- wsParseInputFrame on frames whose length RFC 6455 puts into two bytes.
use extension_project.Prelude.{
  ℕ, ◌+◌, ◌*◌, ◌/◌, ◌%◌, ◌≤◌, ◌<◌, ◌≡◌, ◌↔◌, refl, ap, sym, ◌∙◌, List, ◌∷◌, ◌++◌, false, Option,
  none, some, leb, le→ltb_false, le→leb, length, arith, le_value,
}
use extension_project.WebSocket.Types.{FrameType, Run, returns}
use extension_project.WebSocket.Rfc.{
  Key, key_bytes, key_at, mask, client_frame, length_bytes, be_bytes,
}
use extension_project.WebSocket.Frame.{
  parse_input_frame, parse_opcode, parse_payload, known_opcode, byte, slice, Parsed, Extent,
  get_payload_length, PayloadField, field,
}
use extension_project.WebSocket.Frame.Head.{parse_input_frame_head}

-- The number with the two bytes of `l` in the other order.
abbrev pub swap16 : ℕ → ℕ
swap16 l = l % 256 * 256 + l / 256

get_payload_length_two :
    (input : List ℕ) (n l : ℕ) (ty : FrameType)
    → byte input 1 ≡ 128 + 126
    → slice 2 2 input ≡ be_bytes 2 l
    → l < 65536
    → 4 ≤ n
    → get_payload_length input n ty ≡ field (swap16 l) 2 ty
unfolding get_payload_length
get_payload_length_two input n l ty e at_two small four =
    let value : le_value (slice 2 2 input) ≡ swap16 l = ap le_value at_two ∙ omega arith in
    rw (e, le→ltb_false n 4 four) (ap (λ v. field v 2 ty) value)

abbrev extent_of : Run Parsed → Option Extent
extent_of (returns r) = r.extent
extent_of _ = none

data_length-parse_payload :
    (input : List ℕ) (n : ℕ) (p : PayloadField) (e : Extent)
    → extent_of (parse_payload input n p) ≡ some e
    → e.data_length ≡ p.payload_length
unfolding parse_payload
data_length-parse_payload input n p e h = ground arith

client_frame_two :
    (op : ℕ) (key : Key) (payload : List ℕ)
    → 125 < length payload
    → length payload ≤ 0xFFFF
    → client_frame op key payload
      ≡ (128 + op)
        ∷ (128 + 126)
        ∷ (be_bytes 2 (length payload) ++ (key_bytes key ++ mask (key_at key) 0 payload))
unfolding client_frame length_bytes
client_frame_two op key payload h k =
    let above : leb (length payload) 125 ≡ false = ground arith in rw (above, le→leb _ _ k)

-- A client's frame of 126 to 65535 bytes of payload is read in the host's order: if
-- wsParseInputFrame reports data at all, its length is that of the payload with the two bytes
-- swapped, so it is the payload's own length just where those bytes are equal.
pub parse-client_frame_swapped :
    (op : ℕ) (ty : FrameType) (key : Key) (payload rest : List ℕ) (n : ℕ) (r : Parsed) (e : Extent)
    → known_opcode op ≡ some ty
    → op < 16
    → 125 < length payload
    → length payload ≤ 0xFFFF
    → 4 ≤ n
    → parse_input_frame (client_frame op key payload ++ rest) n ≡ returns r
    → r.extent ≡ some e
    → (e.data_length ≡ swap16 (length payload))
      × ((e.data_length ≡ length payload) ↔ (length payload / 256 ≡ length payload % 256))
unfolding parse_opcode
parse-client_frame_swapped op ty key payload rest n r e known small long short four parsed has =
    let l : ℕ = length payload in
    let shape = client_frame_two op key payload long short in
    let input : List ℕ =
      (128 + op)
      ∷ (128 + 126)
      ∷ (be_bytes 2 l ++ ((key_bytes key ++ mask (key_at key) 0 payload) ++ rest)) in
    let computed : parse_input_frame (client_frame op key payload ++ rest) n
        ≡ parse_payload input n (field (swap16 l) 2 ty) =
      ap (λ f. parse_input_frame (f ++ rest) n) shape
      ∙ parse_input_frame_head input n op 126 small (omega arith) refl refl (omega arith)
      ∙ ap (λ o. parse_opcode input n o) known
      ∙ ap (λ p. parse_payload input n p)
          (get_payload_length_two input n l ty refl refl (omega arith) four) in
    let data_length =
      data_length-parse_payload input n (field (swap16 l) 2 ty) e
        (sym (ap extent_of (sym parsed ∙ computed)) ∙ has) in
    (data_length, ((λ same. omega arith), (λ same. omega arith)))
