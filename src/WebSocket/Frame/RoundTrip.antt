-- ===== src/WebSocket/Frame/RoundTrip.antt =====
-- wsParseInputFrame on the frames that a client sends by RFC 6455.
use extension_project.Prelude.{
  ℕ, zero, suc, ◌+◌, ◌^◌, ◌≤◌, ◌<◌, ◌≡◌, refl, ap, ap₂, sym, ◌∙◌, ◌⊎◌, inl, List, ◌∷◌, ◌++◌, some,
  bit_and, le→leb, length, length-append, get_or, bit_and_low_seven, arith,
}
use extension_project.WebSocket.Types.{FrameType, returns}
use extension_project.WebSocket.Rfc.{
  Key, key_bytes, key_at, mask, client_frame, length_bytes, length-mask, mask-mask,
}
use extension_project.WebSocket.Frame.{
  parse_input_frame, parse_opcode, parse_payload, known_opcode, byte, get_payload_length, field,
  unmask,
}
use extension_project.WebSocket.Frame.Head.{parse_input_frame_head}
use extension_project.WebSocket.Frame.Mask.{unmask_from}

-- A length of 1 to 125 stands in the second byte.
pub get_payload_length_short :
    (input : List ℕ) (n l : ℕ) (ty : FrameType)
    → byte input 1 ≡ 128 + l
    → 0 < l
    → l ≤ 125
    → get_payload_length input n ty ≡ field l 0 ty
unfolding get_payload_length
get_payload_length_short input n l ty e pos_l small =
    let low : bit_and (128 + l) 0x7F ≡ l =
      omega (arith, bit_and_low_seven (128 + l) (omega arith)) in
    rw (e, low) (ground arith)

parse_payload_short :
    (input : List ℕ) (n l : ℕ) (ty : FrameType)
    → 0 < l
    → l ≤ 125
    → (6 + l ≤ n) ⊎ (n < 6)
    → n < 2 ^ 64
    → 6 + l ≤ length input
    → parse_payload input n (field l 0 ty)
      ≡ returns (record {
        frame_type = ty;
        extent = some (record { data_start = some 6; data_length = l; frame_length = 6 + l });
        frame = unmask 2 6 input 0 l;
      })
unfolding parse_payload
parse_payload_short input n l ty some_data short fits bound inside = ground arith

-- The head of a masked frame of 1 to 125 bytes, with all of the frame in the input, or with so
-- little input that the subtraction wraps.
pub parse_input_frame_short :
    (input : List ℕ) (n op l : ℕ) (ty : FrameType)
    → op < 16
    → known_opcode op ≡ some ty
    → byte input 0 ≡ 128 + op
    → byte input 1 ≡ 128 + l
    → 0 < l
    → l ≤ 125
    → (6 + l ≤ n) ⊎ (n < 6)
    → 2 ≤ n
    → n < 2 ^ 64
    → 6 + l ≤ length input
    → parse_input_frame input n
      ≡ returns (record {
        frame_type = ty;
        extent = some (record { data_start = some 6; data_length = l; frame_length = 6 + l });
        frame = unmask 2 6 input 0 l;
      })
unfolding parse_opcode
parse_input_frame_short input n op l ty small known e0 e1 some_data short fits two bound inside =
    parse_input_frame_head input n op l small (omega arith) e0 e1 two
    ∙ ap (λ o. parse_opcode input n o) known
    ∙ ap (λ p. parse_payload input n p) (get_payload_length_short input n l ty e1 some_data short)
    ∙ parse_payload_short input n l ty some_data short fits bound inside

key_in_front :
    (a b : ℕ) (key : Key) (j : ℕ) → j < 4 → get_or (a ∷ b ∷ key_bytes key) (2 + j) 0 ≡ key_at key j
key_in_front a b key zero h = refl
key_in_front a b key (suc zero) h = refl
key_in_front a b key (suc (suc zero)) h = refl
key_in_front a b key (suc (suc (suc zero))) h = refl
key_in_front a b key (suc (suc (suc (suc j)))) h = absurd (omega arith)

client_frame_short :
    (op : ℕ) (key : Key) (payload : List ℕ)
    → length payload ≤ 125
    → client_frame op key payload
      ≡ (128 + op) ∷ (128 + length payload) ∷ (key_bytes key ++ mask (key_at key) 0 payload)
unfolding client_frame length_bytes
client_frame_short op key payload h = rw (le→leb _ _ h)

pub length-client_frame :
    (op : ℕ) (key : Key) (payload : List ℕ)
    → length payload ≤ 125
    → length (client_frame op key payload) ≡ 6 + length payload
length-client_frame op key payload short =
    let shape = client_frame_short op key payload short in
    omega (arith, ap length shape, length-mask (key_at key) 0 payload)

-- A client's frame of 1 to 125 bytes of payload is parsed to its opcode's type, wherever it is
-- followed by more input: the data starts at the seventh byte of the array and is the payload
-- without its mask, the length of the frame is the number of bytes that the client sent, and the
-- bytes around the data stay.
pub parse-client_frame :
    (op : ℕ) (ty : FrameType) (key : Key) (payload rest : List ℕ) (n : ℕ)
    → known_opcode op ≡ some ty
    → op < 16
    → 0 < length payload
    → length payload ≤ 125
    → length (client_frame op key payload) ≤ n
    → n < 2 ^ 64
    → parse_input_frame (client_frame op key payload ++ rest) n
      ≡ returns (record {
        frame_type = ty;
        extent = some (record {
          data_start = some 6;
          data_length = length payload;
          frame_length = length (client_frame op key payload);
        });
        frame = (128 + op) ∷ (128 + length payload) ∷ (key_bytes key ++ (payload ++ rest));
      })
parse-client_frame op ty key payload rest n known small some_data short fits bound =
    let shape = client_frame_short op key payload short in
    let l : ℕ = length payload in
    let pre : List ℕ = (128 + op) ∷ (128 + l) ∷ key_bytes key in
    let hidden : List ℕ = mask (key_at key) 0 payload in
    let size = length-client_frame op key payload short in
    let hidden_size = length-mask (key_at key) 0 payload in
    let opened : unmask 2 6 (pre ++ (hidden ++ rest)) 0 l ≡ pre ++ (payload ++ rest) =
      ap (unmask 2 6 (pre ++ (hidden ++ rest)) 0) (sym hidden_size)
      ∙ unmask_from (key_at key) 2 6 0 pre hidden rest refl (omega arith)
          (key_in_front (128 + op) (128 + l) key)
      ∙ ap (λ xs. pre ++ (xs ++ rest)) (mask-mask (key_at key) 0 payload) in
    ap (λ f. parse_input_frame (f ++ rest) n) shape
    ∙ parse_input_frame_short (pre ++ (hidden ++ rest)) n op l ty small known refl refl some_data
        short (inl (omega arith)) (omega arith) bound
        (omega (arith, hidden_size, length-append hidden rest))
    ∙ ap₂
        (λ m buf. returns (record {
          frame_type = ty;
          extent = some (record { data_start = some 6; data_length = l; frame_length = m });
          frame = buf;
        }))
        (sym size) opened
