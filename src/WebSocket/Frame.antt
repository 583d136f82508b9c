-- ===== src/WebSocket/Frame.antt =====
-- cwebsocket/websocket.c: wsMakeFrame, getPayloadLength and wsParseInputFrame.
-- A frame is read from the array that holds it, with the number of bytes that count as input; a
-- read past the array's end gives 0, and the loop that unmasks must not write there.
mod Tests
pub mod Mask
pub mod Head
pub mod RoundTrip
pub mod Bounds
pub mod Wide
pub mod Make
pub mod Conform
use extension_project.Prelude.{
  ℕ, zero, suc, ◌+◌, ◌-◌, ◌/◌, ◌%◌, ◌^◌, bit_and, bit_or, bit_xor, Bool, true, false, not, ◌&&◌,
  ◌||◌, List, [], ◌∷◌, ◌++◌, Option, none, some, ltb, leb, ◌==◌, if◌then◌else◌, length, get_or, set,
  take, drop, write_at, add_size, sub_size, size_mod, ℤ, negsuc, as_int, le_bytes, le_value,
}
use extension_project.WebSocket.Types.{
  FrameType, error_frame, incomplete_frame, text_frame, binary_frame, ping_frame, pong_frame,
  closing_frame, type_code, Run, returns, corrupts, ◌>>=◌, ◌>>◌, assert,
}

-- `htons` on the host, then `memcpy`: the high byte first.
abbrev pub be16 : ℕ → List ℕ
be16 n = n / 256 % 256 ∷ n % 256 ∷ []

-- The length field that wsMakeFrame writes behind the first byte.
unfoldable pub length_field : ℕ → List ℕ
length_field n =
    if leb n 125 then n ∷ [] else if leb n 0xFFFF then 126 ∷ be16 n else 127 ∷ le_bytes 8 n

-- All that it writes in front of the payload.
unfoldable pub frame_header : FrameType → ℕ → List ℕ
unfolding length_field
frame_header ty n = bit_or 0x80 (type_code ty) ∷ length_field n

-- wsMakeFrame: the value returned, and the output array.
unfoldable pub make_frame : List ℕ → List ℕ → ℕ → FrameType → Run (ℤ × List ℕ)
make_frame payload out out_length ty = do
  assert (ltb (type_code ty) 0x10)
  let header = frame_header ty (length payload)
  let header_length = length header
  let with_header = write_at out 0 header
  let total = add_size header_length (length payload)
  returns (
      if ltb out_length total
      then (negsuc 0, with_header)
      else (as_int total, write_at with_header header_length payload))

abbrev pub byte : List ℕ → ℕ → ℕ
byte input i = get_or input i 0

-- `memcpy(&x, &input[from], n)`
abbrev pub slice : ℕ → ℕ → List ℕ → List ℕ
slice from n input = take n (drop from input)

-- What getPayloadLength returns, and leaves in its two out parameters.
pub record PayloadField : Type 0 where
  pub payload_length : ℕ
  pub extra_bytes : ℕ
  pub frame_type : FrameType

abbrev pub field : ℕ → ℕ → FrameType → PayloadField
field n extra ty = record { payload_length = n; extra_bytes = extra; frame_type = ty }

abbrev pub size_max : ℕ
size_max = 2 ^ 64 - 1

unfoldable pub get_payload_length : List ℕ → ℕ → FrameType → PayloadField
get_payload_length input input_length ty =
    let short = bit_and (byte input 1) 0x7F in
    let wide = le_value (slice 2 8 input) in
    if short == 0
    then field 0 0 ty
    else if (short == 0x7E && ltb input_length 4) || (short == 0x7F && ltb input_length 10)
    then field 0 0 incomplete_frame
    else if short == 0x7F && not (bit_and (byte input 3) 0x80 == 0)
    then field 0 0 error_frame
    else if short == 0x7E
    then field (le_value (slice 2 2 input)) 2 ty
    else if short == 0x7F
    then (if ltb size_max wide then field 0 8 error_frame else field wide 8 ty)
    else field short 0 ty

-- The loop that takes the mask off in place, from index `i` on, `n` bytes to go.
unfoldable pub unmask : ℕ → ℕ → List ℕ → ℕ → ℕ → List ℕ
unmask key start buf i zero = buf
unmask key start buf i (suc n) =
    let x = bit_xor (byte buf (start + i)) (byte buf (key + i % 4)) in
    unmask key start (set buf (start + i) x) (i + 1) n

-- The out parameters that wsParseInputFrame writes behind the opcode test: where the data starts,
-- if it says so, its length, and the length of the frame.
pub record Extent : Type 0 where
  pub data_start : Option ℕ
  pub data_length : ℕ
  pub frame_length : ℕ

-- The type returned, the out parameters if they are written, and the input array after the call.
pub record Parsed : Type 0 where
  pub frame_type : FrameType
  pub extent : Option Extent
  pub frame : List ℕ

abbrev pub rejected : FrameType → List ℕ → Parsed
rejected ty input = record { frame_type = ty; extent = none; frame = input }

-- The opcodes that the parser takes, with the enumerator of the same number.
unfoldable pub known_opcode : ℕ → Option FrameType
known_opcode opcode =
    if opcode == 0x1
    then some text_frame
    else if opcode == 0x2
    then some binary_frame
    else if opcode == 0x8
    then some closing_frame
    else if opcode == 0x9
    then some ping_frame
    else if opcode == 0xA
    then some pong_frame
    else none

-- The branch behind the opcode test. The loop that takes the mask off writes into the array that
-- holds the input, up to the end of the data.
unfoldable pub parse_payload : List ℕ → ℕ → PayloadField → Run Parsed
parse_payload input input_length p =
    let extra = p.extra_bytes in
    let n = p.payload_length in
    let total = add_size (add_size n extra) 6 in
    if ltb 0 n
    then (if ltb (sub_size (sub_size input_length 6) extra) n
        then returns (rejected incomplete_frame input)
        else if ltb (length input) (2 + extra + 4 + n)
        then corrupts
        else returns (record {
          frame_type = p.frame_type;
          extent =
              some (record {
                data_start = some (2 + extra + 4);
                data_length = n;
                frame_length = total;
              });
          frame = unmask (2 + extra) (2 + extra + 4) input 0 n;
        }))
    else returns (record {
      frame_type = p.frame_type;
      extent = some (record { data_start = none; data_length = 0; frame_length = total });
      frame = input;
    })

unfoldable pub parse_opcode : List ℕ → ℕ → Option FrameType → Run Parsed
parse_opcode input input_length none = returns (rejected error_frame input)
parse_opcode input input_length (some ty) =
    parse_payload input input_length (get_payload_length input input_length ty)

-- wsParseInputFrame
unfoldable pub parse_input_frame : List ℕ → ℕ → Run Parsed
parse_input_frame input input_length = do
  assert (ltb 0 input_length)
  if ltb input_length 2
      then returns (rejected incomplete_frame input)
      else if not (bit_and (byte input 0) 0x70 == 0)
      then returns (rejected error_frame input)
      else if not (bit_and (byte input 0) 0x80 == 0x80)
      then returns (rejected error_frame input)
      else if not (bit_and (byte input 1) 0x80 == 0x80)
      then returns (rejected error_frame input)
      else parse_opcode input input_length (known_opcode (bit_and (byte input 0) 0x0F))
