-- ===== src/Examples/Frames.antt =====
-- Frames: a client's "Hi" under the mask 1 2 3 4, and what a server makes.
use extension_project.Prelude.{
  ◌%◌, ◌/◌, ℕ, ◌<◌, ◌≤◌, ◌≡◌, ◌↔◌, refl, List, [], ◌∷◌, ◌++◌, some, arith, replicate, length,
  length-replicate, drop, pos,
}
use extension_project.WebSocket.Types.{text_frame, returns, type_code}
use extension_project.WebSocket.Rfc.{Key, client_frame, server_frame, length_bytes}
use extension_project.WebSocket.Frame.{
  parse_input_frame, parse_opcode, parse_payload, get_payload_length, known_opcode, unmask,
  make_frame, Parsed, Extent,
}
use extension_project.WebSocket.Frame.RoundTrip.{parse-client_frame}
use extension_project.WebSocket.Frame.Bounds.{extent_in_bounds, EndsWithFrame}
use extension_project.WebSocket.Frame.Wide.{parse-client_frame_swapped, swap16}
use extension_project.WebSocket.Frame.Conform.{make_frame-conforms}

abbrev key : Key
key = record { k0 = 1; k1 = 2; k2 = 3; k3 = 4 }

abbrev hi : List ℕ
hi = 0x48 ∷ 0x69 ∷ []

-- 9 bytes of payload, and one byte of the next frame.
abbrev masked : List ℕ
masked = 0x81 ∷ 0x89 ∷ 1 ∷ 2 ∷ 3 ∷ 4 ∷ 1 ∷ 2 ∷ 3 ∷ 4 ∷ 1 ∷ 2 ∷ 3 ∷ 4 ∷ 1 ∷ 7 ∷ []

abbrev unmasked : List ℕ
unmasked = 0x81 ∷ 0x89 ∷ 1 ∷ 2 ∷ 3 ∷ 4 ∷ 0 ∷ 0 ∷ 0 ∷ 0 ∷ 0 ∷ 0 ∷ 0 ∷ 0 ∷ 0 ∷ 7 ∷ []

abbrev nine : Extent
nine = record { data_start = some 6; data_length = 9; frame_length = 15 }

abbrev parsed_masked : Parsed
parsed_masked = record { frame_type = text_frame; extent = some nine; frame = unmasked }

is_parsed : parse_input_frame masked 16 ≡ returns parsed_masked
unfolding parse_input_frame parse_opcode parse_payload get_payload_length known_opcode unmask
is_parsed = refl

known_text : known_opcode 1 ≡ some text_frame
unfolding known_opcode
known_text = refl

short_enough : length (client_frame 1 key hi) ≤ 9
unfolding client_frame length_bytes
short_enough = omega arith

parse-client_frame_example :
    parse_input_frame (client_frame 1 key hi ++ 7 ∷ []) 9
    ≡ returns (record {
      frame_type = text_frame;
      extent = some (record {
        data_start = some 6;
        data_length = 2;
        frame_length = length (client_frame 1 key hi);
      });
      frame = 0x81 ∷ 0x82 ∷ 1 ∷ 2 ∷ 3 ∷ 4 ∷ 0x48 ∷ 0x69 ∷ 7 ∷ [];
    })
parse-client_frame_example =
    parse-client_frame 1 text_frame key hi (7 ∷ []) 9 known_text (omega arith) (omega arith)
      (omega arith) short_enough (omega arith)

extent_in_bounds_example : (15 ≤ 16) × EndsWithFrame nine
extent_in_bounds_example =
    extent_in_bounds masked 16 parsed_masked nine is_parsed refl (omega arith) (omega arith)

make_frame-conforms_example :
    make_frame hi (replicate 6 9) 6 text_frame
    ≡ returns (
      pos (length (server_frame (type_code text_frame) hi)),
      server_frame (type_code text_frame) hi
          ++ drop (length (server_frame (type_code text_frame) hi)) (replicate 6 9),
    )
unfolding type_code server_frame length_bytes
make_frame-conforms_example =
    make_frame-conforms hi (replicate 6 9) 6 text_frame (omega arith) (omega arith) (omega arith)
      (omega arith) (omega arith)

-- 256 bytes of payload: the two bytes of the length are 1 and 0.
abbrev long : List ℕ
long = replicate 256 0

abbrev one : Extent
one = record { data_start = some 8; data_length = 1; frame_length = 9 }

abbrev parsed_long : Parsed
parsed_long = record {
  frame_type = text_frame;
  extent = some one;
  frame = unmask 4 8 (client_frame 1 key long ++ []) 0 1;
}

is_parsed_long : parse_input_frame (client_frame 1 key long ++ []) 264 ≡ returns parsed_long
unfolding parse_input_frame parse_opcode parse_payload get_payload_length known_opcode client_frame
    length_bytes
is_parsed_long = refl

parse-client_frame_swapped_example :
    (1 ≡ swap16 (length long)) × ((1 ≡ length long) ↔ (length long / 256 ≡ length long % 256))
parse-client_frame_swapped_example =
    parse-client_frame_swapped 1 text_frame key long [] 264 parsed_long one known_text (omega arith)
      (omega arith) (omega arith) (omega arith) is_parsed_long refl

zeros : ℕ → List ℕ
zeros n = replicate n 0

length-zeros : (n : ℕ) → length (zeros n) ≡ n
unfolding zeros
length-zeros n = length-replicate n 0

text_opcode : type_code text_frame < 0x10
unfolding type_code
text_opcode = omega arith
