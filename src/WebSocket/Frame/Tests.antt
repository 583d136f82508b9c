-- ===== src/WebSocket/Frame/Tests.antt =====
-- Frames by hand: what the code does on concrete bytes.
use extension_project.Prelude.{ℕ, ◌≡◌, refl, List, [], ◌∷◌, some, replicate, pos, negsuc, as_int}
use extension_project.WebSocket.Types.{
  text_frame, incomplete_frame, closing_frame, type_code, returns, aborts,
}
use extension_project.WebSocket.Frame.{
  frame_header, make_frame, parse_opcode, known_opcode, parse_payload, parse_input_frame,
  get_payload_length, unmask, rejected,
}

-- "Hi" masked by 1 2 3 4, and three bytes of the next frame.
abbrev masked_hi : List ℕ
masked_hi = 0x81 ∷ 0x82 ∷ 1 ∷ 2 ∷ 3 ∷ 4 ∷ 0x49 ∷ 0x6B ∷ 7 ∷ 7 ∷ 7 ∷ []

parse_hi :
    parse_input_frame masked_hi 11
    ≡ returns (record {
      frame_type = text_frame;
      extent = some (record { data_start = some 6; data_length = 2; frame_length = 8 });
      frame = 0x81 ∷ 0x82 ∷ 1 ∷ 2 ∷ 3 ∷ 4 ∷ 0x48 ∷ 0x69 ∷ 7 ∷ 7 ∷ 7 ∷ [];
    })
unfolding parse_input_frame parse_opcode known_opcode parse_payload get_payload_length unmask
parse_hi = refl

parse_cut : parse_input_frame masked_hi 7 ≡ returns (rejected incomplete_frame masked_hi)
unfolding parse_input_frame parse_opcode known_opcode parse_payload get_payload_length unmask
parse_cut = refl

parse_nothing : parse_input_frame masked_hi 0 ≡ aborts
unfolding parse_input_frame
parse_nothing = refl

make_close : make_frame [] (replicate 4 9) 4 closing_frame ≡ returns (pos 2, 0x88 ∷ 0 ∷ 9 ∷ 9 ∷ [])
unfolding make_frame frame_header type_code as_int
make_close = refl

make_too_long :
    make_frame (1 ∷ 2 ∷ []) (replicate 4 9) 3 text_frame ≡ returns (negsuc 0, 0x81 ∷ 2 ∷ 9 ∷ 9 ∷ [])
unfolding make_frame frame_header type_code
make_too_long = refl
