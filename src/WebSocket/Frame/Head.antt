-- ===== src/WebSocket/Frame/Head.antt =====
-- The first two bytes of a frame: what wsParseInputFrame takes from them.
use extension_project.Prelude.{
  ℕ, ◌+◌, ◌≤◌, ◌<◌, ◌≡◌, refl, List, Option, bit_and, lt→ltb, ltb, ◌==◌, not, le→ltb_false,
  bit_and_low_four, bit_and_top, bit_and_reserved, arith,
}
use extension_project.WebSocket.Types.{FrameType, error_frame, incomplete_frame, assert}
use extension_project.WebSocket.Ensures.{Ensures, Ensures-then, Ensures-if, ComesBack, ComesBack-if}
use extension_project.WebSocket.Frame.{
  parse_input_frame, parse_opcode, known_opcode, byte, Parsed, rejected,
}

-- A final frame without extensions, and masked: the opcode decides.
pub parse_input_frame_head :
    (input : List ℕ) (n op l : ℕ)
    → op < 16
    → l < 128
    → byte input 0 ≡ 128 + op
    → byte input 1 ≡ 128 + l
    → 2 ≤ n
    → parse_input_frame input n ≡ parse_opcode input n (known_opcode op)
unfolding parse_input_frame
parse_input_frame_head input n op l ho hl e0 e1 h =
    let low : bit_and (128 + op) 0x0F ≡ op =
      omega (arith, bit_and_low_four (128 + op) (omega arith)) in
    let free : bit_and (128 + op) 0x70 ≡ 0 =
      omega (arith, bit_and_reserved (128 + op) (omega arith)) in
    let final : bit_and (128 + op) 0x80 ≡ 0x80 =
      omega (arith, bit_and_top (128 + op) (omega arith)) in
    let masked : bit_and (128 + l) 0x80 ≡ 0x80 =
      omega (arith, bit_and_top (128 + l) (omega arith)) in
    rw (e0, e1, low, free, final, masked, lt→ltb 0 n (omega arith), le→ltb_false n 2 h)

-- What holds of each refusal and of each opcode's branch holds of the call.
pub parse_input_frame-Ensures {ℓ} :
    (holds : Parsed → Type ℓ) (input : List ℕ) (n : ℕ)
    → holds (rejected error_frame input)
    → holds (rejected incomplete_frame input)
    → ((o : Option FrameType) → Ensures holds (parse_opcode input n o))
    → Ensures holds (parse_input_frame input n)
unfolding parse_input_frame
parse_input_frame-Ensures holds input n e i h = Ensures-then holds (assert (ltb 0 n)) _ (λ _ _.
    Ensures-if holds (ltb n 2) _ _ (λ _. i)
      (λ _.
        Ensures-if holds (not (bit_and (byte input 0) 0x70 == 0)) _ _ (λ _. e)
          (λ _.
            Ensures-if holds (not (bit_and (byte input 0) 0x80 == 0x80)) _ _ (λ _. e)
              (λ _.
                Ensures-if holds (not (bit_and (byte input 1) 0x80 == 0x80)) _ _ (λ _. e)
                  (λ _. h (known_opcode (bit_and (byte input 0) 0x0F)))))))

-- It comes back if each branch does.
pub parse_input_frame-returns :
    (input : List ℕ) (n : ℕ)
    → 0 < n
    → ((o : Option FrameType) → ComesBack (parse_opcode input n o))
    → ComesBack (parse_input_frame input n)
unfolding parse_input_frame
parse_input_frame-returns input n h back = rw (lt→ltb 0 n h) (
    ComesBack-if (ltb n 2) _ _ (λ _. (_, refl))
      (λ _.
        ComesBack-if (not (bit_and (byte input 0) 0x70 == 0)) _ _ (λ _. (_, refl))
          (λ _.
            ComesBack-if (not (bit_and (byte input 0) 0x80 == 0x80)) _ _ (λ _. (_, refl))
              (λ _.
                ComesBack-if (not (bit_and (byte input 1) 0x80 == 0x80)) _ _ (λ _. (_, refl))
                  (λ _. back (known_opcode (bit_and (byte input 0) 0x0F)))))))
