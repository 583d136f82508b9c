-- ===== src/WebSocket/Frame/Make.antt =====
-- wsMakeFrame against the frames of RFC 6455.
use extension_project.Prelude.{
  ℕ, ◌+◌, ◌^◌, ◌≤◌, ◌<◌, ◌≡◌, refl, ap, sym, ◌∙◌, List, ◌++◌, lt→ltb, le→ltb_false, length, drop,
  write_at, overwrite-append, write_at-append, append_assoc, drop-drop, length-drop,
  length-le_bytes, add_size, as_int_small, pos, negsuc, arith,
}
use extension_project.WebSocket.Types.{FrameType, type_code, returns}
use extension_project.WebSocket.Frame.{make_frame, frame_header}

length-header : (ty : FrameType) (n : ℕ) → length (frame_header ty n) ≤ 10
unfolding frame_header
length-header ty n = ground (arith, length-le_bytes 8 n)

write_front :
    (out front : List ℕ)
    → length front ≤ length out
    → write_at out 0 front ≡ front ++ drop (length front) out
write_front out front h = overwrite-append out front h

-- The header, then the payload, copied into an array that has room for both.
write_both :
    (out front payload : List ℕ)
    → length front + length payload ≤ length out
    → write_at (write_at out 0 front) (length front) payload
      ≡ (front ++ payload) ++ drop (length front + length payload) out
write_both out front payload h =
    ap (λ o. write_at o (length front) payload) (write_front out front (omega arith))
    ∙ write_at-append front (drop (length front) out) payload
    ∙ ap (◌++◌ front) (
        overwrite-append (drop (length front) out) payload
          (omega (arith, length-drop (length front) out)))
    ∙ ap (λ r. front ++ (payload ++ r))
        (drop-drop (length front) (length payload) (length front + length payload) out refl)
    ∙ sym (append_assoc front payload (drop (length front + length payload) out))

module _ (payload out : List ℕ) (out_length : ℕ) (ty : FrameType) where
  abbrev pub total : ℕ
  total = length (frame_header ty (length payload)) + length payload

  -- wsMakeFrame where the frame fits the array.
  pub make_frame_fits :
      type_code ty < 0x10
      → total ≤ out_length
      → out_length ≤ length out
      → out_length < 2 ^ 31
      → make_frame payload out out_length ty
        ≡ returns (pos total, (frame_header ty (length payload) ++ payload) ++ drop total out)
  unfolding make_frame
  make_frame_fits small fits room bound =
      let exact : add_size (length (frame_header ty (length payload))) (length payload) ≡ total =
        omega arith in
      rw (lt→ltb _ _ small, exact, le→ltb_false _ _ fits, as_int_small total (omega arith))
        (ap (λ o. returns (pos total, o))
          (write_both out (frame_header ty (length payload)) payload (omega arith)))

  -- wsMakeFrame where it does not: the header is written all the same.
  pub make_frame_refuses :
      type_code ty < 0x10
      → out_length < total
      → total < 2 ^ 64
      → make_frame payload out out_length ty
        ≡ returns (negsuc 0, write_at out 0 (frame_header ty (length payload)))
  unfolding make_frame
  make_frame_refuses small long bound =
      let exact : add_size (length (frame_header ty (length payload))) (length payload) ≡ total =
        omega arith in
      rw (lt→ltb _ _ small, exact, lt→ltb _ _ long)
