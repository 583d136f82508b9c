-- ===== src/WebSocket/Frame/Conform.antt =====
-- wsMakeFrame against the frames of RFC 6455, on both sides of its 16-bit limit.
use extension_project.Prelude.{
  ℕ, ◌+◌, ◌^◌, ◌≤◌, ◌<◌, ◌≡◌, ◌≢◌, ap, ap₂, sym, ◌∙◌, List, ◌∷◌, ◌++◌, length, get_or, drop,
  length-append, ℤ, pos, bit_or, bit_or_top, arith, le_bytes,
}
use extension_project.WebSocket.Types.{FrameType, type_code, Run, returns}
use extension_project.WebSocket.Rfc.{be_bytes, server_frame, length_bytes}
use extension_project.WebSocket.Frame.{make_frame, frame_header}
use extension_project.WebSocket.Frame.Make.{total, make_frame_fits}

frame_header-rfc :
    (ty : FrameType) (n : ℕ)
    → type_code ty < 0x10
    → n ≤ 0xFFFF
    → frame_header ty n ≡ (128 + type_code ty) ∷ length_bytes 0 n
unfolding frame_header length_bytes
frame_header-rfc ty n small h = ground (arith, bit_or_top (type_code ty))

frame_header_wide :
    (ty : FrameType) (n : ℕ)
    → 0xFFFF < n
    → frame_header ty n ≡ bit_or 0x80 (type_code ty) ∷ 127 ∷ le_bytes 8 n
unfolding frame_header
frame_header_wide ty n h = ground arith

length_bytes_wide : (n : ℕ) → 0xFFFF < n → length_bytes 0 n ≡ 127 ∷ be_bytes 8 n
unfolding length_bytes
length_bytes_wide n h = ground arith

module _ (payload out : List ℕ) (out_length : ℕ) (ty : FrameType) where
  -- A payload of up to 65535 bytes becomes exactly the server's frame of RFC 6455, if the type is
  -- an opcode and the frame fits the output array: the value returned is the frame's length, and
  -- the array behind the frame stays.
  pub make_frame-conforms :
      type_code ty < 0x10
      → length payload ≤ 0xFFFF
      → length (server_frame (type_code ty) payload) ≤ out_length
      → out_length ≤ length out
      → out_length < 2 ^ 31
      → make_frame payload out out_length ty
        ≡ returns (
          pos (length (server_frame (type_code ty) payload)),
          server_frame (type_code ty) payload
              ++ drop (length (server_frame (type_code ty) payload)) out,
        )
  unfolding server_frame
  make_frame-conforms small short fits room bound =
      let same = frame_header-rfc ty (length payload) small short in
      let count : total payload out out_length ty ≡ length (server_frame (type_code ty) payload) =
        omega (arith, ap length same, length-append (length_bytes 0 (length payload)) payload) in
      make_frame_fits payload out out_length ty small (omega arith) room bound
      ∙ ap₂ (λ k f. returns (pos k, f ++ drop k out)) count (ap (λ h. h ++ payload) same)

wire : Run (ℤ × List ℕ) → ℕ → ℕ
wire (returns (r, out)) i = get_or out i 0
wire _ i = 0

module _ (payload out : List ℕ) (out_length : ℕ) (ty : FrameType) where
  -- A payload of more than 65535 bytes never becomes a frame of RFC 6455, whatever stands behind
  -- it: the eight length bytes are in the host's order. This is for a type that is an opcode and
  -- an output array that the frame fits.
  make_frame_wide :
      (rest : List ℕ)
      → type_code ty < 0x10
      → 0xFFFF < length payload
      → length payload + 10 ≤ out_length
      → out_length ≤ length out
      → out_length < 2 ^ 31
      → make_frame payload out out_length ty
        ≢ returns (pos (length payload + 10), server_frame (type_code ty) payload ++ rest)
  unfolding server_frame wire
  make_frame_wide rest small long fits room bound e =
      let code = frame_header_wide ty (length payload) long in
      let count : total payload out out_length ty ≡ length payload + 10 =
        omega (arith, ap length code) in
      let frame = make_frame_fits payload out out_length ty small (omega arith) room bound in
      let same = rw (code, length_bytes_wide (length payload) long) at (sym frame ∙ e) in
      omega (
        arith,
        ap (λ r. wire r 2) same,
        ap (λ r. wire r 3) same,
        ap (λ r. wire r 4) same,
        ap (λ r. wire r 5) same,
      )
