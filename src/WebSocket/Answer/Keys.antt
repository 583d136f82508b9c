-- ===== src/WebSocket/Answer/Keys.antt =====
-- cwebsocket/websocket.c: for which keys wsGetHandshakeAnswer gives the answer of RFC 6455.
use extension_project.Prelude.{
  ℕ, ◌+◌, ◌*◌, ◌%◌, ◌≤◌, ◌<◌, ◌≡◌, refl, ◌∙◌, ap, List, [], ◌∷◌, ◌++◌, some, length, length-append,
  arith, write_at, le→ltb_false, lt→ltb, le→leb,
}
use extension_project.WebSocket.Types.{returns, corrupts, opening_frame}
use extension_project.WebSocket.Handshake.{Handshake}
use extension_project.WebSocket.Answer.{
  Crypto, secret, answer_text, answer_key, get_handshake_answer,
}
use extension_project.WebSocket.Request.{response_text}

-- What RFC 6455, section 4.2.2, makes of the key.
abbrev pub accept_of : Crypto → List ℕ → List ℕ
accept_of c key = c.base64enc (c.sha1 (key ++ secret) (length (key ++ secret) * 8))

length-accept_of : (c : Crypto) (key : List ℕ) → length (accept_of c key) ≡ 28
length-accept_of c key =
    c.length-base64enc (c.sha1 (key ++ secret) (length (key ++ secret) * 8))
      (c.length-sha1 (key ++ secret) (length (key ++ secret) * 8))

pub length-response_text :
    (c : Crypto) (key : List ℕ) → length (response_text (accept_of c key)) ≡ 129
length-response_text c key =
    omega (arith, length-append (accept_of c key) (13 ∷ 10 ∷ 13 ∷ 10 ∷ []), length-accept_of c key)

answer_key_lem :
    (c : Crypto) (key : List ℕ) → length key ≤ 219 → answer_key c key ≡ returns (accept_of c key)
unfolding answer_key
answer_key_lem c key short =
    let size : (length key + length secret) % 256 ≡ length (key ++ secret) =
      omega (arith, length-append key secret) in
    let n : ℕ = length (key ++ secret) in
    let whole : n ≡ length key + 36 = omega (arith, length-append key secret) in
    let coded = length-accept_of c key in
    rw (
      size,
      le→ltb_false n (length key) (omega arith),
      le→ltb_false n (length key + 36) (omega arith),
      le→ltb_false n (length (accept_of c key) + 1) (omega arith),
    )

answer_text_lem : (accept : List ℕ) → answer_text accept ≡ response_text accept
unfolding answer_text
answer_text_lem accept = refl

answer_key-corrupts :
    (c : Crypto) (key : List ℕ) → 220 ≤ length key → length key ≤ 255 → answer_key c key ≡ corrupts
unfolding answer_key
answer_key-corrupts c key long short =
    let small = lt→ltb ((length key + 36) % 256) (length key) (omega arith) in rw small

-- For a key of at most 219 bytes the answer is that of RFC 6455, with the hash of the key and the
-- secret, if there is room for its 129 bytes: it stands at the front of the output with a 0 behind it,
-- and its length is returned. For a key of 220 to 255 bytes the block for it is too small, and the key
-- is written past its end.
pub get_handshake_answer_lem :
    (c : Crypto) (hs : Handshake) (key out : List ℕ) (out_length : ℕ)
    → hs.frame_type ≡ opening_frame
    → hs.key ≡ some key
    → (length key ≤ 219
        → 129 ≤ out_length
        → get_handshake_answer c hs out out_length
          ≡ returns (129, write_at out 0 (response_text (accept_of c key) ++ 0 ∷ [])))
      × (220 ≤ length key
          → length key ≤ 255
          → 0 < out_length
          → get_handshake_answer c hs out out_length ≡ corrupts)
unfolding get_handshake_answer
get_handshake_answer_lem c hs key out out_length opening keyed = (
  (λ short room.
      let text : length (answer_text (accept_of c key)) ≡ 129 =
        ap length (answer_text_lem (accept_of c key)) ∙ length-response_text c key in
      rw
        (
          opening,
          keyed,
          lt→ltb 0 out_length (omega arith),
          answer_key_lem c key short,
          text,
          le→leb 129 out_length room,
        )
        (ap (λ t. returns (129, write_at out 0 (t ++ 0 ∷ [])))
          (answer_text_lem (accept_of c key)))),
  (λ long short room.
      rw (opening, keyed, lt→ltb 0 out_length room, answer_key-corrupts c key long short)),
)
