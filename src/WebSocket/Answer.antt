-- ===== src/WebSocket/Answer.antt =====
-- cwebsocket/websocket.c: wsGetHandshakeAnswer. The hash and the encoding that it calls are those
-- of a library, which enter as a parameter.
pub mod Keys
use extension_project.Prelude.{
  ℕ, ◌+◌, ◌%◌, ◌*◌, ◌≡◌, Bool, true, false, List, [], ◌∷◌, ◌++◌, Option, none, some, ltb, leb,
  length, write_at, codes,
}
use extension_project.WebSocket.Types.{
  FrameType, opening_frame, Run, returns, aborts, ◌>>=◌, ◌>>◌, assert, write_into,
}
use extension_project.WebSocket.Names
use extension_project.WebSocket.Names.{websocket_word, crlf}
use extension_project.WebSocket.Handshake.{Handshake}

-- sha1.h and base64_enc.h: `sha1` takes a message and its length in bits and gives 20 bytes,
-- `base64enc` makes 28 characters of 20 bytes and puts a 0 behind them.
pub record Crypto : Type 0 where
  pub sha1 : List ℕ → ℕ → List ℕ
  pub base64enc : List ℕ → List ℕ
  pub length-sha1 : (message : List ℕ) (bits : ℕ) → length (sha1 message bits) ≡ 20
  pub length-base64enc : (bytes : List ℕ) → length bytes ≡ 20 → length (base64enc bytes) ≡ 28

abbrev pub secret : List ℕ
secret = codes "258EAFA5-E914-47DA-95CA-C5AB0DC85B11"

-- What `sprintf` makes of the accepted key.
unfoldable pub answer_text : List ℕ → List ℕ
answer_text accept =
    codes "HTTP/1.1 101 Switching Protocols"
    ++ (crlf
        ++ (Names.upgrade
            ++ (websocket_word
                ++ (crlf
                    ++ (Names.connection
                        ++ (codes "Upgrade"
                            ++ (crlf
                                ++ (codes "Sec-WebSocket-Accept: "
                                    ++ (accept ++ (crlf ++ crlf))))))))))

abbrev pub is_opening : FrameType → Bool
is_opening opening_frame = true
is_opening _ = false

-- The block of `length` bytes, a `uint8_t`, takes the key, the secret behind it, and in the end the
-- encoded hash with its 0.
unfoldable pub answer_key : Crypto → List ℕ → Run (List ℕ)
answer_key c key = do
  let size = (length key + length secret) % 256
  write_into size (length key)
  write_into size (length key + length secret)
  let hash = c.sha1 (key ++ secret) (size * 8)
  write_into size (length (c.base64enc hash) + 1)
  returns (c.base64enc hash)

unfoldable pub answer_with : Crypto → Option (List ℕ) → List ℕ → ℕ → Run (ℕ × List ℕ)
answer_with c none out out_length = aborts
answer_with c (some key) out out_length = do
  accept ← answer_key c key
  let text = answer_text accept
  assert (leb (length text) out_length)
  returns (length text, write_at out 0 (text ++ 0 ∷ []))

-- wsGetHandshakeAnswer: the length that it leaves in `*outLength`, and the output array.
unfoldable pub get_handshake_answer : Crypto → Handshake → List ℕ → ℕ → Run (ℕ × List ℕ)
unfolding answer_with
get_handshake_answer c hs out out_length = do
  assert (ltb 0 out_length)
  assert (is_opening hs.frame_type)
  answer_with c hs.key out out_length
