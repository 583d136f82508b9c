-- ===== src/Client/Sending.antt =====
-- Client::SendFrame, Client::Send and Client::Disconnect.
use extension_project.Prelude.{
  ℕ, ◌+◌, ◌≤◌, ◌<◌, ◌≡◌, ap, ◌∙◌, ◌⊎◌, inl, inr, List, [], ◌∷◌, ◌++◌, Bool, true, false, arith,
  length, drop, pos, negsuc, length-append, length-drop, take-append,
}
use extension_project.WebSocket.Types.{Run, returns, text_frame, type_code}
use extension_project.WebSocket.Rfc.{server_frame, length_bytes}
use extension_project.WebSocket.Frame.{make_frame}
use extension_project.WebSocket.Frame.Conform.{make_frame-conforms}
use extension_project.Client.{
  Client, Round, wrote, write_failed, Wish, to_read, to_write, write_rounds, send_frame, send,
  send_buf_len,
}
use extension_project.Client.Buffer.{IsValid}

-- A round in which the loop ends, whatever it waits on.
abbrev pub Decides : Round → Type 0
Decides r =
    (r.writable ≡ true) × (r.readable ≡ true) × ((r.write ≡ wrote) ⊎ (r.write ≡ write_failed))

abbrev pub Some : {A : Type 0} → (A → Type 0) → List A → Type 0
Some P [] = ⊥
Some P (x ∷ xs) = P x ⊎ Some P xs

abbrev pub Ends : Run Bool → Type 0
Ends m = (m ≡ returns true) ⊎ (m ≡ returns false)

-- SendFrame's loop ends, if among the rounds to come there is one in which the socket is ready both
-- ways and SSL_write has a definite answer.
pub write_rounds-Ends :
    (wish : Wish) (rounds : List Round) → Some Decides rounds → Ends (write_rounds wish rounds)
unfolding write_rounds
write_rounds-Ends wish [] h = absurd h
write_rounds-Ends to_read (r ∷ rs) (inl d) = ground arith
write_rounds-Ends to_write (r ∷ rs) (inl d) = ground arith
write_rounds-Ends to_read (r ∷ rs) (inr h) =
    ground (arith, write_rounds-Ends to_read rs h, write_rounds-Ends to_write rs h)
write_rounds-Ends to_write (r ∷ rs) (inr h) =
    ground (arith, write_rounds-Ends to_read rs h, write_rounds-Ends to_write rs h)

pub send_frame-sent :
    (rounds : List Round) (bytes : List ℕ) (client : Client)
    → write_rounds to_write rounds ≡ returns true
    → send_frame rounds bytes client
      ≡ returns (pos 0, record client { sent = client.sent ++ bytes ∷ [] })
unfolding send_frame
send_frame-sent rounds bytes client e = rw e

send_frame-failed :
    (rounds : List Round) (bytes : List ℕ) (client : Client)
    → write_rounds to_write rounds ≡ returns false
    → send_frame rounds bytes client ≡ returns (negsuc 0, client)
unfolding send_frame
send_frame-failed rounds bytes client e = rw e

length-length_bytes : (n : ℕ) → n ≤ 0xFFFF → length (length_bytes 0 n) ≤ 3
unfolding length_bytes
length-length_bytes n h = ground arith

length-server_frame :
    (opcode : ℕ) (payload : List ℕ)
    → length payload ≤ 0xFFFF
    → (length (server_frame opcode payload) ≤ length payload + 4)
      × (0 < length (server_frame opcode payload))
unfolding server_frame
length-server_frame opcode payload h = omega (
  arith,
  length-length_bytes (length payload) h,
  length-append (length_bytes 0 (length payload)) payload,
)

-- On a valid client, Send of a message of at most 15996 bytes builds the server's text frame of
-- RFC 6455. If SSL_write takes it, Send returns 0, and exactly that frame has been sent; if
-- SSL_write fails, Send returns -1, and nothing has been sent. The input buffer stays either way.
pub send_lem :
    (rounds : List Round) (message : List ℕ) (client : Client)
    → IsValid client
    → length message + 4 ≤ send_buf_len
    → (send_buf : List ℕ) × (write_rounds to_write rounds ≡ returns true
        → send rounds message client
          ≡ returns (
            pos 0,
            record client {
              send_buf = send_buf;
              sent = client.sent ++ server_frame 1 message ∷ [];
            },
          ))
      × (write_rounds to_write rounds ≡ returns false
          → send rounds message client ≡ returns (negsuc 0, record client { send_buf = send_buf }))
      × (length send_buf ≡ send_buf_len + 1)
unfolding send type_code
send_lem rounds message client v fits =
    let frame : List ℕ = server_frame 1 message in
    let size = length-server_frame 1 message (omega arith) in
    let send_buf : List ℕ = frame ++ drop (length frame) client.send_buf in
    let client' : Client = record client { send_buf = send_buf } in
    let built : make_frame message client.send_buf send_buf_len text_frame
        ≡ returns (pos (length frame), send_buf) =
      make_frame-conforms message client.send_buf send_buf_len text_frame (omega arith)
        (omega arith) (omega arith) (omega arith) (omega arith) in
    let common : send rounds message client ≡ send_frame rounds frame client' = rw built (
      ap (λ b. send_frame rounds b client')
        (take-append frame (drop (length frame) client.send_buf))) in
    (
      send_buf,
      (λ taken. common ∙ send_frame-sent rounds frame client' taken),
      (λ lost. common ∙ send_frame-failed rounds frame client' lost),
      omega (
        arith,
        length-append frame (drop (length frame) client.send_buf),
        length-drop (length frame) client.send_buf,
      ),
    )
