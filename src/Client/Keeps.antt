-- ===== src/Client/Keeps.antt =====
-- What every call on a client keeps, if it comes back: the client's id and socket, that it has shaken
-- hands, and the sizes of its buffers.
pub mod Input
use extension_project.Prelude.{
  ℕ, ◌+◌, ◌-◌, ◌≤◌, ◌≡◌, refl, ◌∙◌, sym, List, [], ◌∷◌, ◌++◌, Option, none, some, Bool, true, false,
  arith, ltb, leb, length, set, length-set, length-write_at, length-overwrite, overwrite, write_at,
  replicate, ℤ, pos, negsuc, is_negative, Bool-cases, inl, inr, if◌then◌else◌, ltb→lt,
}
use extension_project.WebSocket.Types.{
  Run, returns, ◌>>=◌, ◌>>◌, found, assert, write_into, FrameType, type_code, error_frame,
  incomplete_frame, text_frame, opening_frame, closing_frame,
}
use extension_project.WebSocket.Ensures.{
  Ensures, Ensures-bind, Ensures-then, Ensures-if, Ensures-weaken,
}
use extension_project.WebSocket.Frame.{
  make_frame, frame_header, parse_input_frame, slice, Parsed, Extent,
}
use extension_project.WebSocket.Frame.Bounds.{parse_keeps_rest}
use extension_project.WebSocket.Handshake.{Opening, Handshake, parse_handshake, null_handshake}
use extension_project.WebSocket.Answer.{Crypto, get_handshake_answer}
use extension_project.Client.{
  Client, Code, Round, ReadResult, got, want_read, at_end, failed, Wish, to_write, write_rounds,
  send_frame, send, disconnect, consume, close_socket, buf_len, send_buf_len, append_input,
  bad_request, prepared,
}
use extension_project.Client.Buffer.{IsValid, append_input-pending}
use extension_project.Client.Receive.{
  Received, receive, receive_handshake, receive_open, receive_frame, frame_reply, take_message,
  handshake, handshake_reply, refuse, welcome,
}

pub record Keeps (client client' : Client) : Type 0 where
  pub id : client'.id ≡ client.id
  pub socket : client'.socket ≡ client.socket
  pub shaken : client.handshaked ≡ true → client'.handshaked ≡ true
  pub valid : IsValid client'

-- Of a call that gives a value and the client.
abbrev pub SecondKeeps : Client → ℤ × Client → Type 0
SecondKeeps client p = Keeps client p.1

pub Keeps-refl : {client : Client} → IsValid client → Keeps client client
Keeps-refl v = record { id = refl; socket = refl; shaken = λ done. done; valid = v }

pub Keeps-trans : {a b c : Client} → Keeps a b → Keeps b c → Keeps a c
Keeps-trans h k = record {
  id = k.id ∙ h.id;
  socket = k.socket ∙ h.socket;
  shaken = λ done. k.shaken (h.shaken done);
  valid = k.valid;
}

-- New contents of the same sizes.
pub with_buffers :
    (client : Client) (frame_buf send_buf : List ℕ) (place : ℕ)
    → IsValid client
    → length frame_buf ≡ length client.frame_buf
    → length send_buf ≡ length client.send_buf
    → place ≤ buf_len
    → Keeps client
        (record client { frame_buf = frame_buf; send_buf = send_buf; frame_buf_pos = place })
with_buffers client frame_buf send_buf place v f s p = record {
  id = refl;
  socket = refl;
  shaken = λ done. done;
  valid = record { frame_size = f ∙ v.frame_size; send_size = s ∙ v.send_size; within = p };
}

make_frame-length :
    (payload out : List ℕ) (out_length : ℕ) (ty : FrameType)
    → Ensures (λ p. length p.1 ≡ length out) (make_frame payload out out_length ty)
unfolding make_frame
make_frame-length payload out out_length ty =
    let header : List ℕ = frame_header ty (length payload) in
    Ensures-then (λ p. length p.1 ≡ length out) (assert (ltb (type_code ty) 0x10)) _
      (λ _ _. ground (
        arith,
        length-write_at out 0 header,
        length-write_at (write_at out 0 header) (length header) payload,
      ))

pub send_frame-Keeps :
    (rounds : List Round) (bytes : List ℕ) (client : Client)
    → IsValid client
    → Ensures (SecondKeeps client) (send_frame rounds bytes client)
unfolding send_frame
send_frame-Keeps rounds bytes client v =
    Ensures-then (SecondKeeps client) (write_rounds to_write rounds) _ (λ taken _. chosen taken)
  where
    chosen :
        (taken : Bool)
        → Ensures (SecondKeeps client) (
            returns (
              if taken
              then (pos 0, record client { sent = client.sent ++ bytes ∷ [] })
              else (negsuc 0, client)))
    chosen true = record {
      id = refl;
      socket = refl;
      shaken = λ done. done;
      valid = record { frame_size = v.frame_size; send_size = v.send_size; within = v.within };
    }
    chosen false = Keeps-refl v

pub consume-Keeps :
    (n : ℕ) (client : Client) → IsValid client → Ensures (Keeps client) (consume n client)
unfolding consume
consume-Keeps n client v =
    let kept : List ℕ = slice n (client.frame_buf_pos - n) client.frame_buf in
    Ensures-then (Keeps client) (write_into client.frame_buf_pos n) _ (λ _ _.
      with_buffers client (overwrite client.frame_buf kept) client.send_buf
        (client.frame_buf_pos - n) v (length-overwrite client.frame_buf kept) refl (omega arith))

pub send_buf-Keeps :
    (client : Client) (send_buf : List ℕ)
    → IsValid client
    → length send_buf ≡ length client.send_buf
    → Keeps client (record client { send_buf = send_buf })
send_buf-Keeps client send_buf v e =
    with_buffers client client.frame_buf send_buf client.frame_buf_pos v refl e v.within

pub send-Keeps :
    (rounds : List Round) (message : List ℕ) (client : Client)
    → IsValid client
    → Ensures (SecondKeeps client) (send rounds message client)
unfolding send
send-Keeps rounds message client v =
    Ensures-bind (λ p. length p.1 ≡ length client.send_buf) (SecondKeeps client)
      (make_frame message client.send_buf send_buf_len text_frame) _
      (make_frame-length message client.send_buf send_buf_len text_frame)
      (λ p same. made p.0 p.1 (send_buf-Keeps client p.1 v same))
  where
    made :
        (frame_len : ℤ) (send_buf : List ℕ)
        → Keeps client (record client { send_buf = send_buf })
        → Ensures (SecondKeeps client) (elim frame_len [
          | negsuc n ↦ returns (negsuc 9, record client { send_buf = send_buf })
          | pos n ↦ send_frame rounds (slice 0 n send_buf) (record client { send_buf = send_buf })
        ])
    made (negsuc n) send_buf k = k
    made (pos n) send_buf k =
        Ensures-weaken (SecondKeeps (record client { send_buf = send_buf })) (SecondKeeps client)
          (λ p h. Keeps-trans k h) _
          (send_frame-Keeps rounds (slice 0 n send_buf) (record client { send_buf = send_buf })
            k.valid)

-- Disconnect closes the socket.
pub record IsClosed (client client' : Client) : Type 0 where
  pub id : client'.id ≡ client.id
  pub socket : client'.socket ≡ none
  pub valid : IsValid client'

close_socket-IsClosed :
    (client client' : Client) → Keeps client client' → IsClosed client (close_socket client')
unfolding close_socket
close_socket-IsClosed client client' k = record {
  id = k.id;
  socket = refl;
  valid = record {
    frame_size = k.valid.frame_size;
    send_size = k.valid.send_size;
    within = k.valid.within;
  };
}

pub disconnect-IsClosed :
    (rounds : List Round) (client : Client)
    → IsValid client
    → Ensures (IsClosed client) (disconnect rounds client)
unfolding disconnect
disconnect-IsClosed rounds client v =
    Ensures-bind (λ p. length p.1 ≡ length client.send_buf) (IsClosed client)
      (make_frame [] client.send_buf send_buf_len closing_frame) _
      (make_frame-length [] client.send_buf send_buf_len closing_frame)
      (λ p same.
        Ensures-bind (Keeps client) (IsClosed client) _ _
          (made p.0 p.1 (send_buf-Keeps client p.1 v same))
          (λ c k. close_socket-IsClosed client c k))
  where
    made :
        (frame_size : ℤ) (send_buf : List ℕ)
        → Keeps client (record client { send_buf = send_buf })
        → Ensures (Keeps client) (elim frame_size [
          | negsuc n ↦ returns (record client { send_buf = send_buf })
          | pos n ↦
              (if ltb 0 n
                then (send_frame rounds (slice 0 n send_buf) (record client { send_buf = send_buf })
                    >>= λ (r, client''). returns client'')
                else returns (record client { send_buf = send_buf }))
        ])
    made (negsuc n) send_buf k = k
    made (pos n) send_buf k =
        Ensures-if (Keeps client) (ltb 0 n) _ _
          (λ _.
            Ensures-bind (SecondKeeps (record client { send_buf = send_buf })) (Keeps client) _ _
              (send_frame-Keeps rounds (slice 0 n send_buf) (record client { send_buf = send_buf })
                k.valid)
              (λ p h. Keeps-trans k h))
          (λ _. k)
