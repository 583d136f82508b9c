-- ===== src/Client/Delivery.antt =====
-- Client::Receive on an open connection: a text frame that has come in is delivered.
use extension_project.Prelude.{
  ne→==, ◌==◌, append-nil, ℕ, ◌+◌, ◌≤◌, ◌<◌, ◌≡◌, refl, ap, sym, ◌∙◌, List, [], ◌∷◌, ◌++◌, some,
  arith, leb, le→leb, length, take, drop, length-append, take-append, take-append-drop, take-drop,
  drop-append, drop-drop, append_assoc, append-nil, ne→==, ◌==◌, true, false, if_false,
}
use extension_project.WebSocket.Types.{returns, text_frame, ◌>>=◌}
use extension_project.WebSocket.Rfc.{Key, key_bytes, client_frame}
use extension_project.WebSocket.Frame.{slice, parse_input_frame, known_opcode, Extent}
use extension_project.WebSocket.Frame.RoundTrip.{parse-client_frame, length-client_frame}
use extension_project.WebSocket.Answer.{Crypto}
use extension_project.WebSocket.Answer.{Crypto}
use extension_project.Client.{
  buf_len, Round, ReadResult, want_read, at_end, failed, got, Client, available, append_input,
}
use extension_project.Client.Receive.{
  Received, receive_done, receive, receive_frame, receive_open, frame_reply, take_message,
}
use extension_project.Client.Buffer.{
  IsValid, pending, length-pending, consume-pending, append_input-pending,
}

-- The array in three parts: the frame, the input behind it, and what is no input.
in_parts :
    (frame rest : List ℕ) (client : Client)
    → pending client ≡ frame ++ rest
    → client.frame_buf ≡ frame ++ (rest ++ drop client.frame_buf_pos client.frame_buf)
in_parts frame rest client e =
    sym (take-append-drop client.frame_buf_pos client.frame_buf)
    ∙ ap (λ p. p ++ drop client.frame_buf_pos client.frame_buf) e
    ∙ append_assoc frame rest (drop client.frame_buf_pos client.frame_buf)

-- A message of `l` bytes from the seventh on, with the rest of the input behind it.
pub record Delivered (len : ℕ) (payload rest : List ℕ) (r : Received) : Type 0 where
  pub code : r.code ≡ available r.client
  pub message : r.message ≡ some payload
  pub rest_stays : pending r.client ≡ rest
  pub valid : IsValid r.client

abbrev extent_of : List ℕ → Extent
extent_of payload = record {
  data_start = some 6;
  data_length = length payload;
  frame_length = 6 + length payload;
}

take_message_lem :
    (len : ℕ) (front payload rest other : List ℕ) (client : Client)
    → IsValid client
    → length front ≡ 6
    → client.frame_buf ≡ front ++ (payload ++ (rest ++ other))
    → client.frame_buf_pos ≡ 6 + length payload + length rest
    → length payload < len
    → (r : Received) × (take_message len (extent_of payload) client.frame_buf client ≡ returns r)
      × Delivered len payload rest r
unfolding take_message
take_message_lem len front payload rest other client v six buf place small =
    let l : ℕ = length payload in
    let behind : drop 6 client.frame_buf ≡ payload ++ (rest ++ other) =
      ap (drop 6) buf
      ∙ ap (λ k. drop k (front ++ (payload ++ (rest ++ other)))) (sym six)
      ∙ drop-append front (payload ++ (rest ++ other)) in
    let text : slice 6 l client.frame_buf ≡ payload =
      ap (take l) behind ∙ take-append payload (rest ++ other) in
    let too_small : leb len l ≡ false = ground arith in
    let stays : drop (6 + l) (pending client) ≡ rest =
      sym (take-drop (6 + l) (length rest) client.frame_buf_pos client.frame_buf (omega arith))
      ∙ ap (take (length rest)) (
          sym (drop-drop 6 l (6 + l) client.frame_buf refl)
          ∙ ap (drop l) behind
          ∙ drop-append payload (rest ++ other))
      ∙ take-append rest other in
    let (client', is_client, left, valid, place') = consume-pending (6 + l) v (omega arith) in
    (
      record {
        code = available client';
        client = client';
        message = some (slice 6 l client.frame_buf);
      },
      rw (too_small, le→leb (6 + l) client.frame_buf_pos (omega arith), is_client) refl,
      record { code = refl; message = ap some text; rest_stays = left ∙ stays; valid = valid },
    )

known_text : known_opcode 1 ≡ some text_frame
unfolding known_opcode
known_text = refl

-- If the input that is there begins with a client's text frame of 1 to 125 bytes of payload, and
-- `buf` has room for the payload and a 0, the part of Receive behind SSL_read comes back with the
-- payload as the message; what stays is exactly the input behind the frame, and the code tells
-- whether there is any.
pub receive_frame-Delivered :
    (len : ℕ) (key : Key) (payload rest : List ℕ) (client : Client)
    → IsValid client
    → pending client ≡ client_frame 1 key payload ++ rest
    → 0 < length payload
    → length payload ≤ 125
    → length payload < len
    → (r : Received) × (receive_frame len client ≡ returns r) × Delivered len payload rest r
unfolding receive_frame frame_reply
receive_frame-Delivered len key payload rest client v e some_data short small =
    let other : List ℕ = drop client.frame_buf_pos client.frame_buf in
    let parts = in_parts (client_frame 1 key payload) rest client e in
    let size = length-client_frame 1 key payload short in
    let place : client.frame_buf_pos ≡ 6 + length payload + length rest =
      omega
        (arith, length-pending v, ap length e, length-append (client_frame 1 key payload) rest) in
    let front : List ℕ = (128 + 1) ∷ (128 + length payload) ∷ key_bytes key in
    let opened : Client = record client { frame_buf = front ++ (payload ++ (rest ++ other)) } in
    let parsed =
      parse-client_frame 1 text_frame key payload (rest ++ other) client.frame_buf_pos (known_text)
        (omega arith) some_data short (omega arith) (omega arith) in
    let same_size : length opened.frame_buf ≡ length client.frame_buf = omega (
      arith,
      ap length parts,
      length-append payload (rest ++ other),
      length-append (client_frame 1 key payload) (rest ++ other),
      size,
    ) in
    let taken =
      take_message_lem len front payload rest other opened
        (record {
          frame_size = same_size ∙ v.frame_size;
          send_size = v.send_size;
          within = v.within;
        })
        refl refl place small in
    (
      taken.0,
      ap (λ m. m >>= λ p. frame_reply len p p.frame_type (record client { frame_buf = p.frame }))
            (ap (λ b. parse_input_frame b client.frame_buf_pos) parts ∙ parsed)
          ∙ ap
              (λ m.
                take_message len
                  (record { data_start = some 6; data_length = length payload; frame_length = m })
                  opened.frame_buf opened)
              size
          ∙ taken.1,
      taken.2,
    )

-- What SSL_read adds to the input: bytes, or nothing for now.
abbrev pub Supplies : ReadResult → List ℕ → Type 0
Supplies (got bytes) added = bytes ≡ added
Supplies want_read added = added ≡ []
Supplies at_end added = ⊥
Supplies failed added = ⊥

module _ (c : Crypto) (rounds : List Round) (len : ℕ) (key : Key) (payload rest : List ℕ)
    (client : Client) (v : IsValid client) (done : client.handshaked ≡ true)
    (some_data : 0 < length payload) (short : length payload ≤ 125)
    (small : length payload < len) where
  -- On a client that has shaken hands, Receive delivers the payload of a text frame of 1 to 125
  -- bytes, if `buf` has room for it and a 0, and if the frame is complete in the input that was
  -- there with what SSL_read adds (which fits the buffer): also if the frame came in pieces, or came
  -- along with an earlier one and SSL_read has nothing new. The rest of the input stays for the next
  -- call, and the code tells whether there is any.
  pub receive-Delivered :
      (read : ReadResult) (added : List ℕ)
      → Supplies read added
      → client.frame_buf_pos + length added ≤ buf_len
      → pending client ++ added ≡ client_frame 1 key payload ++ rest
      → (r : Received) × (receive c read rounds len client ≡ returns r)
        × Delivered len payload rest r
  unfolding receive_open
  receive-Delivered (got bytes) added same fits e =
      let (there, valid) = append_input-pending bytes v (rw same fits) in
      let got_it =
        receive_frame-Delivered len key payload rest (append_input bytes client) valid
          (there ∙ ap (λ b. pending client ++ b) same ∙ e) some_data short small in
      (got_it.0, receive_done c (got bytes) rounds len client done ∙ got_it.1, got_it.2)
  receive-Delivered want_read added same fits e =
      let there : pending client ≡ client_frame 1 key payload ++ rest =
        sym (append-nil (pending client)) ∙ ap (λ b. pending client ++ b) (sym same) ∙ e in
      let got_it =
        receive_frame-Delivered len key payload rest client v there some_data short small in
      let not_empty : (client.frame_buf_pos == 0) ≡ false = ne→== client.frame_buf_pos 0 (
        omega (
          arith,
          length-pending v,
          ap length there,
          length-append (client_frame 1 key payload) rest,
          length-client_frame 1 key payload short,
        )) in
      (
        got_it.0,
        receive_done c want_read rounds len client done ∙ if_false _ _ not_empty ∙ got_it.1,
        got_it.2,
      )
  receive-Delivered at_end added same fits e = absurd same
  receive-Delivered failed added same fits e = absurd same
