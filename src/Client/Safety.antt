-- ===== src/Client/Safety.antt =====
-- Client::Receive on an open connection: when it comes back, and when the process ends in it.
use extension_project.Prelude.{
  ne→==, ◌⊎◌, eq→==, ℕ, ◌+◌, ◌≤◌, ◌<◌, ◌≡◌, ◌≢◌, refl, ap, ◌∙◌, List, Option, none, some, arith,
  leb, le→leb, if◌then◌else◌, length, true, false, if_true, if_false, length-write_at, eq→==, ne→==,
  Bool-cases, inl, inr, Option-cases,
}
use extension_project.WebSocket.Types.{
  found, ◌>>=◌, Run, returns, aborts, text_frame, error_frame, incomplete_frame, closing_frame,
  ◌>>=◌, FrameType,
}
use extension_project.WebSocket.Frame.{slice, byte, parse_input_frame, known_opcode, Parsed, Extent}
use extension_project.WebSocket.Frame.Bounds.{
  extent_in_bounds, extent_past_input, parse_keeps_rest, IsRefusal, no_extent-IsRefusal,
  parse_input_frame_enough,
}
use extension_project.Client.{
  Client, buffer_too_small, invalid_frame, waiting_for_more_data, client_disconnected,
  network_error, available, append_input, ReadResult, got, want_read, at_end, failed, Round,
  buf_len,
}
use extension_project.WebSocket.Answer.{Crypto}
use extension_project.Client.Receive.{
  Received, receive_done, receive, receive_frame, receive_open, frame_reply, take_message,
}
use extension_project.Client.Buffer.{IsValid, consume-pending, append_input-pending}

-- The call comes back, and its client is valid.
abbrev pub ComesValid : Run Received → Type 0
ComesValid m = (r : Received) × (m ≡ returns r) × IsValid r.client

refusal_not_text : {ty : FrameType} → ty ≡ text_frame → IsRefusal ty → ⊥
refusal_not_text text (inl refused) = ground arith
refusal_not_text text (inr refused) = ground arith

take_message-ComesValid :
    (len : ℕ) (e : Extent) (frame : List ℕ) (client : Client)
    → IsValid client
    → e.frame_length ≤ client.frame_buf_pos
    → ComesValid (take_message len e frame client)
unfolding take_message
take_message-ComesValid len e frame client v fits =
    let (client', is_client, left, valid, place) = consume-pending e.frame_length v fits in
    elim (Bool-cases (leb len e.data_length)) [
      | inl large ↦ (
        record { code = buffer_too_small; client = client'; message = none },
        rw (large, is_client) refl,
        valid,
      )
      | inr small ↦ elim (Option-cases e.data_start) [
        | inl start ↦ (
          record {
            code = available client';
            client = client';
            message = some (slice 0 e.data_length frame);
          },
          rw (small, start, le→leb _ _ fits, is_client) refl,
          valid,
        )
        | inr (s, start) ↦ (
          record {
            code = available client';
            client = client';
            message = some (slice s e.data_length frame);
          },
          rw (small, start, le→leb _ _ fits, is_client) refl,
          valid,
        )
      ]
    ]

with_extent :
    (len : ℕ) (parsed : Parsed) (client : Client) (o : Option Extent)
    → parsed.extent ≡ o
    → IsValid client
    → ((e : Extent) → parsed.extent ≡ some e → e.frame_length ≤ client.frame_buf_pos)
    → parsed.extent ≢ none
    → ComesValid (frame_reply len parsed text_frame client)
unfolding frame_reply
with_extent len parsed client none e v fits has = absurd (has e)
with_extent len parsed client (some x) e v fits has =
    let took = take_message-ComesValid len x parsed.frame client v (fits x e) in
    (took.0, rw e took.1, took.2)

frame_reply-ComesValid :
    (len : ℕ) (parsed : Parsed) (ty : FrameType) (client : Client)
    → IsValid client
    → ((e : Extent) → parsed.extent ≡ some e → e.frame_length ≤ client.frame_buf_pos)
    → (ty ≡ text_frame → parsed.extent ≢ none)
    → ComesValid (frame_reply len parsed ty client)
unfolding frame_reply
frame_reply-ComesValid len parsed text_frame client v fits has =
    with_extent len parsed client parsed.extent refl v fits (has refl)
frame_reply-ComesValid len parsed error_frame client v fits has =
    (record { code = invalid_frame; client = client; message = none }, refl, v)
frame_reply-ComesValid len parsed incomplete_frame client v fits has = (
  record {
    code = if leb buf_len client.frame_buf_pos then invalid_frame else waiting_for_more_data;
    client = client;
    message = none;
  },
  refl,
  v,
)
frame_reply-ComesValid len parsed closing_frame client v fits has =
    (record { code = client_disconnected; client = client; message = none }, refl, v)
frame_reply-ComesValid len parsed _ client v fits has =
    (record { code = invalid_frame; client = client; message = none }, refl, v)

receive_frame-ComesValid :
    (len : ℕ) (client : Client)
    → IsValid client
    → 14 ≤ client.frame_buf_pos
    → ComesValid (receive_frame len client)
unfolding receive_frame
receive_frame-ComesValid len client v enough =
    let n : ℕ = client.frame_buf_pos in
    let (parsed, is_parsed) =
      parse_input_frame_enough client.frame_buf n enough (omega (arith, v.frame_size, v.within))
        (omega (arith, v.within)) in
    let kept = (parse_keeps_rest client.frame_buf n parsed 0 is_parsed).0 in
    let replied =
      frame_reply-ComesValid len parsed parsed.frame_type
        (record client { frame_buf = parsed.frame })
        (record { frame_size = kept ∙ v.frame_size; send_size = v.send_size; within = v.within })
        (λ e has.
          (extent_in_bounds client.frame_buf n parsed e is_parsed has enough (omega arith)).0)
        (λ text no_extent.
          refusal_not_text text
            (no_extent-IsRefusal client.frame_buf n parsed is_parsed no_extent)) in
    (replied.0, rw is_parsed replied.1, replied.2)

-- There is input of at least 14 bytes that fits the buffer, or nothing to look at.
abbrev pub Enough : ReadResult → Client → Type 0
Enough (got bytes) client =
    (14 ≤ client.frame_buf_pos + length bytes) × (client.frame_buf_pos + length bytes ≤ buf_len)
Enough want_read client = (client.frame_buf_pos ≡ 0) ⊎ (14 ≤ client.frame_buf_pos)
Enough at_end client = Unit
Enough failed client = Unit

placed :
    (bytes : List ℕ) (client : Client)
    → 14 ≤ client.frame_buf_pos + length bytes
    → 14 ≤ (append_input bytes client).frame_buf_pos
unfolding append_input
placed bytes client h = h

-- On a valid client that has shaken hands, Receive always comes back, with a valid client, if there
-- are at least 14 bytes of input to look at, whatever they are, or none: no assertion fails, and no
-- copy leaves the buffer.
pub receive-ComesValid :
    (c : Crypto) (read : ReadResult) (rounds : List Round) (len : ℕ) (client : Client)
    → IsValid client
    → client.handshaked ≡ true
    → Enough read client
    → ComesValid (receive c read rounds len client)
unfolding receive_open
receive-ComesValid c (got bytes) rounds len client v done (enough, fits) =
    let valid = (append_input-pending bytes v fits).1 in
    let place : 14 ≤ (append_input bytes client).frame_buf_pos = placed bytes client enough in
    let came = receive_frame-ComesValid len (append_input bytes client) valid place in
    (came.0, receive_done c (got bytes) rounds len client done ∙ came.1, came.2)
receive-ComesValid c want_read rounds len client v done (inl none_there) = (
  record { code = waiting_for_more_data; client = client; message = none },
  receive_done c want_read rounds len client done
      ∙ if_true _ _ (eq→== client.frame_buf_pos 0 none_there),
  v,
)
receive-ComesValid c want_read rounds len client v done (inr enough) =
    let came = receive_frame-ComesValid len client v enough in
    (
      came.0,
      receive_done c want_read rounds len client done
          ∙ if_false _ _ (ne→== client.frame_buf_pos 0 (omega arith))
          ∙ came.1,
      came.2,
    )
receive-ComesValid c at_end rounds len client v done enough = (
  record { code = client_disconnected; client = client; message = none },
  receive_done c at_end rounds len client done,
  v,
)
receive-ComesValid c failed rounds len client v done enough = (
  record { code = network_error; client = client; message = none },
  receive_done c failed rounds len client done,
  v,
)

known_text : known_opcode 1 ≡ some text_frame
unfolding known_opcode
known_text = refl

frame_aborts :
    (len l : ℕ) (client : Client) (parsed : Parsed)
    → parse_input_frame client.frame_buf client.frame_buf_pos ≡ returns parsed
    → parsed.frame_type ≡ text_frame
    → parsed.extent ≡ some (record { data_start = some 6; data_length = l; frame_length = 6 + l })
    → client.frame_buf_pos < 6 + l
    → l < len
    → receive_frame len client ≡ aborts
unfolding receive_frame frame_reply take_message
frame_aborts len l client parsed is_parsed text extent few small =
    let read : Client = record client { frame_buf = parsed.frame } in
    let fits : leb len l ≡ false = ground arith in
    let past : leb (6 + l) client.frame_buf_pos ≡ false = ground arith in
    let taken : take_message len
          (record { data_start = some 6; data_length = l; frame_length = 6 + l }) parsed.frame read
        ≡ aborts =
      rw (fits, past) in
    ap (λ m. m >>= λ p. frame_reply len p p.frame_type (record client { frame_buf = p.frame }))
      is_parsed
    ∙ ap (λ ty. frame_reply len parsed ty read) text
    ∙ ap (λ o. found o >>= λ e. take_message len e parsed.frame read) extent
    ∙ taken

place_lt :
    (bytes : List ℕ) (l : ℕ) (client : Client)
    → client.frame_buf_pos + length bytes < 6
    → (append_input bytes client).frame_buf_pos < 6 + l
unfolding append_input
place_lt bytes l client h = omega arith

-- On a valid client, the process ends in Receive where SSL_read brings the input to between 2 and 5 bytes that begin a
-- text frame of 1 to 125 bytes of payload, if `buf` has room for them.
pub receive_aborts :
    (c : Crypto) (bytes : List ℕ) (rounds : List Round) (len l : ℕ) (client : Client)
    → IsValid client
    → client.handshaked ≡ true
    → 2 ≤ client.frame_buf_pos + length bytes
    → client.frame_buf_pos + length bytes < 6
    → byte (append_input bytes client).frame_buf 0 ≡ 128 + 1
    → byte (append_input bytes client).frame_buf 1 ≡ 128 + l
    → 0 < l
    → l ≤ 125
    → l < len
    → receive c (got bytes) rounds len client ≡ aborts
unfolding receive_open append_input
receive_aborts c bytes rounds len l client v done two few e0 e1 some_data short small =
    let (parsed, is_parsed, text, extent) =
      extent_past_input (append_input bytes client).frame_buf (client.frame_buf_pos + length bytes)
        1 l text_frame two few (omega arith) known_text some_data short e0 e1
        (omega
          (arith, v.frame_size, length-write_at client.frame_buf client.frame_buf_pos bytes)) in
    receive_done c (got bytes) rounds len client done
    ∙ frame_aborts len l (append_input bytes client) parsed is_parsed text extent
        (place_lt bytes l client few) small
