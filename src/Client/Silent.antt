-- ===== src/Client/Silent.antt =====
-- client.cpp: what Receive sends to a client that has shaken hands.
use extension_project.Prelude.{ℕ, ◌≡◌, refl, List, true, leb, ◌==◌}
use extension_project.WebSocket.Types.{
  assert, found, FrameType, text_frame, error_frame, incomplete_frame, closing_frame, write_into,
}
use extension_project.WebSocket.Ensures.{Ensures, Ensures-bind, Ensures-then, Ensures-if}
use extension_project.WebSocket.Frame.{parse_input_frame, Parsed, Extent}
use extension_project.Client.{
  Client, ReadResult, got, want_read, at_end, failed, consume, append_input,
}
use extension_project.WebSocket.Answer.{Crypto}
use extension_project.Client.{Round}
use extension_project.Client.Keeps.Input.{start_of}
use extension_project.Client.Receive.{
  Received, receive, receive_open, receive_frame, frame_reply, take_message, receive_done,
}

-- The list of what has been sent stays.
abbrev IsSilent : List (List ℕ) → Received → Type 0
IsSilent sent r = r.client.sent ≡ sent

abbrev HasSent : List (List ℕ) → Client → Type 0
HasSent sent client = client.sent ≡ sent

consume-HasSent : (n : ℕ) (client : Client) → Ensures (HasSent client.sent) (consume n client)
unfolding consume
consume-HasSent n client =
    Ensures-then (HasSent client.sent) (write_into client.frame_buf_pos n) _ (λ _ _. refl)

take_message-IsSilent :
    (len : ℕ) (e : Extent) (frame : List ℕ) (client : Client)
    → Ensures (IsSilent client.sent) (take_message len e frame client)
unfolding take_message
take_message-IsSilent len e frame client =
    let holds : Received → Type 0 = IsSilent client.sent in
    Ensures-if holds (leb len e.data_length) _ _
      (λ _.
        Ensures-bind (HasSent client.sent) holds (consume e.frame_length client) _
          (consume-HasSent e.frame_length client) (λ c k. k))
      (λ _. Ensures-then holds (start_of e.data_start) _ (λ start _.
        Ensures-then holds (assert (leb e.frame_length client.frame_buf_pos)) _ (λ _ _.
          Ensures-bind (HasSent client.sent) holds (consume e.frame_length client) _
            (consume-HasSent e.frame_length client) (λ c k. k))))

frame_reply-IsSilent :
    (len : ℕ) (parsed : Parsed) (ty : FrameType) (client : Client)
    → Ensures (IsSilent client.sent) (frame_reply len parsed ty client)
unfolding frame_reply
frame_reply-IsSilent len parsed text_frame client =
    Ensures-then (IsSilent client.sent) (found parsed.extent) _
      (λ e _. take_message-IsSilent len e parsed.frame client)
frame_reply-IsSilent len parsed error_frame client = refl
frame_reply-IsSilent len parsed incomplete_frame client = refl
frame_reply-IsSilent len parsed closing_frame client = refl
frame_reply-IsSilent len parsed _ client = refl

receive_frame-IsSilent :
    (len : ℕ) (client : Client) → Ensures (IsSilent client.sent) (receive_frame len client)
unfolding receive_frame
receive_frame-IsSilent len client =
    Ensures-then (IsSilent client.sent) (parse_input_frame client.frame_buf client.frame_buf_pos) _
      (λ parsed _.
        frame_reply-IsSilent len parsed parsed.frame_type
          (record client { frame_buf = parsed.frame }))

receive_open-IsSilent :
    (read : ReadResult) (len : ℕ) (client : Client)
    → Ensures (IsSilent client.sent) (receive_open read len client)
unfolding receive_open append_input
receive_open-IsSilent want_read len client =
    Ensures-if (IsSilent client.sent) (client.frame_buf_pos == 0) _ _ (λ _. refl)
      (λ _. receive_frame-IsSilent len client)
receive_open-IsSilent failed len client = refl
receive_open-IsSilent at_end len client = refl
receive_open-IsSilent (got bytes) len client =
    receive_frame-IsSilent len (append_input bytes client)

pub receive-IsSilent :
    (c : Crypto) (read : ReadResult) (rounds : List Round) (len : ℕ) (client : Client)
    → client.handshaked ≡ true
    → Ensures (λ (r : Received). r.client.sent ≡ client.sent) (receive c read rounds len client)
receive-IsSilent c read rounds len client done =
    rw (receive_done c read rounds len client done) (receive_open-IsSilent read len client)
