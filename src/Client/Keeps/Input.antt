-- ===== src/Client/Keeps/Input.antt =====
-- client.cpp: what Receive and Handshake keep of a client, if they come back.
use extension_project.Prelude.{
  ℕ, ◌+◌, ◌≤◌, ◌≡◌, refl, ◌∙◌, List, [], ◌∷◌, ◌++◌, Option, none, some, Bool, true, false, leb, ltb,
  ◌==◌, length, set, length-set, length-write_at, replicate, is_negative, if◌then◌else◌, write_at,
}
use extension_project.WebSocket.Types.{
  Run, returns, found, assert, FrameType, error_frame, incomplete_frame, text_frame, opening_frame,
  closing_frame,
}
use extension_project.WebSocket.Ensures.{
  Ensures, Ensures-bind, Ensures-then, Ensures-if, Ensures-weaken,
}
use extension_project.WebSocket.Frame.{parse_input_frame, slice, Parsed, Extent}
use extension_project.WebSocket.Frame.Bounds.{parse_keeps_rest}
use extension_project.WebSocket.Handshake.{Opening, Handshake, parse_handshake, null_handshake}
use extension_project.WebSocket.Answer.{
  Crypto, get_handshake_answer, answer_with, answer_key, answer_text, is_opening,
}
use extension_project.Client.{
  Client, Code, Round, ReadResult, got, want_read, at_end, failed, send_frame, consume, buf_len,
  append_input, bad_request, prepared, available, network_error,
}
use extension_project.Client.Buffer.{IsValid}
use extension_project.Client.Receive.{
  Received, receive, receive_handshake, receive_open, receive_frame, frame_reply, take_message,
  handshake, handshake_reply, refuse, welcome,
}
use extension_project.Client.Keeps.{
  Keeps, SecondKeeps, Keeps-refl, Keeps-trans, with_buffers, send_frame-Keeps, consume-Keeps,
  send_buf-Keeps,
}

-- SSL_read gives no more bytes than there is room for.
abbrev pub Fits : ReadResult → Client → Type 0
Fits (got bytes) client = client.frame_buf_pos + length bytes ≤ buf_len
Fits want_read client = Unit
Fits at_end client = Unit
Fits failed client = Unit

abbrev CodeKeeps : Client → Code × Client → Type 0
CodeKeeps client p = Keeps client p.1

abbrev pub KeepsReceived : Client → Received → Type 0
KeepsReceived client r = Keeps client r.client

abbrev pub start_of : Option ℕ → Run ℕ
start_of start = elim start [ none ↦ returns 0 | some s ↦ returns s ]

take_message-Keeps :
    (len : ℕ) (e : Extent) (frame : List ℕ) (client : Client)
    → IsValid client
    → Ensures (KeepsReceived client) (take_message len e frame client)
unfolding take_message
take_message-Keeps len e frame client v =
    Ensures-if (KeepsReceived client) (leb len e.data_length) _ _
      (λ _.
        Ensures-bind (Keeps client) (KeepsReceived client) (consume e.frame_length client) _
          (consume-Keeps e.frame_length client v) (λ c k. k))
      (λ _. Ensures-then (KeepsReceived client) (start_of e.data_start) _ (λ start _.
        Ensures-then (KeepsReceived client) (assert (leb e.frame_length client.frame_buf_pos)) _
          (λ _ _.
            Ensures-bind (Keeps client) (KeepsReceived client) (consume e.frame_length client) _
              (consume-Keeps e.frame_length client v) (λ c k. k))))

frame_reply-Keeps :
    (len : ℕ) (parsed : Parsed) (ty : FrameType) (client : Client)
    → IsValid client
    → Ensures (KeepsReceived client) (frame_reply len parsed ty client)
unfolding frame_reply
frame_reply-Keeps len parsed text_frame client v =
    Ensures-then (KeepsReceived client) (found parsed.extent) _
      (λ e _. take_message-Keeps len e parsed.frame client v)
frame_reply-Keeps len parsed error_frame client v = Keeps-refl v
frame_reply-Keeps len parsed incomplete_frame client v = Keeps-refl v
frame_reply-Keeps len parsed closing_frame client v = Keeps-refl v
frame_reply-Keeps len parsed _ client v = Keeps-refl v

receive_frame-Keeps :
    (len : ℕ) (client : Client)
    → IsValid client
    → Ensures (KeepsReceived client) (receive_frame len client)
unfolding receive_frame
receive_frame-Keeps len client v =
    Ensures-then (KeepsReceived client) (parse_input_frame client.frame_buf client.frame_buf_pos) _
      (λ parsed is_parsed.
        let k =
          with_buffers client parsed.frame client.send_buf client.frame_buf_pos v
            (parse_keeps_rest client.frame_buf client.frame_buf_pos parsed 0 is_parsed).0 refl
            v.within in
        Ensures-weaken (KeepsReceived (record client { frame_buf = parsed.frame }))
          (KeepsReceived client) (λ r h. Keeps-trans k h) _
          (frame_reply-Keeps len parsed parsed.frame_type
            (record client { frame_buf = parsed.frame }) k.valid))

pub append_input-Keeps :
    (bytes : List ℕ) (client : Client)
    → IsValid client
    → client.frame_buf_pos + length bytes ≤ buf_len
    → Keeps client (append_input bytes client)
unfolding append_input
append_input-Keeps bytes client v fits =
    with_buffers client (write_at client.frame_buf client.frame_buf_pos bytes) client.send_buf
      (client.frame_buf_pos + length bytes) v
      (length-write_at client.frame_buf client.frame_buf_pos bytes) refl fits

receive_open-Keeps :
    (read : ReadResult) (len : ℕ) (client : Client)
    → IsValid client
    → Fits read client
    → Ensures (KeepsReceived client) (receive_open read len client)
unfolding receive_open
receive_open-Keeps want_read len client v fits =
    Ensures-if (KeepsReceived client) (client.frame_buf_pos == 0) _ _ (λ _. Keeps-refl v)
      (λ _. receive_frame-Keeps len client v)
receive_open-Keeps failed len client v fits = Keeps-refl v
receive_open-Keeps at_end len client v fits = Keeps-refl v
receive_open-Keeps (got bytes) len client v fits =
    let k = append_input-Keeps bytes client v fits in
    Ensures-weaken (KeepsReceived (append_input bytes client)) (KeepsReceived client)
      (λ r h. Keeps-trans k h) _ (receive_frame-Keeps len (append_input bytes client) k.valid)

abbrev SameLength : List ℕ → ℕ × List ℕ → Type 0
SameLength out p = length p.1 ≡ length out

get_handshake_answer-length :
    (c : Crypto) (hs : Handshake) (out : List ℕ) (n : ℕ)
    → Ensures (SameLength out) (get_handshake_answer c hs out n)
unfolding get_handshake_answer
get_handshake_answer-length c hs out n = Ensures-then (SameLength out) (assert (ltb 0 n)) _ (λ _ _.
    Ensures-then (SameLength out) (assert (is_opening hs.frame_type)) _ (λ _ _. keyed hs.key))
  where
    keyed : (key : Option (List ℕ)) → Ensures (SameLength out) (answer_with c key out n)
    keyed none = tt
    keyed (some key) = Ensures-then (SameLength out) (answer_key c key) _ (λ accept _.
        Ensures-then (SameLength out) (assert (leb (length (answer_text accept)) n)) _
          (λ _ _. length-write_at out 0 (answer_text accept ++ 0 ∷ [])))

pub length-prepared : (send_buf text : List ℕ) → length (prepared send_buf text) ≡ length send_buf
length-prepared send_buf text =
    length-write_at (write_at send_buf 0 (replicate buf_len 0)) 0 (text ++ 0 ∷ [])
    ∙ length-write_at send_buf 0 (replicate buf_len 0)

refuse-Keeps :
    (rounds : List Round) (client : Client)
    → IsValid client
    → Ensures (CodeKeeps client) (refuse rounds client)
unfolding refuse
refuse-Keeps rounds client v =
    let text : List ℕ = prepared client.send_buf bad_request in
    let k = send_buf-Keeps client text v (length-prepared client.send_buf bad_request) in
    Ensures-bind (SecondKeeps (record client { send_buf = text })) (CodeKeeps client) _ _
      (send_frame-Keeps rounds bad_request (record client { send_buf = text }) k.valid)
      (λ p h. Keeps-trans k h)

shaken-Keeps :
    {a b : Client} (again : Bool) (code : Code)
    → Keeps a b
    → CodeKeeps a (if again then (network_error, b) else (code, record b { handshaked = true }))
shaken-Keeps true code k = k
shaken-Keeps false code k = record {
  id = k.id;
  socket = k.socket;
  shaken = λ _. refl;
  valid = record {
    frame_size = k.valid.frame_size;
    send_size = k.valid.send_size;
    within = k.valid.within;
  };
}

welcome-Keeps :
    (c : Crypto) (rounds : List Round) (opening : Opening) (frame_size : ℕ) (client : Client)
    → IsValid client
    → Ensures (CodeKeeps client) (welcome c rounds opening frame_size client)
unfolding welcome
welcome-Keeps c rounds opening frame_size client v =
    let start : List ℕ = prepared client.send_buf [] in
    Ensures-bind (SameLength start) (CodeKeeps client)
      (get_handshake_answer c opening.hs start buf_len) _
      (get_handshake_answer-length c opening.hs start buf_len)
      (λ p same.
        let answered : Client = record client { send_buf = p.1 } in
        let k = send_buf-Keeps client p.1 v (same ∙ length-prepared client.send_buf []) in
        Ensures-then (CodeKeeps client) (assert (leb frame_size client.frame_buf_pos)) _ (λ _ _.
          Ensures-bind (Keeps answered) (CodeKeeps client) (consume frame_size answered) _
            (consume-Keeps frame_size answered k.valid)
            (λ consumed h.
              Ensures-bind (SecondKeeps consumed) (CodeKeeps client)
                (send_frame rounds (slice 0 p.0 p.1) consumed) _
                (send_frame-Keeps rounds (slice 0 p.0 p.1) consumed h.valid)
                (λ q g.
                  shaken-Keeps (is_negative q.0) (available q.1)
                    (Keeps-trans (Keeps-trans k h) g)))))

handshake_reply-Keeps :
    (c : Crypto) (rounds : List Round) (opening : Opening) (ty : FrameType) (client : Client)
    → IsValid client
    → Ensures (CodeKeeps client) (handshake_reply c rounds opening ty client)
unfolding handshake_reply
handshake_reply-Keeps c rounds opening error_frame client v = refuse-Keeps rounds client v
handshake_reply-Keeps c rounds opening incomplete_frame client v =
    Ensures-if (CodeKeeps client) (leb buf_len client.frame_buf_pos) _ _
      (λ _. refuse-Keeps rounds client v) (λ _. Keeps-refl v)
handshake_reply-Keeps c rounds opening opening_frame client v =
    Ensures-then (CodeKeeps client) (found opening.frame_length) _
      (λ frame_size _. welcome-Keeps c rounds opening frame_size client v)
handshake_reply-Keeps c rounds opening _ client v = Keeps-refl v

handshake-Keeps :
    (c : Crypto) (read : ReadResult) (rounds : List Round) (client : Client)
    → IsValid client
    → Fits read client
    → Ensures (CodeKeeps client) (handshake c read rounds client)
unfolding handshake
handshake-Keeps c want_read rounds client v fits = Keeps-refl v
handshake-Keeps c failed rounds client v fits = Keeps-refl v
handshake-Keeps c at_end rounds client v fits = Keeps-refl v
handshake-Keeps c (got bytes) rounds client v fits =
    let k = append_input-Keeps bytes client v fits in
    let read : Client = append_input bytes client in
    let frame_buf : List ℕ = set read.frame_buf read.frame_buf_pos 0 in
    let ended : Client = record read { frame_buf = frame_buf } in
    let h =
      with_buffers read frame_buf read.send_buf read.frame_buf_pos k.valid
        (length-set read.frame_buf read.frame_buf_pos 0) refl k.valid.within in
    Ensures-then (CodeKeeps client) (parse_handshake frame_buf null_handshake) _ (λ opening _.
      Ensures-weaken (CodeKeeps ended) (CodeKeeps client) (λ p g. Keeps-trans (Keeps-trans k h) g) _
        (handshake_reply-Keeps c rounds opening opening.frame_type ended h.valid))

-- If Receive comes back, whatever has come in, the client is valid, has the id and the socket that it
-- had, and has shaken hands if it had before.
pub receive-Keeps :
    (c : Crypto) (read : ReadResult) (rounds : List Round) (len : ℕ) (client : Client)
    → IsValid client
    → Fits read client
    → Ensures (KeepsReceived client) (receive c read rounds len client)
unfolding receive receive_handshake
receive-Keeps c read rounds len client v fits =
    Ensures-if (KeepsReceived client) client.handshaked _ _
      (λ _. receive_open-Keeps read len client v fits)
      (λ _.
        Ensures-bind (CodeKeeps client) (KeepsReceived client) (handshake c read rounds client) _
          (handshake-Keeps c read rounds client v fits) (λ p k. k))
