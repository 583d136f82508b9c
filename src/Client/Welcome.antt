-- ===== src/Client/Welcome.antt =====
-- Client::Handshake on an opening request that has come in: the answer, and what stays.
pub mod Input
pub mod Refusals
pub mod Reply
use extension_project.Prelude.{
  ℕ, zero, suc, ◌+◌, ◌-◌, ◌≤◌, ◌<◌, ◌≡◌, refl, sym, ◌∙◌, ap, subst, List, [], ◌∷◌, ◌++◌, All, some,
  none, true, false, length, length-append, append_assoc, take, drop, set, take-append, drop-append,
  take-append-drop, overwrite-append, codes, take-write_at, drop-drop, arith, write_at,
  length-write_at, length-set, le→leb, ltb, if_true, if◌then◌else◌, if_false, pos, replicate,
}
use extension_project.WebSocket.Handshake.Rule.{is_taken}
use extension_project.WebSocket.Types.{
  returns, found, ◌>>=◌, opening_frame, error_frame, write_into,
}
use extension_project.WebSocket.Request.{
  Header, header_text, request_text, response_text, print_header, IsFine, IsResource, last_key,
}
use extension_project.WebSocket.Handshake.{Handshake, null_handshake, Opening, parse_handshake}
use extension_project.WebSocket.Handshake.Accepts.{Parses, parse_handshake-Parses}
use extension_project.WebSocket.Answer.{Crypto, get_handshake_answer}
use extension_project.WebSocket.Answer.Keys.{
  accept_of, length-response_text, get_handshake_answer_lem,
}
use extension_project.WebSocket.Frame.{slice}
use extension_project.Client.{
  Client, buf_len, send_buf_len, Round, ReadResult, got, to_write, write_rounds, send_frame,
  consume, append_input, prepared, bad_request, handshake_succeed, handshake_failed,
  waiting_for_more_data, Code, available, is_error, code_value, read_succeed,
  read_succeed_data_available,
}
use extension_project.Client.Buffer.{
  IsValid, pending, length-pending, append_input-pending, consume-pending,
}
use extension_project.Client.Sending.{send_frame-sent}
use extension_project.WebSocket.Ensures.{Ensures, Ensures-then, Ensures-returns}
use extension_project.Client.Keeps.{Keeps, send_buf-Keeps, consume-Keeps}
use extension_project.Client.Keeps.Input.{length-prepared}
use extension_project.Client.Receive.{
  Received, receive, receive_handshake, handshake, handshake_reply, welcome, refuse,
}

header_text-append :
    (headers : List Header) (rest other : List ℕ)
    → header_text headers (rest ++ other) ≡ header_text headers rest ++ other
header_text-append [] rest other = refl
header_text-append (h ∷ headers) rest other =
    ap (λ t. print_header h ++ 13 ∷ 10 ∷ t) (header_text-append headers rest other)
    ∙ sym (append_assoc (print_header h) (13 ∷ 10 ∷ header_text headers rest) other)

pub request_text-append :
    (resource : List ℕ) (headers : List Header) (rest other : List ℕ)
    → request_text resource headers (rest ++ other) ≡ request_text resource headers rest ++ other
request_text-append resource headers rest other =
    ap (λ t. codes "GET " ++ (resource ++ (codes " HTTP/1.1" ++ 13 ∷ 10 ∷ t)))
      (header_text-append headers rest other)
    ∙ ap (λ t. codes "GET " ++ t)
        (sym
          (append_assoc resource (codes " HTTP/1.1" ++ 13 ∷ 10 ∷ header_text headers rest) other))

-- A 0 behind the input.
pub set-take :
    (n : ℕ) (buf : List ℕ) → n < length buf → set buf n 0 ≡ take n buf ++ 0 ∷ drop (suc n) buf
set-take n [] h = absurd (omega arith)
set-take zero (b ∷ buf) h = refl
set-take (suc n) (b ∷ buf) h = ap (◌∷◌ b) (set-take n buf (omega arith))

pub take-set : (n : ℕ) (buf : List ℕ) → take n (set buf n 0) ≡ take n buf
take-set zero buf = refl
take-set (suc n) [] = refl
take-set (suc n) (b ∷ buf) = ap (◌∷◌ b) (take-set n buf)

consume-sent :
    (n : ℕ) (client client' : Client)
    → consume n client ≡ returns client'
    → client'.sent ≡ client.sent
unfolding consume
consume-sent n client client' e =
    let same : Ensures (λ (c : Client). c.sent ≡ client.sent) (consume n client) =
      Ensures-then (λ (c : Client). c.sent ≡ client.sent) (write_into client.frame_buf_pos n) _
        (λ _ _. refl) in
    Ensures-returns (λ (c : Client). c.sent ≡ client.sent) (consume n client) client' same e

-- What is sent of the buffer that the answer is written to.
slice-answer :
    (buf text : List ℕ) (n : ℕ)
    → length text ≡ n
    → length (text ++ 0 ∷ []) ≤ length buf
    → slice 0 n (write_at buf 0 (text ++ 0 ∷ [])) ≡ text
slice-answer buf text n e room =
    ap (take n) (
      overwrite-append buf (text ++ 0 ∷ []) room
      ∙ append_assoc text (0 ∷ []) (drop (length (text ++ 0 ∷ [])) buf))
    ∙ ap (λ k. take k (text ++ 0 ∷ drop (length (text ++ 0 ∷ [])) buf)) (sym e)
    ∙ take-append text (0 ∷ drop (length (text ++ 0 ∷ [])) buf)

-- What Handshake makes of a client whose input is a request with `rest` behind it.
pub record IsWelcome (text rest : List ℕ) (client client' : Client) : Type 0 where
  pub rest_stays : pending client' ≡ rest
  pub valid : IsValid client'
  pub answered : client'.sent ≡ client.sent ++ text ∷ []
  pub id : client'.id ≡ client.id

pub available_no_error : (client : Client) → is_error (available client) ≡ false
unfolding is_error code_value
available_no_error client =
    elim (ltb 0 client.frame_buf_pos)
      as (λ more. is_error (if more then read_succeed_data_available else read_succeed) ≡ false) [
        | true ↦ refl
        | false ↦ refl
      ]

pub welcome_lem :
    (c : Crypto) (rounds : List Round) (opening : Opening) (key frame rest : List ℕ)
    (client : Client)
    → IsValid client
    → pending client ≡ frame ++ rest
    → opening.hs.frame_type ≡ opening_frame
    → opening.hs.key ≡ some key
    → length key ≤ 219
    → write_rounds to_write rounds ≡ returns true
    → (client' : Client) × (welcome c rounds opening (length frame) client
        ≡ returns (available client', record client' { handshaked = true }))
      × IsWelcome (response_text (accept_of c key)) rest client client'
unfolding welcome
welcome_lem c rounds opening key frame rest client v there opens keyed short taken =
    let text : List ℕ = response_text (accept_of c key) in
    let size = length-response_text c key in
    let start : List ℕ = prepared client.send_buf [] in
    let same = length-prepared client.send_buf [] in
    let buf : List ℕ = write_at start 0 (text ++ 0 ∷ []) in
    let answered : Client = record client { send_buf = buf } in
    let k = send_buf-Keeps client buf v (length-write_at start 0 (text ++ 0 ∷ []) ∙ same) in
    let fits : length frame ≤ client.frame_buf_pos =
      omega (arith, length-pending v, ap length there, length-append frame rest) in
    let (consumed, is_consumed, left, valid, place) = consume-pending (length frame) k.valid fits in
    let h =
      Ensures-returns (Keeps answered) (consume (length frame) answered) consumed
        (consume-Keeps (length frame) answered k.valid) is_consumed in
    let sent = consume-sent (length frame) answered consumed is_consumed in
    let written : slice 0 129 buf ≡ text =
      slice-answer start text 129 size (omega (arith, length-append text (0 ∷ []), v.send_size)) in
    let client' : Client = record consumed { sent = consumed.sent ++ text ∷ [] } in
    (
      client',
      rw
          (
            (get_handshake_answer_lem c opening.hs key start buf_len opens keyed).0 short
                (omega arith),
            le→leb (length frame) client.frame_buf_pos fits,
            is_consumed,
            written,
            send_frame-sent rounds text consumed taken,
          )
          refl,
      record {
        rest_stays = left ∙ ap (drop (length frame)) there ∙ drop-append frame rest;
        valid = record {
          frame_size = valid.frame_size;
          send_size = valid.send_size;
          within = valid.within;
        };
        answered = ap (λ l. l ++ text ∷ []) sent;
        id = h.id;
      },
    )
