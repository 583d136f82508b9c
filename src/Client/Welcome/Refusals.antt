-- ===== src/Client/Welcome/Refusals.antt =====
-- Client::Handshake: the refusal, and an opening request that has not come in as a whole.
use extension_project.Prelude.{
  ℕ, ◌+◌, ◌≤◌, ◌≡◌, refl, ◌∙◌, ap, List, [], ◌∷◌, ◌++◌, All, none, true, false, length, arith,
  if_true, if◌then◌else◌, if_false,
}
use extension_project.WebSocket.Types.{returns}
use extension_project.WebSocket.Handshake.{null_handshake, Opening, parse_handshake}
use extension_project.WebSocket.Answer.{Crypto}
use extension_project.Client.{
  Client, buf_len, Round, got, to_write, write_rounds, append_input, handshake_succeed,
  handshake_failed, waiting_for_more_data, is_error,
}
use extension_project.Client.Buffer.{IsValid, pending}
use extension_project.Client.Receive.{Received, receive, handshake, handshake_reply}
use extension_project.Client.Welcome.Input.{
  ended, ended-IsValid, ended-pending, ended-frame_buf, handshake-ended, receive_reply,
}
use extension_project.WebSocket.Types.{incomplete_frame}
use extension_project.WebSocket.Handshake.Texts.{ending, c_string-append}
use extension_project.Prelude.{find_text, c_string, ◌≢◌, append-nil, ◌<◌, if_true, le→leb, leb}
use extension_project.Client.{invalid_frame, bad_request, prepared, code_value}
use extension_project.Client.Receive.{refuse}
use extension_project.Client.Sending.{send_frame-sent}

-- What Receive leaves of a client that is refused.
pub record IsRefused (client : Client) (r : Received) : Type 0 where
  pub code : r.code ≡ handshake_failed
  pub message : r.message ≡ none
  pub not_shaken : r.client.handshaked ≡ false
  pub answered : r.client.sent ≡ client.sent ++ bad_request ∷ []

parse_handshake-incomplete_frame :
    (input : List ℕ)
    → find_text (c_string input) ending ≡ none
    → parse_handshake input null_handshake
      ≡ returns (record { frame_type = incomplete_frame; hs = null_handshake; frame_length = none })
unfolding parse_handshake
parse_handshake-incomplete_frame input e = rw (parse_handshake, e)

module _ (c : Crypto) (rounds : List Round) (client : Client) (bytes : List ℕ) (len : ℕ)
    (new : client.handshaked ≡ false) where
  pub refused_lem :
      write_rounds to_write rounds ≡ returns true
      → handshake c (got bytes) rounds client ≡ refuse rounds (ended client bytes)
      → (r : Received) × (receive c (got bytes) rounds len client ≡ returns r) × IsRefused client r
  unfolding refuse append_input is_error code_value
  refused_lem taken e =
      let answered : Client = record (ended client bytes) {
        send_buf = prepared client.send_buf bad_request;
      } in
      let client' : Client = record answered { sent = client.sent ++ bad_request ∷ [] } in
      (
        record { code = handshake_failed; client = client'; message = none },
        receive_reply c rounds client bytes invalid_frame client' len new
            (e ∙ rw (send_frame-sent rounds bad_request answered taken) refl),
        record { code = refl; message = refl; not_shaken = new; answered = refl },
      )

  -- A valid client that has not shaken hands sends a part of a request: the input with what SSL_read
  -- adds to it has no 0 and no empty line. While the buffer is not full, Receive waits for more, with
  -- all of the input kept and nothing sent; when it is full, the client is refused, if SSL_write takes
  -- the answer.
  pub receive_waits :
      IsValid client
      → client.frame_buf_pos + length bytes ≤ buf_len
      → All (λ b. b ≢ 0) (pending client ++ bytes)
      → find_text (pending client ++ bytes) ending ≡ none
      → (client.frame_buf_pos + length bytes < buf_len
          → (client' : Client) × (receive c (got bytes) rounds len client
              ≡ returns (record { code = waiting_for_more_data; client = client'; message = none }))
            × (pending client' ≡ pending client ++ bytes)
            × IsValid client'
            × (client'.sent ≡ client.sent)
            × (client'.handshaked ≡ false))
        × (client.frame_buf_pos + length bytes ≡ buf_len
            → write_rounds to_write rounds ≡ returns true
            → (r : Received) × (receive c (got bytes) rounds len client ≡ returns r)
              × IsRefused client r)
  unfolding handshake_reply append_input is_error code_value
  receive_waits v fits clean no_end =
      let (other, whole) = ended-frame_buf client bytes v fits in
      let text : c_string (ended client bytes).frame_buf ≡ pending client ++ bytes =
        ap c_string whole
        ∙ c_string-append (pending client ++ bytes) (0 ∷ other) clean
        ∙ append-nil (pending client ++ bytes) in
      let o : Opening = record {
        frame_type = incomplete_frame;
        hs = null_handshake;
        frame_length = none;
      } in
      let is_o : parse_handshake (ended client bytes).frame_buf null_handshake ≡ returns o =
        parse_handshake-incomplete_frame (ended client bytes).frame_buf
          (ap (λ t. find_text t ending) text ∙ no_end) in
      let reply = handshake-ended c rounds client bytes o is_o in
      let waits : client.frame_buf_pos + length bytes < buf_len
          → leb buf_len (client.frame_buf_pos + length bytes) ≡ false =
        λ room. ground arith in
      (
        (λ room. (
          ended client bytes,
          receive_reply c rounds client bytes waiting_for_more_data (ended client bytes) len new
                (reply ∙ if_false _ _ (waits room))
              ∙ ap
                  (λ shaken. returns (record {
                    code = if shaken then handshake_succeed else waiting_for_more_data;
                    client = ended client bytes;
                    message = none;
                  }))
                  new,
          ended-pending client bytes v fits,
          ended-IsValid client bytes v fits,
          refl,
          new,
        )),
        (λ full taken. refused_lem taken (
            reply
            ∙ if_true _ _ (le→leb buf_len (client.frame_buf_pos + length bytes) (omega arith)))),
      )
