-- ===== src/Client/Welcome/Reply.antt =====
-- Client::Receive on a connection that has not shaken hands: an opening request that has come in.
use extension_project.Prelude.{
  ℕ, ◌+◌, ◌≤◌, ◌≡◌, refl, sym, ◌∙◌, ap, List, [], ◌∷◌, ◌++◌, All, some, none, true, false, length,
  append_assoc, if_true, if◌then◌else◌, if_false,
}
use extension_project.WebSocket.Handshake.Rule.{is_taken}
use extension_project.WebSocket.Types.{returns, found, ◌>>=◌, opening_frame}
use extension_project.WebSocket.Request.{
  Header, request_text, response_text, IsFine, IsResource, last_key,
}
use extension_project.WebSocket.Handshake.{null_handshake, Opening, parse_handshake}
use extension_project.WebSocket.Handshake.Accepts.{Parses, parse_handshake-Parses}
use extension_project.WebSocket.Answer.{Crypto}
use extension_project.WebSocket.Answer.Keys.{accept_of}
use extension_project.Client.{
  Client, buf_len, Round, got, to_write, write_rounds, handshake_succeed, handshake_failed,
  available,
}
use extension_project.Client.Buffer.{IsValid, pending}
use extension_project.Client.Receive.{Received, receive, handshake, handshake_reply, welcome}
use extension_project.Client.Welcome.{
  request_text-append, IsWelcome, welcome_lem, available_no_error,
}
use extension_project.Client.Welcome.Input.{
  ended, ended-others, ended-IsValid, ended-pending, ended-frame_buf, handshake-ended,
  receive_reply,
}
use extension_project.WebSocket.Types.{error_frame}
use extension_project.Client.Welcome.Refusals.{IsRefused, refused_lem}

module _ (c : Crypto) (rounds : List Round) (client : Client) (v : IsValid client)
    (bytes resource rest : List ℕ) (headers : List Header)
    (fits : client.frame_buf_pos + length bytes ≤ buf_len)
    (there : pending client ++ bytes ≡ request_text resource headers [] ++ rest)
    (named : IsResource resource) (fine : All IsFine headers) where
  ended-Parses :
      (o : Opening) × (parse_handshake (ended client bytes).frame_buf null_handshake ≡ returns o)
      × Parses resource headers o
  ended-Parses =
      let (other, whole) = ended-frame_buf client bytes v fits in
      let (o, is_o, parses) =
        parse_handshake-Parses resource headers (rest ++ 0 ∷ other) named fine in
      let buf : (ended client bytes).frame_buf ≡ request_text resource headers (rest ++ 0 ∷ other) =
        whole
        ∙ ap (λ p. p ++ 0 ∷ other) there
        ∙ append_assoc (request_text resource headers []) rest (0 ∷ other)
        ∙ sym (request_text-append resource headers [] (rest ++ 0 ∷ other)) in
      (o, ap (λ b. parse_handshake b null_handshake) buf ∙ is_o, parses)

  -- A valid client that has not shaken hands, and whose input with what SSL_read adds to it is a request
  -- with `rest` behind it, is welcomed, if the request is one that the server takes (is_taken: a host, a
  -- key, a connection with "upgrade", an upgrade to "websocket", no subprotocol and no version other
  -- than "13..."), its values have 1 to 255 bytes and its key at most 219, and SSL_write takes the
  -- answer: Receive tells that the handshake succeeded, exactly the answer that RFC 6455 has for the
  -- request's last key has been sent, and the rest of the input stays.
  pub receive-IsWelcome :
      (key : List ℕ) (len : ℕ)
      → client.handshaked ≡ false
      → is_taken headers ≡ true
      → last_key headers ≡ some key
      → length key ≤ 219
      → write_rounds to_write rounds ≡ returns true
      → (r : Received) × (receive c (got bytes) rounds len client ≡ returns r)
        × (r.code ≡ handshake_succeed)
        × (r.message ≡ none)
        × (r.client.handshaked ≡ true)
        × IsWelcome (response_text (accept_of c key)) rest client r.client
  unfolding handshake_reply
  receive-IsWelcome key len new opens keyed short taken =
      let (o, is_o, p) = ended-Parses in
      let is_opening : o.frame_type ≡ opening_frame = p.frame_type ∙ if_true _ _ opens in
      let (client', welcomed, w) =
        welcome_lem c rounds o key (request_text resource headers []) rest (ended client bytes)
          (ended-IsValid client bytes v fits) (ended-pending client bytes v fits ∙ there)
          (p.same_type ∙ is_opening) (p.key_kept ∙ keyed) short taken in
      let reply : handshake c (got bytes) rounds client
          ≡ returns (available client', record client' { handshaked = true }) =
        handshake-ended c rounds client bytes o is_o
        ∙ ap (λ ty. handshake_reply c rounds o ty (ended client bytes)) is_opening
        ∙ ap (λ n. found n >>= λ n. welcome c rounds o n (ended client bytes)) p.frame_length
        ∙ welcomed in
      (
        record {
          code = handshake_succeed;
          client = record client' { handshaked = true };
          message = none;
        },
        receive_reply c rounds client bytes (available client')
              (record client' { handshaked = true }) len new reply
            ∙ ap
                (λ e. returns (record {
                  code = if e then handshake_failed else handshake_succeed;
                  client = record client' { handshaked = true };
                  message = none;
                }))
                (available_no_error client'),
        refl,
        refl,
        refl,
        record {
          rest_stays = w.rest_stays;
          valid = record {
            frame_size = w.valid.frame_size;
            send_size = w.valid.send_size;
            within = w.valid.within;
          };
          answered =
              w.answered
              ∙ ap (λ l. l ++ response_text (accept_of c key) ∷ []) (ended-others client bytes).0;
          id = w.id ∙ (ended-others client bytes).1;
        },
      )

  -- If its values have 1 to 255 bytes but the request is not one that the server takes (is_taken: it has
  -- no host, no key, no connection with "upgrade", no upgrade to "websocket", or has a subprotocol
  -- or a version that does not begin with "13"), and SSL_write takes the answer, the client is refused:
  -- Receive tells that the handshake failed, the answer 400 has been sent and nothing else, and the
  -- client still has not shaken hands.
  pub receive-IsRefused :
      (len : ℕ)
      → client.handshaked ≡ false
      → is_taken headers ≡ false
      → write_rounds to_write rounds ≡ returns true
      → (r : Received) × (receive c (got bytes) rounds len client ≡ returns r) × IsRefused client r
  unfolding handshake_reply
  receive-IsRefused len new opens taken =
      let (o, is_o, p) = ended-Parses in
      let is_error : o.frame_type ≡ error_frame = p.frame_type ∙ if_false _ _ opens in
      refused_lem c rounds client bytes len new taken (
        handshake-ended c rounds client bytes o is_o
        ∙ ap (λ ty. handshake_reply c rounds o ty (ended client bytes)) is_error)
