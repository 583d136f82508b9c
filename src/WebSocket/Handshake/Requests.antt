-- ===== src/WebSocket/Handshake/Requests.antt =====
-- cwebsocket/websocket.c: wsParseHandshake on the text of an opening request.
use extension_project.Prelude.{
  ℕ, suc, ◌+◌, ◌<◌, ◌≡◌, refl, ◌∙◌, ap, true, false, some, List, [], ◌∷◌, ◌++◌, All, length, codes,
  starts_with, find_text, c_string, skip_spaces, word, length-append, arith, drop, ◌==◌,
  le→ltb_false, ne→==,
}
use extension_project.WebSocket.Types.{Run, returns, ◌>>=◌}
use extension_project.WebSocket.Request.{Header, header_text, request_text, IsResource}
use extension_project.WebSocket.Handshake.{
  Handshake, Flags, no_flags, null_handshake, Opening, header_lines, next_line, parse_request,
  parse_handshake, verdict,
}
use extension_project.WebSocket.Handshake.Lines.{next_line_lem}
use extension_project.WebSocket.Handshake.Texts.{
  ending, end_of, IsLine, skip_spaces-word, word-append, find_space, length-headers, first_line,
  request_lines, first_line-IsClean, request_end, c_string-request_text, length-request_text,
}

pub parse_at :
    (input text : List ℕ) (n room : ℕ) (hs : Handshake)
    → c_string input ≡ text
    → find_text text ending ≡ some n
    → starts_with text (codes "GET ") ≡ true
    → find_text (drop 4 text) (32 ∷ []) ≡ some room
    → parse_handshake input hs ≡ parse_request text (n + 4) room hs
unfolding parse_handshake
parse_at input text n room hs is_text end get space =
    let end' : find_text (c_string input) ending ≡ some n =
      ap (λ t. find_text t ending) is_text ∙ end in
    let get' : starts_with (c_string input) (codes "GET ") ≡ true =
      ap (λ t. starts_with t (codes "GET ")) is_text ∙ get in
    let space' : find_text (drop 4 (c_string input)) (32 ∷ []) ≡ some room =
      ap (λ t. find_text (drop 4 t) (32 ∷ [])) is_text ∙ space in
    rw (parse_handshake, end', get', space') (ap (λ t. parse_request t (n + 4) room hs) is_text)

-- What is left behind the loop.
abbrev pub closed_by : ℕ → Handshake × Flags → Run Opening
closed_by frame_length out = returns (record {
  frame_type = verdict out.0 out.1;
  hs = record out.0 { frame_type = verdict out.0 out.1 };
  frame_length = some frame_length;
})

abbrev pub opened : List ℕ → Handshake
opened resource = record null_handshake { resource = some resource }

module _ (resource : List ℕ) (headers : List Header) (r : IsResource resource) where
  parse_request-closed_by :
      (rest : List ℕ) (frame_length : ℕ)
      → parse_request
          (request_text resource headers rest)
          frame_length
          (length resource)
          null_handshake
        ≡ (header_lines
              (suc (length (request_text resource headers rest)))
              (opened resource)
              no_flags
              (header_text headers rest)
            >>= closed_by frame_length)
  unfolding parse_request
  parse_request-closed_by rest frame_length =
      let behind : List ℕ = codes " HTTP/1.1" ++ 13 ∷ 10 ∷ header_text headers rest in
      let named_so : word (skip_spaces (resource ++ behind)) ≡ resource =
        ap word (skip_spaces-word resource behind r.no_space r.some_text)
        ∙ word-append resource _ r.no_space in
      let line : next_line (request_text resource headers rest)
          ≡ returns (header_text headers rest) =
        ap next_line (request_lines resource headers rest)
        ∙ next_line_lem (first_line resource) (header_text headers rest)
            (first_line-IsClean resource r.clean) in
      let not_empty : (length resource == 0) ≡ false =
        ne→== (length resource) 0 (omega (arith, r.some_text)) in
      rw (named_so, le→ltb_false (length resource) (length resource) (omega arith), not_empty, line)

  -- wsParseHandshake on a request, whatever stands behind it, comes to its loop over the lines.
  pub parse_handshake-closed_by :
      (rest : List ℕ)
      → All IsLine headers
      → parse_handshake (request_text resource headers rest) null_handshake ≡ (
          header_lines
            (suc (length (request_text resource headers (c_string rest))))
            (opened resource)
            no_flags
            (header_text headers (c_string rest))
          >>= closed_by (length (request_text resource headers [])))
  parse_handshake-closed_by rest lines =
      let text : List ℕ = request_text resource headers (c_string rest) in
      let n : ℕ = length (first_line resource) + end_of headers in
      let space : find_text (drop 4 text) (32 ∷ []) ≡ some (length resource) =
        find_space resource _ r.no_space in
      parse_at (request_text resource headers rest) text n (length resource) null_handshake
        (c_string-request_text resource headers rest r.clean lines)
        (request_end resource headers (c_string rest) r.clean lines) refl space
      ∙ parse_request-closed_by (c_string rest) (n + 4)
      ∙ ap
          (λ m.
            header_lines (suc (length text)) (opened resource) no_flags
              (header_text headers (c_string rest))
            >>= closed_by m)
          (let e : n + 4 ≡ length (request_text resource headers []) =
              omega (arith, length-request_text resource headers) in
            e)

  pub length-headers-lt :
      (rest : List ℕ) → length headers < suc (length (request_text resource headers rest))
  length-headers-lt rest = omega (
    arith,
    length-headers headers rest,
    length-append resource (codes " HTTP/1.1" ++ 13 ∷ 10 ∷ header_text headers rest),
  )
