-- ===== src/WebSocket/Handshake/Failures.antt =====
-- cwebsocket/websocket.c: requests that end the process in wsParseHandshake, or write past a block.
use extension_project.Prelude.{
  ℕ, zero, suc, ◌+◌, ◌%◌, ◌<◌, ◌≡◌, refl, ◌∙◌, ap, List, [], ◌∷◌, ◌++◌, All, All-append, length,
  length-append, codes, c_string, if_true, arith, true, word, skip_spaces, lt→ltb,
}
use extension_project.WebSocket.Types.{aborts, corrupts, ◌>>=◌}
use extension_project.WebSocket.Names
use extension_project.WebSocket.Request.{
  Header, host, origin, protocol, key, version, connection, upgrade, other, print_header,
  header_text, request_text, IsClean, IsFine, IsResource,
}
use extension_project.WebSocket.Handshake.{
  Handshake, Flags, no_flags, null_handshake, header_line, header_lines, more_lines,
  parse_handshake, parse_request,
}
use extension_project.WebSocket.Handshake.Lines.{
  get_upto_linefeed-aborts, header-Goes, more_lines-header, after_handshake, after_flags,
}
use extension_project.WebSocket.Handshake.Texts.{
  IsLine, named, IsFine-IsLine, request_end, c_string-request_text, skip_spaces-word, word-append,
  end_of, first_line,
}
use extension_project.WebSocket.Handshake.Requests.{
  opened, closed_by, parse_at, parse_handshake-closed_by, length-headers-lt,
}

-- A value whose length is 0 as a byte, under a name whose value is copied.
abbrev pub IsBad : Header → Type 0
IsBad (host value) = IsClean value × (length value % 256 ≡ 0)
IsBad (origin value) = IsClean value × (length value % 256 ≡ 0)
IsBad (protocol value) = ⊥
IsBad (key value) = IsClean value × (length value % 256 ≡ 0)
IsBad (version value) = IsClean value × (length value % 256 ≡ 0)
IsBad (connection value) = IsClean value × (length value % 256 ≡ 0)
IsBad (upgrade value) = IsClean value × (length value % 256 ≡ 0)
IsBad (other line) = ⊥

IsBad-IsLine : (h : Header) → IsBad h → IsLine h
IsBad-IsLine (host value) b = (named Names.host value (omega arith) b.0, omega arith)
IsBad-IsLine (origin value) b = (named Names.origin value (omega arith) b.0, omega arith)
IsBad-IsLine (protocol value) b = absurd b
IsBad-IsLine (key value) b = (named Names.key value (omega arith) b.0, omega arith)
IsBad-IsLine (version value) b = (named Names.version value (omega arith) b.0, omega arith)
IsBad-IsLine (connection value) b = (named Names.connection value (omega arith) b.0, omega arith)
IsBad-IsLine (upgrade value) b = (named Names.upgrade value (omega arith) b.0, omega arith)
IsBad-IsLine (other line) b = absurd b

header_line-aborts :
    (h : Header) (hs : Handshake) (flags : Flags) (rest : List ℕ)
    → IsBad h
    → header_line hs flags (print_header h ++ 13 ∷ 10 ∷ rest) ≡ aborts
unfolding header_line
header_line-aborts (host value) hs flags rest b = rw (get_upto_linefeed-aborts value rest b.0 b.1)
header_line-aborts (origin value) hs flags rest b = rw (get_upto_linefeed-aborts value rest b.0 b.1)
header_line-aborts (protocol value) hs flags rest b = absurd b
header_line-aborts (key value) hs flags rest b = rw (get_upto_linefeed-aborts value rest b.0 b.1)
header_line-aborts (version value) hs flags rest b =
    rw (get_upto_linefeed-aborts value rest b.0 b.1)
header_line-aborts (connection value) hs flags rest b =
    rw (get_upto_linefeed-aborts value rest b.0 b.1)
header_line-aborts (upgrade value) hs flags rest b =
    rw (get_upto_linefeed-aborts value rest b.0 b.1)
header_line-aborts (other line) hs flags rest b = absurd b

more_lines-bad :
    (h : Header) (rest : List ℕ) → IsBad h → more_lines (print_header h ++ 13 ∷ 10 ∷ rest) ≡ true
more_lines-bad (host value) rest b = refl
more_lines-bad (origin value) rest b = refl
more_lines-bad (protocol value) rest b = absurd b
more_lines-bad (key value) rest b = refl
more_lines-bad (version value) rest b = refl
more_lines-bad (connection value) rest b = refl
more_lines-bad (upgrade value) rest b = refl
more_lines-bad (other line) rest b = absurd b

header_lines-aborts :
    (fuel : ℕ) (front : List Header) (bad : Header) (back : List Header) (hs : Handshake)
    (flags : Flags) (rest : List ℕ)
    → length front < fuel
    → All IsFine front
    → IsBad bad
    → header_lines fuel hs flags (header_text (front ++ bad ∷ back) rest) ≡ aborts
unfolding header_lines
header_lines-aborts zero front bad back hs flags rest enough fine b = absurd (omega arith)
header_lines-aborts (suc fuel) [] bad back hs flags rest enough fine b =
    if_true _ _ (more_lines-bad bad (header_text back rest) b)
    ∙ rw (header_line-aborts bad hs flags (header_text back rest) b)
header_lines-aborts (suc fuel) (h ∷ front) bad back hs flags rest enough fine b =
    if_true _ _ (more_lines-header h (header_text (front ++ bad ∷ back) rest) fine.0)
    ∙ header-Goes (header_lines fuel) hs flags (header_text (front ++ bad ∷ back) rest) h fine.0
    ∙ header_lines-aborts fuel front bad back (after_handshake h hs) (after_flags h flags) rest
        (omega arith) fine.1 b

-- A request with an empty value behind one of the six names whose value is copied, or with a value of
-- 256 bytes or a multiple of that, ends the process at an assertion, wherever the line stands and
-- whatever stands behind the request; the lines in front of it are fine, and those behind are lines.
pub parse_handshake-aborts :
    (resource : List ℕ) (front : List Header) (bad : Header) (back : List Header) (rest : List ℕ)
    → IsResource resource
    → All IsFine front
    → IsBad bad
    → All IsLine back
    → parse_handshake (request_text resource (front ++ bad ∷ back) rest) null_handshake ≡ aborts
parse_handshake-aborts resource front bad back rest r fine b lines =
    let headers : List Header = front ++ bad ∷ back in
    parse_handshake-closed_by resource headers r rest
      (All-append front (bad ∷ back) IsLine (IsBad-IsLine bad b, lines) (IsFine-IsLine front fine))
    ∙ ap (λ m. m >>= closed_by (length (request_text resource headers [])))
        (header_lines-aborts (suc (length (request_text resource headers (c_string rest)))) front
          bad back (opened resource) no_flags (c_string rest)
          (omega (
            arith,
            length-append front (bad ∷ back),
            length-headers-lt resource headers r (c_string rest),
          ))
          fine b)

-- A request with two spaces in front of its resource gets a block of one byte for it, and the resource
-- is written past its end.
pub parse_handshake-corrupts :
    (resource : List ℕ) (headers : List Header) (rest : List ℕ)
    → IsResource resource
    → All IsLine headers
    → parse_handshake (request_text (32 ∷ resource) headers rest) null_handshake ≡ corrupts
unfolding parse_request
parse_handshake-corrupts resource headers rest r lines =
    let behind : List ℕ = codes " HTTP/1.1" ++ 13 ∷ 10 ∷ header_text headers (c_string rest) in
    let clean : IsClean (32 ∷ resource) = named (32 ∷ []) resource (omega arith) r.clean in
    let named_so : word (skip_spaces (resource ++ behind)) ≡ resource =
      ap word (skip_spaces-word resource behind r.no_space r.some_text)
      ∙ word-append resource _ r.no_space in
    parse_at (request_text (32 ∷ resource) headers rest)
      (request_text (32 ∷ resource) headers (c_string rest))
      (length (first_line (32 ∷ resource)) + end_of headers) 0 null_handshake
      (c_string-request_text (32 ∷ resource) headers rest clean lines)
      (request_end (32 ∷ resource) headers (c_string rest) clean lines) refl refl
    ∙ rw (named_so, lt→ltb 0 (length resource) r.some_text)
