-- ===== src/WebSocket/Handshake/Lines.antt =====
-- cwebsocket/websocket.c: the loop of wsParseHandshake over the header lines, on a text of lines.
use extension_project.Prelude.{
  ℕ, zero, suc, ◌+◌, ◌%◌, ◌<◌, ◌≡◌, ◌≢◌, refl, sym, ◌∙◌, ap, true, ◌&&◌, none, some, List, [], ◌∷◌,
  ◌++◌, All, length, starts_with, find_text, to_lower, arith, drop, take-append, drop-append,
  drop-drop, if◌then◌else◌, ◌==◌, lt→ltb, if_true,
}
use mathlib.Core.List.{map}
use extension_project.WebSocket.Types.{Run, returns, aborts, ◌>>=◌}
use extension_project.WebSocket.Names
use extension_project.WebSocket.Names.{upgrade_word, websocket_word, version_word, crlf}
use extension_project.WebSocket.Request.{
  Header, host, origin, protocol, key, version, connection, upgrade, other, print_header,
  header_text, IsClean, IsValue, IsOther, IsFine,
}
use extension_project.WebSocket.Handshake.{
  Handshake, Flags, get_upto_linefeed, header_line, next_line, more_lines, header_lines,
}

-- A pattern is not found before its first byte.
pub find_text-skip :
    (front text : List ℕ) (p : ℕ) (pattern : List ℕ) (n : ℕ)
    → All (λ b. b ≢ p) front
    → find_text text (p ∷ pattern) ≡ some n
    → find_text (front ++ text) (p ∷ pattern) ≡ some (length front + n)
find_text-skip [] text p pattern n h e = e ∙ ap some (omega arith)
find_text-skip (b ∷ front) text p pattern n h e =
    ground (arith, h.0, find_text-skip front text p pattern n h.1 e)

pub no_cr : (text : List ℕ) → IsClean text → All (λ b. b ≢ 13) text
no_cr [] h = tt
no_cr (b ∷ text) h = (h.0.1, no_cr text h.1)

pub find_text-crlf :
    (text rest : List ℕ)
    → IsClean text
    → find_text (text ++ 13 ∷ 10 ∷ rest) crlf ≡ some (length text)
find_text-crlf text rest h =
    find_text-skip text (13 ∷ 10 ∷ rest) 13 (10 ∷ []) 0 (no_cr text h) refl ∙ ap some (omega arith)

-- The value up to the line feed is taken if its length, as a byte, is not 0.
pub get_upto_linefeed-value :
    (value rest : List ℕ)
    → IsValue value
    → get_upto_linefeed (value ++ 13 ∷ 10 ∷ rest) ≡ returns value
unfolding get_upto_linefeed
get_upto_linefeed-value value rest v =
    let small : length value % 256 ≡ length value = omega (arith, v.fits) in
    rw (find_text-crlf value rest v.clean, small, lt→ltb 0 (length value) v.some_text)
      (ap returns (take-append value (13 ∷ 10 ∷ rest)))

-- An empty value, or one of a multiple of 256 bytes, ends the process.
pub get_upto_linefeed-aborts :
    (value rest : List ℕ)
    → IsClean value
    → length value % 256 ≡ 0
    → get_upto_linefeed (value ++ 13 ∷ 10 ∷ rest) ≡ aborts
unfolding get_upto_linefeed
get_upto_linefeed-aborts value rest clean e = rw (find_text-crlf value rest clean, e)

pub next_line_lem :
    (text rest : List ℕ) → IsClean text → next_line (text ++ 13 ∷ 10 ∷ rest) ≡ returns rest
unfolding next_line
next_line_lem text rest h = rw (find_text-crlf text rest h) (
    ap returns (
      sym (drop-drop (length text) 2 (length text + 2) (text ++ 13 ∷ 10 ∷ rest) refl)
      ∙ ap (drop 2) (drop-append text (13 ∷ 10 ∷ rest))))

-- What a header line leaves of the handshake and the flags.
abbrev pub after_handshake : Header → Handshake → Handshake
after_handshake (host value) hs = record hs { host = some value }
after_handshake (origin value) hs = record hs { origin = some value }
after_handshake (key value) hs = record hs { key = some value }
after_handshake _ hs = hs

abbrev pub after_flags : Header → Flags → Flags
after_flags (protocol value) flags = record flags { subprotocol = true }
after_flags (version value) flags =
    if starts_with value version_word then flags else record flags { version_mismatch = true }
after_flags (connection value) flags = elim (find_text (map to_lower value) upgrade_word) [
  | none ↦ flags
  | some at ↦ record flags { connection = true }
]
after_flags (upgrade value) flags =
    if starts_with (map to_lower value) websocket_word
    then record flags { upgrade = true }
    else flags
after_flags _ flags = flags

abbrev pub Rest : Type 0
Rest = Handshake → Flags → List ℕ → Run (Handshake × Flags)

-- The body of the loop, with what comes behind it.
abbrev pub round : Rest → Handshake → Flags → List ℕ → Run (Handshake × Flags)
round again hs flags input = header_line hs flags input >>= λ scan.
    next_line scan.input >>= λ input'. again scan.hs scan.flags input'

module _ (again : Rest) (hs : Handshake) (flags : Flags) (rest : List ℕ) where
  abbrev pub Goes : Header → Type 0
  Goes h =
      round again hs flags (print_header h ++ 13 ∷ 10 ∷ rest)
      ≡ again (after_handshake h hs) (after_flags h flags) rest

  host-Goes : (value : List ℕ) → IsValue value → Goes (host value)
  unfolding header_line
  host-Goes value v = rw (get_upto_linefeed-value value rest v, next_line_lem value rest v.clean)

  origin-Goes : (value : List ℕ) → IsValue value → Goes (origin value)
  unfolding header_line
  origin-Goes value v = rw (get_upto_linefeed-value value rest v, next_line_lem value rest v.clean)

  protocol-Goes : (value : List ℕ) → IsClean value → Goes (protocol value)
  unfolding header_line
  protocol-Goes value clean = rw (next_line_lem value rest clean)

  key-Goes : (value : List ℕ) → IsValue value → Goes (key value)
  unfolding header_line
  key-Goes value v = rw (get_upto_linefeed-value value rest v, next_line_lem value rest v.clean)

  version-Goes : (value : List ℕ) → IsValue value → Goes (version value)
  unfolding header_line
  version-Goes value v = rw (get_upto_linefeed-value value rest v, next_line_lem value rest v.clean)

  connection-Goes : (value : List ℕ) → IsValue value → Goes (connection value)
  unfolding header_line
  connection-Goes value v =
      rw (get_upto_linefeed-value value rest v, next_line_lem value rest v.clean)

  upgrade-Goes : (value : List ℕ) → IsValue value → Goes (upgrade value)
  unfolding header_line
  upgrade-Goes value v = rw (get_upto_linefeed-value value rest v, next_line_lem value rest v.clean)

  -- What a name begins with is in the line itself.
  starts_with-line :
      (line name : List ℕ)
      → All (λ b. b ≢ 13) name
      → starts_with (line ++ 13 ∷ 10 ∷ rest) name ≡ starts_with line name
  starts_with-line [] [] h = refl
  starts_with-line [] (p ∷ name) h = ground (arith, h.0)
  starts_with-line (b ∷ line) [] h = refl
  starts_with-line (b ∷ line) (p ∷ name) h = ap (λ t. b == p && t) (starts_with-line line name h.1)

  other-Goes : (line : List ℕ) → IsOther line → Goes (other line)
  unfolding header_line
  other-Goes line o = rw (
    starts_with-line line Names.host (omega arith) ∙ o.no_host,
    starts_with-line line Names.origin (omega arith) ∙ o.no_origin,
    starts_with-line line Names.protocol (omega arith) ∙ o.no_protocol,
    starts_with-line line Names.key (omega arith) ∙ o.no_key,
    starts_with-line line Names.version (omega arith) ∙ o.no_version,
    starts_with-line line Names.connection (omega arith) ∙ o.no_connection,
    starts_with-line line Names.upgrade (omega arith) ∙ o.no_upgrade,
    next_line_lem line rest o.clean,
  )

  pub header-Goes : (h : Header) → IsFine h → Goes h
  header-Goes (host value) v = host-Goes value v
  header-Goes (origin value) v = origin-Goes value v
  header-Goes (protocol value) v = protocol-Goes value v
  header-Goes (key value) v = key-Goes value v
  header-Goes (version value) v = version-Goes value v
  header-Goes (connection value) v = connection-Goes value v
  header-Goes (upgrade value) v = upgrade-Goes value v
  header-Goes (other line) v = other-Goes line v

-- The loop goes on at a header line.
more_lines-other : (line rest : List ℕ) → IsOther line → more_lines (line ++ 13 ∷ 10 ∷ rest) ≡ true
more_lines-other [] rest o = absurd (omega (arith, o.some_text))
more_lines-other (a ∷ []) rest o = ground (arith, o.clean.0.1)
more_lines-other (a ∷ b ∷ line) rest o = ground (arith, o.clean.0.1, o.clean.1.0.2)

pub more_lines-header :
    (h : Header) (rest : List ℕ) → IsFine h → more_lines (print_header h ++ 13 ∷ 10 ∷ rest) ≡ true
more_lines-header (host value) rest v = refl
more_lines-header (origin value) rest v = refl
more_lines-header (protocol value) rest v = refl
more_lines-header (key value) rest v = refl
more_lines-header (version value) rest v = refl
more_lines-header (connection value) rest v = refl
more_lines-header (upgrade value) rest v = refl
more_lines-header (other line) rest v = more_lines-other line rest v

abbrev pub after_headers : List Header → Handshake → Flags → Handshake × Flags
after_headers [] hs flags = (hs, flags)
after_headers (h ∷ headers) hs flags =
    after_headers headers (after_handshake h hs) (after_flags h flags)

-- On lines that are fine the loop comes back, with what the lines leave one after another, wherever
-- it is given a unit of fuel for each line and one more.
pub header_lines-after_headers :
    (fuel : ℕ) (headers : List Header) (hs : Handshake) (flags : Flags) (rest : List ℕ)
    → length headers < fuel
    → All IsFine headers
    → header_lines fuel hs flags (header_text headers rest)
      ≡ returns (after_headers headers hs flags)
unfolding header_lines
header_lines-after_headers zero headers hs flags rest enough fine = absurd (omega arith)
header_lines-after_headers (suc fuel) [] hs flags rest enough fine = refl
header_lines-after_headers (suc fuel) (h ∷ headers) hs flags rest enough fine =
    if_true _ _ (more_lines-header h (header_text headers rest) fine.0)
    ∙ header-Goes (header_lines fuel) hs flags (header_text headers rest) h fine.0
    ∙ header_lines-after_headers fuel headers (after_handshake h hs) (after_flags h flags) rest
        (omega arith) fine.1
