-- ===== src/WebSocket/Handshake/Texts.antt =====
-- cwebsocket/websocket.c: where the searches of wsParseHandshake end in the text of a request.
use extension_project.Prelude.{
  ℕ, ◌+◌, ◌≤◌, ◌<◌, ◌≡◌, ◌≢◌, refl, sym, ◌∙◌, ap, false, some, List, [], ◌∷◌, ◌++◌, All, All-append,
  All-weaken, length, codes, find_text, c_string, skip_spaces, word, is_space, length-append,
  append_assoc, arith,
}
use extension_project.WebSocket.Names
use extension_project.WebSocket.Request.{
  Header, host, origin, protocol, key, version, connection, upgrade, other, print_header,
  header_text, request_text, IsClean, IsFine,
}
use extension_project.WebSocket.Handshake.Lines.{find_text-skip, no_cr}

abbrev pub ending : List ℕ
ending = 13 ∷ 10 ∷ 13 ∷ 10 ∷ []

-- How far the empty line is from the line end in front of the header lines.
abbrev pub end_of : List Header → ℕ
end_of [] = 0
end_of (h ∷ headers) = 2 + length (print_header h) + end_of headers

pub named : (name value : List ℕ) → IsClean name → IsClean value → IsClean (name ++ value)
named name value h v = All-append name value (λ b. (b ≢ 0) × (b ≢ 13) × (b ≢ 10)) v h

print_header-IsClean :
    (h : Header) → IsFine h → IsClean (print_header h) × (0 < length (print_header h))
print_header-IsClean (host value) v = (named Names.host value (omega arith) v.clean, omega arith)
print_header-IsClean (origin value) v =
    (named Names.origin value (omega arith) v.clean, omega arith)
print_header-IsClean (protocol value) v = (named Names.protocol value (omega arith) v, omega arith)
print_header-IsClean (key value) v = (named Names.key value (omega arith) v.clean, omega arith)
print_header-IsClean (version value) v =
    (named Names.version value (omega arith) v.clean, omega arith)
print_header-IsClean (connection value) v =
    (named Names.connection value (omega arith) v.clean, omega arith)
print_header-IsClean (upgrade value) v =
    (named Names.upgrade value (omega arith) v.clean, omega arith)
print_header-IsClean (other line) v = (v.clean, v.some_text)

-- A text that makes a line.
abbrev pub IsLine : Header → Type 0
IsLine h = IsClean (print_header h) × (0 < length (print_header h))

pub IsFine-IsLine : (headers : List Header) → All IsFine headers → All IsLine headers
IsFine-IsLine headers fine = All-weaken print_header-IsClean headers fine

-- A line end in front of a line is no end of the request.
not_ending :
    (line rest : List ℕ) (n : ℕ)
    → IsClean line
    → 0 < length line
    → find_text (line ++ rest) ending ≡ some n
    → find_text (13 ∷ 10 ∷ (line ++ rest)) ending ≡ some (2 + n)
not_ending [] rest n h some_text e = absurd (omega arith)
not_ending (b ∷ line) rest n h some_text e = ground (arith, h.0.1)

find_ending :
    (headers : List Header) (rest : List ℕ)
    → All IsLine headers
    → find_text (13 ∷ 10 ∷ header_text headers rest) ending ≡ some (end_of headers)
find_ending [] rest fine = refl
find_ending (h ∷ headers) rest fine =
    not_ending (print_header h) (13 ∷ 10 ∷ header_text headers rest)
      (length (print_header h) + end_of headers) fine.0.0 fine.0.1
      (find_text-skip (print_header h) (13 ∷ 10 ∷ header_text headers rest) 13 (10 ∷ 13 ∷ 10 ∷ [])
        (end_of headers) (no_cr (print_header h) fine.0.0) (find_ending headers rest fine.1))
    ∙ ap some (omega arith)

pub skip_spaces-word :
    (name rest : List ℕ)
    → All (λ b. is_space b ≡ false) name
    → 0 < length name
    → skip_spaces (name ++ rest) ≡ name ++ rest
skip_spaces-word [] rest h some_text = absurd (omega arith)
skip_spaces-word (b ∷ name) rest h some_text = rw h.0

pub word-append :
    (name rest : List ℕ) → All (λ b. is_space b ≡ false) name → word (name ++ 32 ∷ rest) ≡ name
word-append [] rest h = refl
word-append (b ∷ name) rest h = rw (h.0, word-append name rest h.1)

no_blank : (name : List ℕ) → All (λ b. is_space b ≡ false) name → All (λ b. b ≢ 32) name
no_blank [] h = tt
no_blank (b ∷ name) h = ((λ e. ground (arith, h.0)), no_blank name h.1)

pub find_space :
    (name rest : List ℕ)
    → All (λ b. is_space b ≡ false) name
    → find_text (name ++ 32 ∷ rest) (32 ∷ []) ≡ some (length name)
find_space name rest h =
    find_text-skip name (32 ∷ rest) 32 [] 0 (no_blank name h) refl ∙ ap some (omega arith)

pub c_string-append :
    (text rest : List ℕ) → All (λ b. b ≢ 0) text → c_string (text ++ rest) ≡ text ++ c_string rest
c_string-append [] rest h = refl
c_string-append (b ∷ text) rest h = ground (arith, h.0, c_string-append text rest h.1)

length-end_of : (headers : List Header) → length (header_text headers []) ≡ end_of headers + 2
length-end_of [] = refl
length-end_of (h ∷ headers) = omega (
  arith,
  length-append (print_header h) (13 ∷ 10 ∷ header_text headers []),
  length-end_of headers,
)

pub length-headers :
    (headers : List Header) (rest : List ℕ) → length headers ≤ length (header_text headers rest)
length-headers [] rest = omega arith
length-headers (h ∷ headers) rest = omega (
  arith,
  length-append (print_header h) (13 ∷ 10 ∷ header_text headers rest),
  length-headers headers rest,
)

-- The request as its first line and what is behind.
abbrev pub first_line : List ℕ → List ℕ
first_line resource = codes "GET " ++ (resource ++ codes " HTTP/1.1")

pub request_lines :
    (resource : List ℕ) (headers : List Header) (rest : List ℕ)
    → request_text resource headers rest ≡ first_line resource ++ 13 ∷ 10 ∷ header_text headers rest
request_lines resource headers rest =
    ap (λ t. codes "GET " ++ t)
      (sym (append_assoc resource (codes " HTTP/1.1") (13 ∷ 10 ∷ header_text headers rest)))

pub first_line-IsClean : (resource : List ℕ) → IsClean resource → IsClean (first_line resource)
first_line-IsClean resource h =
    named (codes "GET ") (resource ++ codes " HTTP/1.1") (omega arith)
      (named resource (codes " HTTP/1.1") h (omega arith))

pub request_end :
    (resource : List ℕ) (headers : List Header) (rest : List ℕ)
    → IsClean resource
    → All IsLine headers
    → find_text (request_text resource headers rest) ending
      ≡ some (length (first_line resource) + end_of headers)
request_end resource headers rest clean fine =
    ap (λ t. find_text t ending) (request_lines resource headers rest)
    ∙ find_text-skip (first_line resource) (13 ∷ 10 ∷ header_text headers rest) 13
        (10 ∷ 13 ∷ 10 ∷ []) (end_of headers)
        (no_cr (first_line resource) (first_line-IsClean resource clean))
        (find_ending headers rest fine)

pub length-request_text :
    (resource : List ℕ) (headers : List Header)
    → length (request_text resource headers []) ≡ length (first_line resource) + end_of headers + 4
length-request_text resource headers = omega (
  arith,
  ap length (request_lines resource headers []),
  length-append (first_line resource) (13 ∷ 10 ∷ header_text headers []),
  length-end_of headers,
)

no_zero : (text : List ℕ) → IsClean text → All (λ b. b ≢ 0) text
no_zero [] h = tt
no_zero (b ∷ text) h = (h.0.0, no_zero text h.1)

c_string-header_text :
    (headers : List Header) (rest : List ℕ)
    → All IsLine headers
    → c_string (header_text headers rest) ≡ header_text headers (c_string rest)
c_string-header_text [] rest fine = refl
c_string-header_text (h ∷ headers) rest fine =
    c_string-append (print_header h) (13 ∷ 10 ∷ header_text headers rest)
      (no_zero (print_header h) fine.0.0)
    ∙ ap (λ t. print_header h ++ 13 ∷ 10 ∷ t) (c_string-header_text headers rest fine.1)

pub c_string-request_text :
    (resource : List ℕ) (headers : List Header) (rest : List ℕ)
    → IsClean resource
    → All IsLine headers
    → c_string (request_text resource headers rest) ≡ request_text resource headers (c_string rest)
c_string-request_text resource headers rest clean fine =
    ap c_string (request_lines resource headers rest)
    ∙ c_string-append (first_line resource) (13 ∷ 10 ∷ header_text headers rest)
        (no_zero (first_line resource) (first_line-IsClean resource clean))
    ∙ ap (λ t. first_line resource ++ 13 ∷ 10 ∷ t) (c_string-header_text headers rest fine)
    ∙ sym (request_lines resource headers (c_string rest))
