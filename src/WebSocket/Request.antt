-- ===== src/WebSocket/Request.antt =====
-- RFC 6455, section 4.1: the client's opening request as a text of lines, and what its header lines
-- say, independently of the code.
use extension_project.Prelude.{
  ℕ, ◌<◌, ◌≡◌, ◌≢◌, Bool, true, false, ◌||◌, not, Option, none, some, List, [], ◌∷◌, ◌++◌, All,
  length, codes, starts_with, find_text, to_lower, is_space,
}
use mathlib.Core.List.{map}
use extension_project.WebSocket.Names
use extension_project.WebSocket.Names.{upgrade_word, websocket_word, version_word, crlf}

-- A header line: one of the seven that the server knows, or another.
pub data Header : Type 0 where
  host origin protocol key version connection upgrade other : List ℕ → Header

abbrev pub print_header : Header → List ℕ
print_header (host value) = Names.host ++ value
print_header (origin value) = Names.origin ++ value
print_header (protocol value) = Names.protocol ++ value
print_header (key value) = Names.key ++ value
print_header (version value) = Names.version ++ value
print_header (connection value) = Names.connection ++ value
print_header (upgrade value) = Names.upgrade ++ value
print_header (other line) = line

-- The header lines and the empty line, with `rest` behind them.
abbrev pub header_text : List Header → List ℕ → List ℕ
header_text [] rest = 13 ∷ 10 ∷ rest
header_text (h ∷ headers) rest = print_header h ++ 13 ∷ 10 ∷ header_text headers rest

-- The request, with `rest` behind it.
abbrev pub request_text : List ℕ → List Header → List ℕ → List ℕ
request_text resource headers rest =
    codes "GET " ++ (resource ++ (codes " HTTP/1.1" ++ 13 ∷ 10 ∷ header_text headers rest))

-- No 0, and no line end.
abbrev pub IsClean : List ℕ → Type 0
IsClean text = All (λ b. (b ≢ 0) × (b ≢ 13) × (b ≢ 10)) text

-- A value that is not empty and fits the byte for its length.
pub record IsValue (value : List ℕ) : Type 0 where
  pub clean : IsClean value
  pub some_text : 0 < length value
  pub fits : length value < 256

-- A line that is not empty and begins with none of the names.
pub record IsOther (line : List ℕ) : Type 0 where
  pub clean : IsClean line
  pub some_text : 0 < length line
  pub no_host : starts_with line Names.host ≡ false
  pub no_origin : starts_with line Names.origin ≡ false
  pub no_protocol : starts_with line Names.protocol ≡ false
  pub no_key : starts_with line Names.key ≡ false
  pub no_version : starts_with line Names.version ≡ false
  pub no_connection : starts_with line Names.connection ≡ false
  pub no_upgrade : starts_with line Names.upgrade ≡ false

abbrev pub IsFine : Header → Type 0
IsFine (host value) = IsValue value
IsFine (origin value) = IsValue value
IsFine (protocol value) = IsClean value
IsFine (key value) = IsValue value
IsFine (version value) = IsValue value
IsFine (connection value) = IsValue value
IsFine (upgrade value) = IsValue value
IsFine (other line) = IsOther line

-- A name without spaces.
pub record IsResource (resource : List ℕ) : Type 0 where
  pub clean : IsClean resource
  pub no_space : All (λ b. is_space b ≡ false) resource
  pub some_text : 0 < length resource

-- The last value under a name, if there is one.
abbrev pub last_host : List Header → Option (List ℕ)
last_host [] = none
last_host (host value ∷ headers) = elim (last_host headers) [
  | none ↦ some value
  | some later ↦ some later
]
last_host (_ ∷ headers) = last_host headers

abbrev pub last_key : List Header → Option (List ℕ)
last_key [] = none
last_key (key value ∷ headers) = elim (last_key headers) [
  | none ↦ some value
  | some later ↦ some later
]
last_key (_ ∷ headers) = last_key headers

abbrev pub has_text : List ℕ → List ℕ → Bool
has_text text pattern = elim (find_text text pattern) [ none ↦ false | some at ↦ true ]

abbrev pub says_connection : Header → Bool
says_connection (connection value) = has_text (map to_lower value) upgrade_word
says_connection _ = false

abbrev pub says_upgrade : Header → Bool
says_upgrade (upgrade value) = starts_with (map to_lower value) websocket_word
says_upgrade _ = false

-- A subprotocol, or another version.
abbrev pub forbids : Header → Bool
forbids (protocol value) = true
forbids (version value) = not (starts_with value version_word)
forbids _ = false

abbrev pub any_header : (Header → Bool) → List Header → Bool
any_header says [] = false
any_header says (h ∷ headers) = says h || any_header says headers

-- Section 4.2.2: the server's answer, with the value that it accepts the key by.
abbrev pub response_text : List ℕ → List ℕ
response_text accept =
    codes "HTTP/1.1 101 Switching Protocols"
    ++ 13
      ∷ 10
      ∷ (codes "Upgrade: websocket"
          ++ 13
            ∷ 10
            ∷ (codes "Connection: Upgrade"
                ++ 13
                  ∷ 10
                  ∷ (codes "Sec-WebSocket-Accept: " ++ (accept ++ 13 ∷ 10 ∷ 13 ∷ 10 ∷ []))))
