-- ===== src/WebSocket/Handshake/Rule.antt =====
-- Which opening requests there are, by the server's rule and by that of RFC 6455.
use extension_project.Prelude.{
  ◌⊎◌, ℕ, ◌≡◌, refl, ap, Bool, true, false, ◌&&◌, not, List, [], ◌∷◌, ◌++◌, All, arith, drop-append,
  length, starts_with, find_text, find_text-none_iff, to_lower, Option-cases, inl, inr,
}
use mathlib.Core.List.{map}
use extension_project.WebSocket.Names.{upgrade_word, websocket_word, version_word}
use extension_project.WebSocket.Request.{
  Header, host, protocol, key, version, connection, upgrade, last_host, last_key, has_text,
  says_connection, says_upgrade, forbids, any_header,
}
use extension_project.WebSocket.Handshake.{is_null}

-- The server's rule: which requests it takes, by their header lines, whose names it knows in one
-- spelling only. RFC 6455 has another rule: there a version is a must and is 13 and nothing behind
-- it, and a subprotocol that is asked for is no reason to refuse.
abbrev pub is_taken : List Header → Bool
is_taken headers =
    not (is_null (last_host headers))
    && (not (is_null (last_key headers))
        && (any_header says_connection headers
            && (any_header says_upgrade headers && not (any_header forbids headers))))

-- Some header has it.
abbrev pub Some : (Header → Type 0) → List Header → Type 0
Some says [] = ⊥
Some says (h ∷ headers) = says h ⊎ Some says headers

abbrev pub NamesHost : Header → Type 0
NamesHost (host value) = Unit
NamesHost _ = ⊥

abbrev pub NamesKey : Header → Type 0
NamesKey (key value) = Unit
NamesKey _ = ⊥

-- "websocket", in any case.
abbrev pub AsksUpgrade : Header → Type 0
AsksUpgrade (upgrade value) = map to_lower value ≡ websocket_word
AsksUpgrade _ = ⊥

-- "upgrade", in any case, with other words around it or not.
abbrev pub AsksConnection : Header → Type 0
AsksConnection (connection value) =
    (front : List ℕ) × (back : List ℕ) × (map to_lower value ≡ front ++ (upgrade_word ++ back))
AsksConnection _ = ⊥

abbrev pub AsksVersion : Header → Type 0
AsksVersion (version value) = value ≡ version_word
AsksVersion _ = ⊥

-- A version is 13, and there is no subprotocol.
abbrev pub IsPlain : Header → Type 0
IsPlain (version value) = value ≡ version_word
IsPlain (protocol value) = ⊥
IsPlain _ = Unit

-- RFC 6455, section 4.2.1, without a subprotocol.
pub record IsRequest (headers : List Header) : Type 0 where
  pub names_host : Some NamesHost headers
  pub names_key : Some NamesKey headers
  pub asks_upgrade : Some AsksUpgrade headers
  pub asks_connection : Some AsksConnection headers
  pub asks_version : Some AsksVersion headers
  pub plain : All IsPlain headers

last_host-Some :
    (headers : List Header) → Some NamesHost headers → is_null (last_host headers) ≡ false
last_host-Some [] s = absurd s
last_host-Some (host value ∷ headers) s = elim (Option-cases (last_host headers)) [
  | inl e ↦ rw e refl
  | inr (later, e) ↦ rw e refl
]
last_host-Some (_ ∷ headers) (inl here) = absurd here
last_host-Some (_ ∷ headers) (inr further) = last_host-Some headers further

last_key-Some : (headers : List Header) → Some NamesKey headers → is_null (last_key headers) ≡ false
last_key-Some [] s = absurd s
last_key-Some (key value ∷ headers) s = elim (Option-cases (last_key headers)) [
  | inl e ↦ rw e refl
  | inr (later, e) ↦ rw e refl
]
last_key-Some (_ ∷ headers) (inl here) = absurd here
last_key-Some (_ ∷ headers) (inr further) = last_key-Some headers further

starts_with-append : (word back : List ℕ) → starts_with (word ++ back) word ≡ true
starts_with-append [] back = refl
starts_with-append (x ∷ word) back = let rest = starts_with-append word back in ground arith

has_text-append : (front word back : List ℕ) → has_text (front ++ (word ++ back)) word ≡ true
has_text-append front word back = elim (Option-cases (find_text (front ++ (word ++ back)) word)) [
  | inr (at, e) ↦ rw (has_text, e) refl
  | inl e ↦ absurd (
      cc (
        starts_with-append word back,
        ap (λ text. starts_with text word) (drop-append front (word ++ back)),
        (find_text-none_iff (front ++ (word ++ back)) word).0 e (length front),
      ))
]

any_header-Some :
    (says : Header → Bool) (holds : Header → Type 0) (headers : List Header)
    → ((h : Header) → holds h → says h ≡ true)
    → Some holds headers
    → any_header says headers ≡ true
any_header-Some says holds [] k s = absurd s
any_header-Some says holds (h ∷ headers) k (inl here) = let it = k h here in ground arith
any_header-Some says holds (h ∷ headers) k (inr further) =
    let rest = any_header-Some says holds headers k further in ground arith

any_header-All :
    (says : Header → Bool) (holds : Header → Type 0) (headers : List Header)
    → ((h : Header) → holds h → says h ≡ false)
    → All holds headers
    → any_header says headers ≡ false
any_header-All says holds [] k all = refl
any_header-All says holds (h ∷ headers) k all =
    let it = k h all.0 in let rest = any_header-All says holds headers k all.1 in ground arith

AsksUpgrade-says : (h : Header) → AsksUpgrade h → says_upgrade h ≡ true
AsksUpgrade-says (upgrade value) e = rw e refl
AsksUpgrade-says _ e = absurd e

AsksConnection-says : (h : Header) → AsksConnection h → says_connection h ≡ true
AsksConnection-says (connection value) (front, back, e) =
    rw e (has_text-append front upgrade_word back)
AsksConnection-says _ e = absurd e

IsPlain-forbids : (h : Header) → IsPlain h → forbids h ≡ false
IsPlain-forbids (version value) e = rw e refl
IsPlain-forbids (protocol value) e = absurd e
IsPlain-forbids _ e = refl

pub IsRequest-is_taken : (headers : List Header) → IsRequest headers → is_taken headers ≡ true
IsRequest-is_taken headers r =
    let h = last_host-Some headers r.names_host in
    let k = last_key-Some headers r.names_key in
    let c =
      any_header-Some says_connection AsksConnection headers AsksConnection-says
        r.asks_connection in
    let u = any_header-Some says_upgrade AsksUpgrade headers AsksUpgrade-says r.asks_upgrade in
    let f = any_header-All forbids IsPlain headers IsPlain-forbids r.plain in
    rw (h, k, c, u, f) refl
