-- ===== src/WebSocket/Rfc.antt =====
-- What RFC 6455 says of frames, independently of the code: section 5.2 (lengths in network order)
-- and 5.3 (masking).
use extension_project.Prelude.{
  ℕ, zero, suc, ◌+◌, ◌/◌, ◌%◌, ◌^◌, bit_xor, ◌≡◌, refl, ap, ap₂, List, [], ◌∷◌, ◌++◌, leb,
  if◌then◌else◌, length, get_or, bit_xor_twice,
}

-- The `k` low bytes of a number, the highest first.
abbrev pub be_bytes : ℕ → ℕ → List ℕ
be_bytes zero n = []
be_bytes (suc k) n = n / 256 ^ k % 256 ∷ be_bytes k n

-- The length field; `bit` is 128 for a masked frame and 0 for a plain one.
unfoldable pub length_bytes : ℕ → ℕ → List ℕ
length_bytes bit n =
    if leb n 125
    then (bit + n) ∷ []
    else if leb n 0xFFFF
    then (bit + 126) ∷ be_bytes 2 n
    else (bit + 127) ∷ be_bytes 8 n

-- A final, unmasked frame, as a server sends it.
unfoldable pub server_frame : ℕ → List ℕ → List ℕ
server_frame opcode payload = (128 + opcode) ∷ length_bytes 0 (length payload) ++ payload

-- A masking key has four bytes.
pub record Key : Type 0 where
  pub k0 : ℕ
  pub k1 : ℕ
  pub k2 : ℕ
  pub k3 : ℕ

abbrev pub key_bytes : Key → List ℕ
key_bytes k = k.k0 ∷ k.k1 ∷ k.k2 ∷ k.k3 ∷ []

-- The payload from index `i` on, byte `j` combined with byte `j % 4` of the key.
abbrev pub mask : (ℕ → ℕ) → ℕ → List ℕ → List ℕ
mask key i [] = []
mask key i (x ∷ xs) = bit_xor x (key (i % 4)) ∷ mask key (i + 1) xs

pub length-mask : (key : ℕ → ℕ) (i : ℕ) (xs : List ℕ) → length (mask key i xs) ≡ length xs
length-mask key i [] = refl
length-mask key i (x ∷ xs) = ap suc (length-mask key (i + 1) xs)

pub mask-mask : (key : ℕ → ℕ) (i : ℕ) (xs : List ℕ) → mask key i (mask key i xs) ≡ xs
mask-mask key i [] = refl
mask-mask key i (x ∷ xs) = ap₂ ◌∷◌ (bit_xor_twice x (key (i % 4))) (mask-mask key (i + 1) xs)

abbrev pub key_at : Key → ℕ → ℕ
key_at k j = get_or (key_bytes k) j 0

-- A final, masked frame, as a client sends it.
unfoldable pub client_frame : ℕ → Key → List ℕ → List ℕ
client_frame opcode key payload =
    (128 + opcode)
    ∷ (length_bytes 128 (length payload) ++ (key_bytes key ++ mask (key_at key) 0 payload))
