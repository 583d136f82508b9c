-- ===== src/WebSocket/Frame/Mask.antt =====
-- The unmasking loop: it rewrites the data, and nothing else.
use extension_project.Prelude.{
  ℕ, zero, suc, ◌+◌, ◌%◌, ◌≤◌, ◌<◌, bit_xor, ◌≡◌, refl, ap, ap₂, sym, ◌∙◌, ◌⊎◌, List, [], ◌∷◌, ◌++◌,
  length, get_or, set, take, drop, length-append, length-set, length-take, length-drop,
  get_or-append, take-append-drop, set-append, append_assoc, drop-drop, arith,
}
use extension_project.WebSocket.Rfc.{mask}
use extension_project.WebSocket.Frame.{unmask, byte, slice}

-- What one round writes.
abbrev unmasked : ℕ → ℕ → List ℕ → ℕ → List ℕ
unmasked key start buf i =
    set buf (start + i) (bit_xor (byte buf (start + i)) (byte buf (key + i % 4)))

pub length-unmask :
    (key start : ℕ) (buf : List ℕ) (i n : ℕ) → length (unmask key start buf i n) ≡ length buf
unfolding unmask
length-unmask key start buf i zero = refl
length-unmask key start buf i (suc n) =
    length-unmask key start (unmasked key start buf i) (i + 1) n ∙ length-set buf (start + i) _

get_or-set_other :
    (xs : List ℕ) (i j v : ℕ) → (j < i) ⊎ (i < j) → get_or (set xs i v) j 0 ≡ get_or xs j 0
get_or-set_other [] i j v h = refl
get_or-set_other (x ∷ xs) zero zero v h = absurd (omega arith)
get_or-set_other (x ∷ xs) zero (suc j) v h = refl
get_or-set_other (x ∷ xs) (suc i) zero v h = refl
get_or-set_other (x ∷ xs) (suc i) (suc j) v h = get_or-set_other xs i j v (omega arith)

-- Bytes outside the data stay.
pub unmask_outside :
    (key start : ℕ) (buf : List ℕ) (i n j : ℕ)
    → (j < start + i) ⊎ (start + i + n ≤ j)
    → byte (unmask key start buf i n) j ≡ byte buf j
unfolding unmask
unmask_outside key start buf i zero j h = refl
unmask_outside key start buf i (suc n) j h =
    unmask_outside key start (unmasked key start buf i) (i + 1) n j (omega arith)
    ∙ get_or-set_other buf (start + i) j _ (omega arith)

get_or-middle : (pre : List ℕ) (x : ℕ) (xs : List ℕ) → get_or (pre ++ x ∷ xs) (length pre) 0 ≡ x
get_or-middle [] x xs = refl
get_or-middle (y ∷ pre) x xs = get_or-middle pre x xs

-- From the first byte to unmask on, with the key in front of it.
pub unmask_from :
    (k : ℕ → ℕ) (key start i : ℕ) (pre xs rest : List ℕ)
    → length pre ≡ start + i
    → key + 4 ≤ start
    → ((j : ℕ) → j < 4 → get_or pre (key + j) 0 ≡ k j)
    → unmask key start (pre ++ (xs ++ rest)) i (length xs) ≡ pre ++ (mask k i xs ++ rest)
unfolding unmask
unmask_from k key start i pre [] rest e h keys = refl
unmask_from k key start i pre (x ∷ xs) rest e h keys =
    let v : ℕ = bit_xor x (k (i % 4)) in
    let buf : List ℕ = pre ++ (x ∷ (xs ++ rest)) in
    let here : byte buf (start + i) ≡ x = rw (← e) (get_or-middle pre x (xs ++ rest)) in
    let at_key : byte buf (key + i % 4) ≡ k (i % 4) =
      get_or-append pre (x ∷ (xs ++ rest)) (key + i % 4) 0 (omega arith)
      ∙ keys (i % 4) (omega arith) in
    let written : set buf (start + i) v ≡ (pre ++ v ∷ []) ++ (xs ++ rest) =
      rw (← e) (set-append pre x (xs ++ rest) v ∙ sym (append_assoc pre (v ∷ []) (xs ++ rest))) in
    let longer : length (pre ++ v ∷ []) ≡ start + (i + 1) =
      omega (arith, length-append pre (v ∷ [])) in
    let keys' =
      λ (j : ℕ) (p : j < 4). get_or-append pre (v ∷ []) (key + j) 0 (omega arith) ∙ keys j p in
    ap (λ b. unmask key start b (i + 1) (length xs))
      (ap₂ (λ a b. set buf (start + i) (bit_xor a b)) here at_key ∙ written)
    ∙ unmask_from k key start (i + 1) (pre ++ v ∷ []) xs rest longer h keys'
    ∙ append_assoc pre (v ∷ []) (mask k (i + 1) xs ++ rest)

-- The loop over a whole array: the data in its place is masked once more, the rest stays.
pub unmask_lem :
    (key start n : ℕ) (buf : List ℕ)
    → key + 4 ≤ start
    → start + n ≤ length buf
    → unmask key start buf 0 n
      ≡ take start buf
        ++ (mask (λ j. byte buf (key + j)) 0 (slice start n buf) ++ drop (start + n) buf)
unmask_lem key start n buf h fits =
    let pre : List ℕ = take start buf in
    let xs : List ℕ = slice start n buf in
    let rest : List ℕ = drop (start + n) buf in
    let split : pre ++ (xs ++ rest) ≡ buf =
      rw (← drop-drop start n (start + n) buf refl, take-append-drop n (drop start buf))
        (take-append-drop start buf) in
    let count : length xs ≡ n =
      omega (arith, length-take n (drop start buf), length-drop start buf) in
    let front : length pre ≡ start + 0 = omega (arith, length-take start buf) in
    let keys = λ (j : ℕ) (p : j < 4).
      sym (get_or-append pre (xs ++ rest) (key + j) 0 (omega arith))
      ∙ ap (λ b. byte b (key + j)) split in
    ap₂ (λ b m. unmask key start b 0 m) (sym split) (sym count)
    ∙ unmask_from (λ j. byte buf (key + j)) key start 0 pre xs rest front h keys
