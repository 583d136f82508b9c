-- ===== src/Prelude/Lists.antt =====
-- Lists measured and indexed by native numbers: C arrays and byte strings.
use Prim.Native.Nat.{ℕ, zero, suc, ◌+◌, ◌-◌, ◌≤◌, ◌<◌, min}
use mathlib.Core.Path.{◌≡◌, refl, ap}
use mathlib.Core.List.{List, [], ◌∷◌, ◌++◌}
use native.Mathlib.Omega.{arith}

module _ {ℓ} {A : Type ℓ} where
  abbrev pub length : List A → ℕ
  length [] = 0
  length (x ∷ xs) = suc (length xs)

  abbrev pub get_or : List A → ℕ → A → A
  get_or [] i d = d
  get_or (x ∷ xs) zero d = x
  get_or (x ∷ xs) (suc i) d = get_or xs i d

  -- A write out of bounds changes nothing.
  abbrev pub set : List A → ℕ → A → List A
  set [] i v = []
  set (x ∷ xs) zero v = v ∷ xs
  set (x ∷ xs) (suc i) v = x ∷ set xs i v

  abbrev pub take : ℕ → List A → List A
  take zero xs = []
  take (suc n) [] = []
  take (suc n) (x ∷ xs) = x ∷ take n xs

  abbrev pub drop : ℕ → List A → List A
  drop zero xs = xs
  drop (suc n) [] = []
  drop (suc n) (x ∷ xs) = drop n xs

  abbrev pub replicate : ℕ → A → List A
  replicate zero a = []
  replicate (suc n) a = a ∷ replicate n a

  -- The list, its first items replaced by those of the other one, as far as it reaches.
  abbrev pub overwrite : List A → List A → List A
  overwrite [] bs = []
  overwrite (x ∷ xs) [] = x ∷ xs
  overwrite (x ∷ xs) (b ∷ bs) = b ∷ overwrite xs bs

  -- `memcpy(dest + i, bs, n)` into an array: nothing past its end is written.
  abbrev pub write_at : List A → ℕ → List A → List A
  write_at xs zero bs = overwrite xs bs
  write_at [] (suc i) bs = []
  write_at (x ∷ xs) (suc i) bs = x ∷ write_at xs i bs

  pub length-append : (xs ys : List A) → length (xs ++ ys) ≡ length xs + length ys
  length-append [] ys = omega arith
  length-append (x ∷ xs) ys = omega (arith, length-append xs ys)

  pub length-set : (xs : List A) (i : ℕ) (v : A) → length (set xs i v) ≡ length xs
  length-set [] i v = refl
  length-set (x ∷ xs) zero v = refl
  length-set (x ∷ xs) (suc i) v = ap suc (length-set xs i v)

  pub length-overwrite : (xs bs : List A) → length (overwrite xs bs) ≡ length xs
  length-overwrite [] bs = refl
  length-overwrite (x ∷ xs) [] = refl
  length-overwrite (x ∷ xs) (b ∷ bs) = ap suc (length-overwrite xs bs)

  pub length-write_at : (xs : List A) (i : ℕ) (bs : List A) → length (write_at xs i bs) ≡ length xs
  length-write_at xs zero bs = length-overwrite xs bs
  length-write_at [] (suc i) bs = refl
  length-write_at (x ∷ xs) (suc i) bs = ap suc (length-write_at xs i bs)

  pub length-take : (n : ℕ) (xs : List A) → length (take n xs) ≡ min n (length xs)
  length-take zero xs = omega arith
  length-take (suc n) [] = omega arith
  length-take (suc n) (x ∷ xs) = omega (arith, length-take n xs)

  pub length-drop : (n : ℕ) (xs : List A) → length (drop n xs) ≡ length xs - n
  length-drop zero xs = omega arith
  length-drop (suc n) [] = omega arith
  length-drop (suc n) (x ∷ xs) = omega (arith, length-drop n xs)

  pub length-replicate : (n : ℕ) (a : A) → length (replicate n a) ≡ n
  length-replicate zero a = refl
  length-replicate (suc n) a = ap suc (length-replicate n a)

module _ {ℓ} {A : Type ℓ} where
  pub take-append-drop : (n : ℕ) (xs : List A) → take n xs ++ drop n xs ≡ xs
  take-append-drop zero xs = refl
  take-append-drop (suc n) [] = refl
  take-append-drop (suc n) (x ∷ xs) = ap (◌∷◌ x) (take-append-drop n xs)

  pub take-length : (xs : List A) (n : ℕ) → length xs ≤ n → take n xs ≡ xs
  take-length [] zero h = refl
  take-length [] (suc n) h = refl
  take-length (x ∷ xs) zero h = absurd (omega arith)
  take-length (x ∷ xs) (suc n) h = ap (◌∷◌ x) (take-length xs n (omega arith))

  pub take-append : (xs ys : List A) → take (length xs) (xs ++ ys) ≡ xs
  take-append [] ys = refl
  take-append (x ∷ xs) ys = ap (◌∷◌ x) (take-append xs ys)

  pub drop-append : (xs ys : List A) → drop (length xs) (xs ++ ys) ≡ ys
  drop-append [] ys = refl
  drop-append (x ∷ xs) ys = drop-append xs ys

  pub drop-nil : (n : ℕ) → drop {A = A} n [] ≡ []
  drop-nil zero = refl
  drop-nil (suc n) = refl

  pub drop-drop : (m n k : ℕ) (xs : List A) → k ≡ m + n → drop n (drop m xs) ≡ drop k xs
  drop-drop zero n k xs e = let e' : k ≡ n = omega arith in rw e'
  drop-drop (suc m) n k [] e = rw (drop-nil n, drop-nil k)
  drop-drop (suc m) n zero (x ∷ xs) e = absurd (omega arith)
  drop-drop (suc m) n (suc k) (x ∷ xs) e = drop-drop m n k xs (omega arith)

  pub get_or-append :
      (xs ys : List A) (i : ℕ) (d : A) → i < length xs → get_or (xs ++ ys) i d ≡ get_or xs i d
  get_or-append [] ys i d h = elim h [ ]
  get_or-append (x ∷ xs) ys zero d h = refl
  get_or-append (x ∷ xs) ys (suc i) d h = get_or-append xs ys i d (omega arith)

  pub set-append :
      (xs : List A) (y : A) (ys : List A) (v : A) → set (xs ++ y ∷ ys) (length xs) v ≡ xs ++ v ∷ ys
  set-append [] y ys v = refl
  set-append (x ∷ xs) y ys v = ap (◌∷◌ x) (set-append xs y ys v)

  pub overwrite-append :
      (xs bs : List A) → length bs ≤ length xs → overwrite xs bs ≡ bs ++ drop (length bs) xs
  overwrite-append [] [] h = refl
  overwrite-append [] (b ∷ bs) h = elim h [ ]
  overwrite-append (x ∷ xs) [] h = refl
  overwrite-append (x ∷ xs) (b ∷ bs) h = ap (◌∷◌ b) (overwrite-append xs bs (omega arith))

  pub write_at-append :
      (xs ys bs : List A) → write_at (xs ++ ys) (length xs) bs ≡ xs ++ overwrite ys bs
  write_at-append [] ys bs = refl
  write_at-append (x ∷ xs) ys bs = ap (◌∷◌ x) (write_at-append xs ys bs)

module _ {ℓ} {A : Type ℓ} where
  pub take-overwrite :
      (k : ℕ) (xs bs : List A) → k ≡ length bs → k ≤ length xs → take k (overwrite xs bs) ≡ bs
  take-overwrite k xs bs e h =
      rw (e, overwrite-append xs bs (omega arith)) (take-append bs (drop (length bs) xs))

  pub take-write_at :
      (k i : ℕ) (xs bs : List A)
      → k ≡ i + length bs
      → k ≤ length xs
      → take k (write_at xs i bs) ≡ take i xs ++ bs
  take-write_at k zero xs bs e h = take-overwrite k xs bs (omega arith) h
  take-write_at k (suc i) [] bs e h = absurd (omega arith)
  take-write_at zero (suc i) (x ∷ xs) bs e h = absurd (omega arith)
  take-write_at (suc k) (suc i) (x ∷ xs) bs e h =
      ap (◌∷◌ x) (take-write_at k i xs bs (omega arith) (omega arith))

  pub take-drop : (n m p : ℕ) (xs : List A) → p ≡ n + m → take m (drop n xs) ≡ drop n (take p xs)
  take-drop zero m p xs e = ap (λ k. take k xs) (let e' : m ≡ p = omega arith in e')
  take-drop (suc n) m zero xs e = absurd (omega arith)
  take-drop (suc n) zero (suc p) [] e = refl
  take-drop (suc n) (suc m) (suc p) [] e = refl
  take-drop (suc n) m (suc p) (x ∷ xs) e = take-drop n m p xs (omega arith)
