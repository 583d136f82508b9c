-- ===== src/WebSocket/Ensures.antt =====
-- What holds of the value of a call, if it comes back, and how that goes through a chain of calls.
use extension_project.Prelude.{◌≡◌, refl, Bool, true, false, if◌then◌else◌}
use extension_project.WebSocket.Types.{Run, returns, aborts, corrupts, hangs, ◌>>=◌}

abbrev pub Ensures {ℓ κ} : {A : Type ℓ} → (A → Type κ) → Run A → Type κ
Ensures holds (returns a) = holds a
Ensures holds aborts = Unit
Ensures holds corrupts = Unit
Ensures holds hangs = Unit

pub Ensures-bind {ℓ κ μ ν} :
    {A : Type ℓ} {B : Type κ} (holds : A → Type μ) (then_holds : B → Type ν) (m : Run A)
    (f : A → Run B)
    → Ensures holds m
    → ((a : A) → holds a → Ensures then_holds (f a))
    → Ensures then_holds (m >>= f)
Ensures-bind holds then_holds (returns a) f h k = k a h
Ensures-bind holds then_holds aborts f h k = tt
Ensures-bind holds then_holds corrupts f h k = tt
Ensures-bind holds then_holds hangs f h k = tt

-- Behind a call of which nothing is known but that it came back.
pub Ensures-then {ℓ κ ν} :
    {A : Type ℓ} {B : Type κ} (then_holds : B → Type ν) (m : Run A) (f : A → Run B)
    → ((a : A) → m ≡ returns a → Ensures then_holds (f a))
    → Ensures then_holds (m >>= f)
Ensures-then then_holds (returns a) f k = k a refl
Ensures-then then_holds aborts f k = tt
Ensures-then then_holds corrupts f k = tt
Ensures-then then_holds hangs f k = tt

pub Ensures-returns {ℓ κ} :
    {A : Type ℓ} (holds : A → Type κ) (m : Run A) (a : A)
    → Ensures holds m
    → m ≡ returns a
    → holds a
Ensures-returns holds m a h e = rw e at h

pub Ensures-if {ℓ κ} :
    {A : Type ℓ} (holds : A → Type κ) (test : Bool) (m n : Run A)
    → (test ≡ true → Ensures holds m)
    → (test ≡ false → Ensures holds n)
    → Ensures holds (if test then m else n)
Ensures-if holds true m n h k = h refl
Ensures-if holds false m n h k = k refl

pub Ensures-weaken {ℓ κ μ} :
    {A : Type ℓ} (holds : A → Type κ) (then_holds : A → Type μ)
    → ((a : A) → holds a → then_holds a)
    → (m : Run A) → Ensures holds m
    → Ensures then_holds m
Ensures-weaken holds then_holds k (returns a) h = k a h
Ensures-weaken holds then_holds k aborts h = tt
Ensures-weaken holds then_holds k corrupts h = tt
Ensures-weaken holds then_holds k hangs h = tt

-- A chain that comes back has come through its first call.
pub >>=-eq-returns {ℓ κ} :
    {A : Type ℓ} {B : Type κ} (m : Run A) (f : A → Run B) {b : B}
    → (m >>= f) ≡ returns b
    → (a : A) × (m ≡ returns a) × (f a ≡ returns b)
>>=-eq-returns (returns a) f e = (a, refl, e)
>>=-eq-returns aborts f e = cc
>>=-eq-returns corrupts f e = cc
>>=-eq-returns hangs f e = cc

pub returns-injective : {A : Type 0} {a b : A} → returns a ≡ returns b → a ≡ b
returns-injective e = cc

-- The call comes back.
abbrev pub ComesBack {ℓ} : {A : Type ℓ} → Run A → Type ℓ
ComesBack {A = A} m = (a : A) × (m ≡ returns a)

pub ComesBack-if {ℓ} :
    {A : Type ℓ} (test : Bool) (m n : Run A)
    → (test ≡ true → ComesBack m)
    → (test ≡ false → ComesBack n)
    → ComesBack (if test then m else n)
ComesBack-if true m n h k = h refl
ComesBack-if false m n h k = k refl
