-- ===== src/Prelude/Bits.antt =====
-- Facts on `&`, `|` and `^` of the bytes of a frame, which the tactics take for unknowns.
use Prim.Native.Nat.{
  ℕ, zero, suc, ◌+◌, ◌*◌, ◌/◌, ◌%◌, ◌≤◌, ◌<◌, max, bit_and, bit_or, bit_xor, differ, digits,
  bitwise, bit_xor-bitwise,
}
use mathlib.Core.Path.{◌≡◌, refl}
use mathlib.Core.Bool.{Bool, true, ◌&&◌}
use native.Mathlib.Omega.{arith}
use native.Mathlib.Nat.{le_refl}
use extension_project.Prelude.Tests.{◌==◌, ==_iff}

-- The halving of `bit_xor` with a given fuel.
abbrev halving_xor : ℕ → ℕ → ℕ → ℕ
halving_xor = digits (λ rest. rest) differ

-- Spare fuel makes no difference once the first number is used up.
halving_xor_spare :
    (ample : ℕ) (fuel : ℕ) (l k : ℕ)
    → (k ≤ fuel) × (fuel ≤ ample)
    → halving_xor fuel k l ≡ halving_xor ample k l
halving_xor_spare _ zero l (suc k) few = absurd (omega (arith, few.0))
halving_xor_spare zero (suc fuel) l k few = absurd (omega (arith, few.1))
halving_xor_spare zero zero l zero _ = refl
halving_xor_spare (suc ample) zero l zero _ = refl
halving_xor_spare (suc ample) (suc fuel) l zero _ = refl
halving_xor_spare (suc ample) (suc fuel) l (suc k) few =
    rw (
      halving_xor_spare ample fuel (l / 2) (suc k / 2) (omega (arith, few.0), omega (arith, few.1)))

bitwise_step :
    (a b : ℕ)
    → bitwise (λ y. y) differ (suc a) b
      ≡ bitwise (λ y. y) differ (suc a / 2) (b / 2) * 2 + differ (suc a % 2) (b % 2)
bitwise_step a b =
    let half = suc a / 2 in
    omega (arith, halving_xor_spare a half (b / 2) half (le_refl half, omega arith))

bit_xor_step : (a b : ℕ) → bit_xor a b ≡ bit_xor (a / 2) (b / 2) * 2 + differ (a % 2) (b % 2)
bit_xor_step zero b = simp bit_xor-bitwise (omega arith)
bit_xor_step (suc a) b = simp bit_xor-bitwise (bitwise_step a b)

differ_bit : (x y : ℕ) → x < 2 → y < 2 → (differ x y < 2) × (differ (differ x y) y ≡ x)
differ_bit zero zero p q = omega arith
differ_bit zero (suc zero) p q = omega arith
differ_bit zero (suc (suc y)) p q = absurd (omega arith)
differ_bit (suc zero) zero p q = omega arith
differ_bit (suc zero) (suc zero) p q = omega arith
differ_bit (suc zero) (suc (suc y)) p q = absurd (omega arith)
differ_bit (suc (suc x)) y p q = absurd (omega arith)

-- A mask applied twice is no mask.
bit_xor_twice_fuel : (n a k : ℕ) → a ≤ n → k ≤ n → bit_xor (bit_xor a k) k ≡ a
bit_xor_twice_fuel zero zero zero p q = refl
bit_xor_twice_fuel zero zero (suc k) p q = absurd (omega arith)
bit_xor_twice_fuel zero (suc a) k p q = absurd (omega arith)
bit_xor_twice_fuel (suc n) a k p q =
    let bits = differ_bit (a % 2) (k % 2) (omega arith) (omega arith) in
    let low : bit_xor a k % 2 ≡ differ (a % 2) (k % 2) = omega (arith, bit_xor_step a k) in
    let high : bit_xor a k / 2 ≡ bit_xor (a / 2) (k / 2) = omega (arith, bit_xor_step a k) in
    rw (bit_xor_step (bit_xor a k) k, low, high)
      (omega (arith, bits.1, bit_xor_twice_fuel n (a / 2) (k / 2) (omega arith) (omega arith)))

pub bit_xor_twice : (a k : ℕ) → bit_xor (bit_xor a k) k ≡ a
bit_xor_twice a k = bit_xor_twice_fuel (max a k) a k (omega arith) (omega arith)

-- A test that two functions agree on the numbers below a bound, made by evaluation.
agree_to : (ℕ → ℕ) → (ℕ → ℕ) → ℕ → Bool
agree_to f g zero = true
agree_to f g (suc top) = agree_to f g top && f top == g top

agree_at : (f g : ℕ → ℕ) (top x : ℕ) → x < top → agree_to f g top ≡ true → f x ≡ g x
unfolding agree_to
agree_at f g zero x below passed = elim below [ ]
agree_at f g (suc top) x below passed = ground (arith, agree_at f g top x, ==_iff (f top) (g top))

low_seven_agrees : agree_to (λ x. bit_and x 0x7F) (λ x. x % 128) 256 ≡ true
unfolding agree_to
low_seven_agrees = refl

low_four_agrees : agree_to (λ x. bit_and x 0x0F) (λ x. x % 16) 256 ≡ true
unfolding agree_to
low_four_agrees = refl

top_agrees : agree_to (λ x. bit_and x 0x80) (λ x. x / 128 * 128) 256 ≡ true
unfolding agree_to
top_agrees = refl

reserved_agrees : agree_to (λ x. bit_and x 0x70) (λ x. x % 128 / 16 * 16) 256 ≡ true
unfolding agree_to
reserved_agrees = refl

set_top_agrees : agree_to (λ x. bit_or 0x80 x) (λ x. 128 + x) 128 ≡ true
unfolding agree_to
set_top_agrees = refl

pub bit_and_low_seven : (x : ℕ) → x < 256 → bit_and x 0x7F ≡ x % 128
bit_and_low_seven x h = agree_at (λ y. bit_and y 0x7F) (λ y. y % 128) 256 x h low_seven_agrees

pub bit_and_low_four : (x : ℕ) → x < 256 → bit_and x 0x0F ≡ x % 16
bit_and_low_four x h = agree_at (λ y. bit_and y 0x0F) (λ y. y % 16) 256 x h low_four_agrees

pub bit_and_top : (x : ℕ) → x < 256 → bit_and x 0x80 ≡ x / 128 * 128
bit_and_top x h = agree_at (λ y. bit_and y 0x80) (λ y. y / 128 * 128) 256 x h top_agrees

pub bit_and_reserved : (x : ℕ) → x < 256 → bit_and x 0x70 ≡ x % 128 / 16 * 16
bit_and_reserved x h =
    agree_at (λ y. bit_and y 0x70) (λ y. y % 128 / 16 * 16) 256 x h reserved_agrees

pub bit_or_top : (x : ℕ) → x < 128 → bit_or 0x80 x ≡ 128 + x
bit_or_top x h = agree_at (λ y. bit_or 0x80 y) (λ y. 128 + y) 128 x h set_top_agrees
