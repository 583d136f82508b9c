-- ===== src/Prelude/Search.antt =====
-- What the searches of C strings find, and a predicate of all items of a list.
use Prim.Native.Nat.{ℕ, zero, suc, ◌+◌}
use mathlib.Core.Path.{◌≡◌, refl, ap, ◌∙◌}
use mathlib.Core.Logic.{◌↔◌}
use mathlib.Core.Bool.{true, false}
use mathlib.Core.Option.{none}
use mathlib.Core.List.{List, [], ◌∷◌, ◌++◌}
use native.Mathlib.Omega.{arith}
use extension_project.Prelude.Lists.{drop, drop-nil, drop-drop}
use extension_project.Prelude.Text.{starts_with, find_text, same_text}

-- Every item of the list has the property.
abbrev pub All {ℓ κ} : {Item : Type ℓ} → (Item → Type κ) → List Item → Type κ
All holds [] = Unit
All holds (item ∷ rest) = holds item × All holds rest

-- A property of all items of two lists is one of all items of the lists in a row.
pub All-append {ℓ κ} :
    {Item : Type ℓ} (front back : List Item) (holds : Item → Type κ)
    → All holds back
    → All holds front
    → All holds (front ++ back)
All-append [] back holds of_back _ = of_back
All-append (item ∷ rest) back holds of_back of_front =
    (of_front.0, All-append rest back holds of_back of_front.1)

pub All-weaken {ℓ κ μ} :
    {A : Type ℓ} {P : A → Type κ} {Q : A → Type μ} (f : (a : A) → P a → Q a) (xs : List A)
    → All P xs
    → All Q xs
All-weaken f [] h = tt
All-weaken f (x ∷ xs) h = (f x h.0, All-weaken f xs h.1)

-- The pattern stands nowhere in the text.
abbrev pub Lacks : List ℕ → List ℕ → Type 0
Lacks pattern text = (i : ℕ) → starts_with (drop i text) pattern ≡ false

pub Lacks-drop : (pattern text : List ℕ) (k : ℕ) → Lacks pattern text → Lacks pattern (drop k text)
Lacks-drop pattern text k h i =
    ap (λ t. starts_with t pattern) (drop-drop k i (k + i) text refl) ∙ h (k + i)

find_text-none : (text pattern : List ℕ) → find_text text pattern ≡ none → Lacks pattern text
find_text-none [] pattern h i = ap (λ t. starts_with t pattern) (drop-nil i) ∙ ground arith
find_text-none (x ∷ xs) pattern h zero = ground arith
find_text-none (x ∷ xs) pattern h (suc i) = find_text-none xs pattern (ground arith) i

find_text_absent : (text pattern : List ℕ) → Lacks pattern text → find_text text pattern ≡ none
find_text_absent [] pattern h = ground (arith, h 0)
find_text_absent (x ∷ xs) pattern h =
    let rest : find_text xs pattern ≡ none = find_text_absent xs pattern (λ i. h (suc i)) in
    ground (arith, h 0)

-- `strstr` finds nothing exactly when the pattern stands nowhere.
pub find_text-none_iff :
    (text pattern : List ℕ) → (find_text text pattern ≡ none) ↔ Lacks pattern text
find_text-none_iff text pattern = (find_text-none text pattern, find_text_absent text pattern)

pub same_text_iff : (a b : List ℕ) → (same_text a b ≡ true) ↔ (a ≡ b)
same_text_iff [] [] = ((λ _. refl), (λ _. refl))
same_text_iff [] (y ∷ ys) = ground arith
same_text_iff (x ∷ xs) [] = ground arith
same_text_iff (x ∷ xs) (y ∷ ys) = let rest = same_text_iff xs ys in ground (arith, rest.0, rest.1)
