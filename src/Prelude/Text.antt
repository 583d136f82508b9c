-- ===== src/Prelude/Text.antt =====
-- C strings as lists of bytes, and the searches of <string.h> and <ctype.h>.
use Prim.Native.Nat.{ℕ, suc, ◌+◌}
use Prim.Native.Char.{code}
use Prim.Native.String.{String}
use mathlib.Core.Bool.{Bool, true, false, ◌&&◌, ◌||◌}
use mathlib.Core.Option.{Option, none, some}
use mathlib.Core.Option
use mathlib.Core.List.{List, [], ◌∷◌}
use extension_project.Prelude.Tests.{◌==◌, leb, if◌then◌else◌}

-- The bytes of an ASCII literal.
abbrev pub codes : String → List ℕ
codes String.[] = []
codes (String.◌∷◌ c s) = code c ∷ codes s

-- What a C string function sees of an array: the bytes in front of the first 0.
abbrev pub c_string : List ℕ → List ℕ
c_string [] = []
c_string (x ∷ xs) = if x == 0 then [] else x ∷ c_string xs

-- `memcmp(text, pattern, strlen(pattern)) == 0` and `strncmp(pattern, text, strlen(pattern)) == 0`
abbrev pub starts_with : List ℕ → List ℕ → Bool
starts_with text [] = true
starts_with [] (p ∷ ps) = false
starts_with (x ∷ xs) (p ∷ ps) = x == p && starts_with xs ps

-- `strstr`: how far in the pattern first stands.
abbrev pub find_text : List ℕ → List ℕ → Option ℕ
find_text [] pattern = if starts_with [] pattern then some 0 else none
find_text (x ∷ xs) pattern =
    if starts_with (x ∷ xs) pattern then some 0 else Option.map suc (find_text xs pattern)

-- `strcmp(a, b) == 0`
abbrev pub same_text : List ℕ → List ℕ → Bool
same_text [] [] = true
same_text [] (y ∷ ys) = false
same_text (x ∷ xs) [] = false
same_text (x ∷ xs) (y ∷ ys) = x == y && same_text xs ys

-- `tolower` of the C locale
abbrev pub to_lower : ℕ → ℕ
to_lower c = if leb b'A' c && leb c b'Z' then c + 32 else c

-- `isspace` of the C locale
abbrev pub is_space : ℕ → Bool
is_space c = c == 32 || (leb 9 c && leb c 13)

abbrev pub skip_spaces : List ℕ → List ℕ
skip_spaces [] = []
skip_spaces (x ∷ xs) = if is_space x then skip_spaces xs else x ∷ xs

abbrev pub word : List ℕ → List ℕ
word [] = []
word (x ∷ xs) = if is_space x then [] else x ∷ word xs
