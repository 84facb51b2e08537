-- ===== src/Common/Text.antt =====
-- Go's strings as texts, with `strings.TrimSpace` and `strings.ToLower`.
-- `to_lower` maps the ASCII letters and the two other characters whose lower case is ASCII
-- (U+0130 and U+212A); every other character is left as it is. The program compares lower-cased
-- text with ASCII constants only, so no test can tell the difference.
use Prim.Native.Nat.{ℕ, ◌+◌}
use Prim.Native.Char.{Char, code}
use Prim.Native.String.{String}
use mathlib.Core.Bool.{Bool, true, false, ◌&&◌, ◌||◌}
use mathlib.Core.List.{List, [], ◌∷◌, map}
use llama_wrangler.Common.Tests.{ltb, leb, ◌==◌, if◌then◌else◌}
use text.Mathlib.Text.{starts_with}
unfoldable pub use text.Mathlib.Text.{◌==◌ as str_eq}
pub use text.Mathlib.TextEquality.{eq_iff}
pub use text.Mathlib.TextPositions.{eq_refl}

-- `unicode.IsSpace`
unfoldable pub is_space : ℕ → Bool
is_space c =
    (leb 9 c && leb c 13)
    || c == 32
    || c == 0x85
    || c == 0xa0
    || c == 0x1680
    || (leb 0x2000 c && leb c 0x200a)
    || c == 0x2028
    || c == 0x2029
    || c == 0x202f
    || c == 0x205f
    || c == 0x3000

unfoldable pub trim_left : String → String
unfolding is_space
trim_left String.[] = String.[]
trim_left (String.◌∷◌ c s) =
    let rest = trim_left s in if is_space (code c) then rest else String.◌∷◌ c s

cons_unless_blank : Char → String → String
unfolding is_space
cons_unless_blank c String.[] = if is_space (code c) then String.[] else String.◌∷◌ c String.[]
cons_unless_blank c (String.◌∷◌ d s) = String.◌∷◌ c (String.◌∷◌ d s)

unfoldable pub trim_right : String → String
unfolding cons_unless_blank
trim_right String.[] = String.[]
trim_right (String.◌∷◌ c s) = cons_unless_blank c (trim_right s)

unfoldable pub trim_space : String → String
unfolding trim_left trim_right
trim_space s = trim_right (trim_left s)

abbrev pub codes : String → List ℕ
codes String.[] = []
codes (String.◌∷◌ c s) = code c ∷ codes s

pub lower_code : ℕ → ℕ
lower_code c =
    if leb b'A' c && leb c b'Z'
    then c + 32
    else if c == 0x130
    then b'i'
    else if c == 0x212a
    then b'k'
    else c

-- The code points of `strings.ToLower(s)`.
unfoldable pub to_lower : String → List ℕ
unfolding lower_code
to_lower s = map lower_code (codes s)

abbrev pub codes_eq : List ℕ → List ℕ → Bool
codes_eq [] [] = true
codes_eq (a ∷ as') (b ∷ bs) = a == b && codes_eq as' bs
codes_eq _ _ = false

-- `strings.ToLower(strings.TrimSpace(s)) == constant`
unfoldable pub folds_to : String → String → Bool
unfolding to_lower trim_space
folds_to s constant = codes_eq (to_lower (trim_space s)) (codes constant)

-- `strings.Contains(s, t)`
unfoldable pub contains : String → String → Bool
contains String.[] t = starts_with String.[] t
contains (String.◌∷◌ c s) t = starts_with (String.◌∷◌ c s) t || contains s t

-- `s < t`: Go compares bytes, which in UTF-8 are ordered as the code points are.
unfoldable pub text_ltb : String → String → Bool
text_ltb s String.[] = false
text_ltb String.[] (String.◌∷◌ d t) = true
text_ltb (String.◌∷◌ c s) (String.◌∷◌ d t) =
    ltb (code c) (code d) || (code c == code d && text_ltb s t)

-- A character folded as `strings.EqualFold` does for an ASCII text on the other side.
abbrev pub fold_code : ℕ → ℕ
fold_code c =
    if leb b'A' c && leb c b'Z'
    then c + 32
    else if c == 0x17f
    then b's'
    else if c == 0x212a
    then b'k'
    else c

-- `strings.EqualFold(s, t)` for a text `t` of ASCII characters.
unfoldable pub equal_fold : String → String → Bool
equal_fold s t = codes_eq (map fold_code (codes s)) (map fold_code (codes t))

-- `strings.HasSuffix(s, t)`
unfoldable pub ends_with : String → String → Bool
ends_with String.[] t = str_eq String.[] t
ends_with (String.◌∷◌ c s) t = str_eq (String.◌∷◌ c s) t || ends_with s t
