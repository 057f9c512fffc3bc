-- ===== src/Text.antt =====
-- Text as the sequence of its code points, and the functions of Go's `strings` that the root
-- package calls. (A Go string that is valid UTF-8 and its code points determine each other, and
-- the source reads all its text through `range` or `[]rune`.)
pub mod Trim
pub mod Order
pub mod Unicode
pub mod Letters
pub mod Decimal
pub mod Ascii
pub mod Strings
use wird.Prelude.{ℕ, Bool, true, false, ◌&&◌, ◌||◌, List, [], ◌∷◌, between, nat_beq, if◌then◌else◌}

abbrev pub Word : Type 0
Word = List ℕ

-- unicode.IsSpace: the White_Space property.
unfoldable pub is_space : ℕ → Bool
is_space r =
    between 0x09 0x0D r
    || nat_beq r 0x20
    || nat_beq r 0x85
    || nat_beq r 0xA0
    || nat_beq r 0x1680
    || between 0x2000 0x200A r
    || between 0x2028 0x2029 r
    || nat_beq r 0x202F
    || nat_beq r 0x205F
    || nat_beq r 0x3000

abbrev pub is_empty : Word → Bool
is_empty [] = true
is_empty (r ∷ w) = false

unfoldable pub trim_left : Word → Word
trim_left [] = []
trim_left (r ∷ w) = let rest = trim_left w in if is_space r then rest else r ∷ w

unfoldable pub trim_right : Word → Word
trim_right [] = []
trim_right (r ∷ w) = let rest = trim_right w in if is_empty rest && is_space r then [] else r ∷ rest

-- strings.TrimSpace
unfoldable pub trim_space : Word → Word
unfolding trim_left trim_right is_space
trim_space w = trim_right (trim_left w)

-- strings.Compare(a, b) <= 0. The order of UTF-8 texts by bytes is their order by code points.
unfoldable pub word_leb : Word → Word → Bool
word_leb [] w = true
word_leb (a ∷ v) [] = false
word_leb (a ∷ v) (b ∷ w) =
    let rest = word_leb v w in if nat_beq a b then rest else wird.Prelude.ltb a b
