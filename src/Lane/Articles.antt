-- ===== src/Lane/Articles.antt =====
-- Fold, arabic, Articles and Look of server/internal/lane/lane.go.
pub mod Filed
use Prim.Native.String.{String}
use wird.Prelude.{
  ℕ, Bool, true, false, not, ◌&&◌, ◌||◌, List, [], ◌∷◌, ◌++◌, map, Option, none, some, length, take,
  drop, contains, nat_beq, ◌==◌, nat_eq, list_eq, if◌then◌else◌,
}
use wird.Prelude.Map.{Map, get, put}
use wird.Text.{Word, is_empty, trim_space}
use wird.Text.Ascii.{ascii}
use wird.Senses.Stem.{has_prefix}
use wird.Lane.Tables.{two, one, filed_elsewhere}

-- alef, and what Fold takes to it: the bare alef and the seats of a hamza.
abbrev pub hamzas : Word
hamzas = 0x0627 ∷ 0x0625 ∷ 0x0622 ∷ 0x0624 ∷ 0x0626 ∷ 0x0621 ∷ []

abbrev pub fold_rune : ℕ → ℕ
fold_rune r = if contains hamzas r then 0x0623 else if nat_beq r 0x0649 then 0x064A else r

unfoldable pub fold : Word → Word
fold root = map fold_rune root

abbrev pub letter_or_none : Option ℕ → Option Word → Option Word
letter_or_none none rest = none
letter_or_none (some r) none = none
letter_or_none (some r) (some letters) = some (r ∷ letters)

-- The loop of arabic: `none` where it gives up.
unfoldable pub letters_of : Word → Option Word
letters_of [] = some []
letters_of (c ∷ []) = letter_or_none (get one c) (some [])
letters_of (c ∷ d ∷ key) =
    let after_pair = letters_of key in
    let after_one = letters_of (d ∷ key) in
    elim (get two (c ∷ d ∷ [])) [
      | some r ↦ letter_or_none (some r) after_pair
      | none ↦ letter_or_none (get one c) after_one
    ]

unfoldable pub arabic : Word → Word
arabic key = elim (letters_of key) [ none ↦ [] | some letters ↦ letters ]

abbrev pub raw_key : Word
raw_key = ascii "@"

-- A division of the XML: what its tag and the text after it are, as the regular expressions of the
-- package regexp find them. `is_last` says that no text stands after the tag.
pub record Division : Type 0 where
  pub is_root : Bool
  pub n : Option (List Word)
  pub prose : Word
  pub is_last : Bool

-- out[key] += " " + prose, where a missing key reads as the empty text.
abbrev pub appended : Option Word → Word → Word
appended none prose = 0x20 ∷ prose
appended (some text) prose = text ++ 0x20 ∷ prose

unfoldable pub append_prose : Map Word Word → Word → Word → Map Word Word
append_prose out key prose = put out key (appended (get out key) prose)

abbrev pub is_dropped : Word → Bool
is_dropped key = is_empty key || has_prefix key (ascii "Quasi")

abbrev pub under_arabic : Map Word Word → Word → Word → Map Word Word
under_arabic out prose ar = if is_empty ar then out else append_prose out (fold ar) prose

-- The loop on the keys of a division.
unfoldable pub keys_loop : Word → Map Word Word → List Word → Map Word Word
keys_loop prose out [] = out
keys_loop prose out (k ∷ keys) =
    let key = trim_space k in
    keys_loop prose
      (if is_dropped key
        then out
        else under_arabic (append_prose out (raw_key ++ key) prose) prose (arabic key))
      keys

abbrev pub keys_of : Division → List Word
keys_of d = if not d.is_root || d.is_last then [] else elim d.n [ none ↦ [] | some keys ↦ keys ]

unfoldable pub articles_loop : Map Word Word → List Division → Map Word Word
articles_loop out [] = out
articles_loop out (d ∷ divisions) = articles_loop (keys_loop d.prose out (keys_of d)) divisions

-- Articles, on the divisions of the files in the order of their names.
abbrev pub articles : List Division → Map Word Word
articles divisions = articles_loop [] divisions

pub data How : Type 0 where
  exact geminate reduplicated final_weak : How
  filed_under : Word → How

abbrev pub is_there : Option Word → Bool
is_there none = false
is_there (some text) = true

abbrev pub has_article : Map Word Word → Word → Bool
has_article arts key = is_there (get arts key)

-- The switch of Look, on the folded root, where its first two letters have an article.
abbrev pub by_shape : Word → Option (Word × How)
by_shape (a ∷ b ∷ c ∷ []) =
    if nat_beq b c
    then some (a ∷ b ∷ [], geminate)
    else if contains (0x0648 ∷ 0x064A ∷ 0x0623 ∷ []) c
    then some (a ∷ b ∷ [], final_weak)
    else none
by_shape (a ∷ b ∷ c ∷ d ∷ []) =
    if nat_beq a c && nat_beq b d then some (a ∷ b ∷ [], reduplicated) else none
by_shape f = none

abbrev pub by_two : Map Word Word → Word → Option (Word × How)
by_two arts f = if has_article arts (take 2 f) then by_shape f else none

abbrev pub by_heading : Map Word Word → Word → Option Word → Option (Word × How)
by_heading arts f none = by_two arts f
by_heading arts f (some key) =
    if has_article arts (raw_key ++ key)
    then some (raw_key ++ key, filed_under key)
    else by_two arts f

-- `none` for the two empty strings.
unfoldable pub look : Map Word Word → Word → Option (Word × How)
look arts root =
    if has_article arts (fold root)
    then some (fold root, exact)
    else by_heading arts (fold root) (get filed_elsewhere (fold root))
