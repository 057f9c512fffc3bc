-- ===== src/Senses/Corpus.antt =====
-- The data of server/internal/rootsense/corpus.go, with Bucket's view across the roots and slotOf.
use Prim.Native.String.{String}
use wird.Prelude.{
  ℕ, Bool, false, not, ◌&&◌, ◌||◌, List, [], ◌∷◌, ◌++◌, Option, none, some, length, contains,
  nat_eq, list_eq, if◌then◌else◌,
}
use wird.Prelude.Texts.{string_eq}
use wird.Prelude.Map.{Map}
use wird.Text.{Word, is_empty}
use wird.Text.Ascii.{ascii}
use wird.Senses.Stem.{related}

-- A gloss, the occurrences that carry it, and a word that does.
pub record Gloss : Type 0 where
  pub text : Word
  pub n : ℕ
  pub word : Word

pub record Slot : Type 0 where
  pub name : Word
  pub glosses : List Gloss

pub record Support : Type 0 where
  pub word : Word
  pub gloss : Word
  pub slot : Word

-- For each stem of a gloss, the roots glossed with it. The memory of rootsOf is left out: it holds
-- what rootsOf would compute again.
pub record Index : Type 0 where
  pub dispersion : Map Word (List Word)

-- `ix` is a pointer, and may be nil.
pub record Root : Type 0 where
  pub letters : Word
  pub slots : List Slot
  pub words : ℕ
  pub ix : Option Index

unfoldable pub slot_of : Word → List Word → Word
slot_of form feats =
    let has = λ (f : String). contains feats (ascii f) in
    if has "PCPL" && has "ACT"
    then ascii "act-pcpl"
    else if has "PCPL" && has "PASS"
    then ascii "pass-pcpl"
    else if has "VN"
    then ascii "verbal-noun"
    else if has "PASS"
    then ascii "pass-verb"
    else if not (is_empty form)
    then ascii "form-" ++ form
    else ascii "noun"

-- A set of words as a list without repetition.
unfoldable pub add : List Word → Word → List Word
add set w = if contains set w then set else set ++ w ∷ []

unfoldable pub add_all : List Word → List Word → List Word
add_all set [] = set
add_all set (w ∷ words) = add_all (add set w) words

unfoldable pub roots_in : Word → Map Word (List Word) → List Word → List Word
roots_in stem [] roots = roots
roots_in stem ((g, rs) ∷ dispersion) roots =
    roots_in stem dispersion
      (if not (related stem g) && not (related g stem) then roots else add_all roots rs)

unfoldable pub roots_of : Option Index → Word → List Word
roots_of none stem = []
roots_of (some ix) stem = roots_in stem ix.dispersion []

unfoldable pub roots_using : Option Index → Word → ℕ
roots_using ix stem = length (roots_of ix stem)

-- Whether a root of the second list is in the first.
abbrev pub meets : List Word → List Word → Bool
meets rs [] = false
meets rs (r ∷ others) = contains rs r || meets rs others

unfoldable pub company : Option Index → Word → List Word → Bool
company ix word [] = false
company ix word (a ∷ attested) =
    meets (roots_of ix word) (roots_of ix a) || company ix word attested
