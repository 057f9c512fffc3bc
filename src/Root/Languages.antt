-- ===== src/Root/Languages.antt =====
-- `Languages` of jidhr/pkg/root/store.go: the languages that a store in memory holds meanings in.
use wird.Prelude.{
  ◌≡◌, ◌↔◌, ◌∙◌, Bool, true, ◌||◌, List, [], ◌∷◌, ◌++◌, contains, IsNodup, IsNodup-snoc,
  contains-append, any, Bool-cases, inl, inr, nat_eq, list_beq_iff, list_eq, ◌==◌, arith,
  if◌then◌else◌,
}
use wird.Prelude.Map.{Map}
use wird.Prelude.Sort.{sort, IsSorted, IsTotalOrder, sort-IsSorted, sort-IsNodup, contains-sort}
use wird.Text.{Word, word_leb}
use wird.Text.Order.{word_leb-total, word_leb_trans}
use wird.Root.Types.{Meaning}
use wird.Root.Memory.{MemoryStore}

unfoldable pub add_languages : List Word → Map Word Meaning → List Word
add_languages langs [] = langs
add_languages langs ((lang, mn) ∷ by) =
    add_languages (if contains langs lang then langs else langs ++ lang ∷ []) by

-- The two loops on the meanings.
unfoldable pub collect_languages : List Word → Map Word (Map Word Meaning) → List Word
unfolding add_languages
collect_languages langs [] = langs
collect_languages langs ((letters, by) ∷ meanings) =
    collect_languages (add_languages langs by) meanings

unfoldable pub languages : MemoryStore → List Word
languages m = sort word_leb (collect_languages [] m.meanings)

-- A language that some meaning is written in.
abbrev pub writes : Word → Map Word Meaning → Bool
writes lang by = any (λ e. lang == e.0) by

-- Two spellings that test as equal are one.
same : (x y : Word) → ((x == y) ≡ true) ↔ (x ≡ y)
same x y = list_beq_iff x y

contains-add_languages :
    (langs : List Word) (by : Map Word Meaning) (x : Word)
    → contains (add_languages langs by) x ≡ (contains langs x || writes x by)
unfolding add_languages
contains-add_languages langs [] x = ground arith
contains-add_languages langs ((lang, mn) ∷ by) x = elim (Bool-cases (contains langs lang)) [
  | inl old ↦ ground (arith, old, contains-add_languages langs by x, same x lang)
  | inr new ↦ ground (
    arith,
    new,
    contains-add_languages (langs ++ lang ∷ []) by x,
    contains-append langs (lang ∷ []) x,
  )
]

add_languages-IsNodup :
    (langs : List Word) (by : Map Word Meaning) → IsNodup langs → IsNodup (add_languages langs by)
unfolding add_languages
add_languages-IsNodup langs [] h = h
add_languages-IsNodup langs ((lang, mn) ∷ by) h = elim (Bool-cases (contains langs lang)) [
  | inl old ↦ rw old (add_languages-IsNodup langs by h)
  | inr new ↦ rw new (add_languages-IsNodup (langs ++ lang ∷ []) by (IsNodup-snoc langs lang h new))
]

contains-collect_languages :
    (langs : List Word) (meanings : Map Word (Map Word Meaning)) (x : Word)
    → contains (collect_languages langs meanings) x
      ≡ (contains langs x || any (λ e. writes x e.1) meanings)
unfolding collect_languages
contains-collect_languages langs [] x = ground arith
contains-collect_languages langs ((letters, by) ∷ meanings) x = ground (
  arith,
  contains-collect_languages (add_languages langs by) meanings x,
  contains-add_languages langs by x,
)

collect_languages-IsNodup :
    (langs : List Word) (meanings : Map Word (Map Word Meaning))
    → IsNodup langs
    → IsNodup (collect_languages langs meanings)
unfolding collect_languages
collect_languages-IsNodup langs [] h = h
collect_languages-IsNodup langs ((letters, by) ∷ meanings) h =
    collect_languages-IsNodup (add_languages langs by) meanings (add_languages-IsNodup langs by h)

word_leb-IsTotalOrder : IsTotalOrder word_leb
word_leb-IsTotalOrder = record { total = word_leb-total; trans = word_leb_trans }

-- The languages of a store in memory are in order and without repetition, and a language is
-- among them exactly when some meaning of the store is written in it.
pub languages_exact :
    (m : MemoryStore)
    → IsSorted word_leb (languages m)
      × IsNodup (languages m)
      × ((lang : Word) → contains (languages m) lang ≡ any (λ e. writes lang e.1) m.meanings)
unfolding languages
languages_exact m = (
  sort-IsSorted word_leb word_leb-IsTotalOrder _,
  sort-IsNodup word_leb _ (collect_languages-IsNodup [] m.meanings tt),
  λ lang. contains-sort word_leb _ lang ∙ contains-collect_languages [] m.meanings lang,
)
