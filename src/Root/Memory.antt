-- ===== src/Root/Memory.antt =====
-- `MemoryStore` of jidhr/pkg/root/store.go: a store held in memory, indexed from a corpus. A Go map
-- is an association list; the order of one that is ranged over is any order.
pub mod Attests
pub mod Attested
pub mod Lookup
pub mod Rootless
use wird.Prelude.{
  ℕ, Bool, true, false, not, ◌&&◌, ◌||◌, List, [], ◌∷◌, ◌++◌, map, Option, none, some, contains,
  nat_eq, list_eq, nat_beq, ltb, if◌then◌else◌,
}
use wird.Prelude.Attempt.{Attempt, done, fail}
use wird.Prelude.Map.{Map, get, put}
use wird.Prelude.Sort.{sort}
use wird.Text.{Word, is_empty, word_leb}
use wird.Text.Unicode.{Unicode}
use wird.Root.Types.{Entry, RootRecord, Meaning}
use wird.Root.Store.{Store, Fault, not_found}
use wird.Root.Normalize.{trim_marks, index_keys}

pub record Corpus : Type 0 where
  pub roots : List RootRecord
  pub entries : List Entry
  pub meanings : Map Word (Map Word Meaning)
  pub attested : Map Word (List Word)
  pub rootless : List Word

pub record MemoryStore : Type 0 where
  pub by_surface : Map Word Entry
  pub by_normalized : Map Word Entry
  pub by_lemma : Map Word Entry
  pub roots : Map Word RootRecord
  pub attested : Map Word (List Word)
  pub by_spelling : Map Word (List Word)
  pub rootless : Map Word Bool
  pub rootless_spelled : Map Word Bool
  pub meanings : Map Word (Map Word Meaning)

-- A map of lists or of Booleans answers the zero value for a key that it lacks.
unfoldable pub roots_at : Map Word (List Word) → Word → List Word
roots_at m k = elim (get m k) [ none ↦ [] | some rs ↦ rs ]

unfoldable pub flag_at : Map Word Bool → Word → Bool
flag_at m k = elim (get m k) [ none ↦ false | some b ↦ b ]

-- index: the first entry to claim a key wins.
unfoldable pub index : Map Word Entry → Word → Entry → Map Word Entry
index into key e =
    if is_empty key then into else elim (get into key) [ some taken ↦ into | none ↦ put into key e ]

unfoldable pub index_all : Map Word Entry → List Word → Entry → Map Word Entry
index_all into [] e = into
index_all into (k ∷ ks) e = index_all (index into k e) ks e

unfoldable pub index_roots : Map Word RootRecord → List RootRecord → Map Word RootRecord
index_roots m [] = m
index_roots m (r ∷ rs) = index_roots (put m r.root.letters r) rs

unfoldable pub index_surfaces : Map Word Entry → List Entry → Map Word Entry
index_surfaces m [] = m
index_surfaces m (e ∷ es) = index_surfaces (index m e.surface e) es

-- The loop on the entries, for the normalised spellings of one field.
unfoldable pub index_spellings :
    (Word → List Word) → (Entry → Word) → Map Word Entry → List Entry → Map Word Entry
index_spellings keys field m [] = m
index_spellings keys field m (e ∷ es) =
    index_spellings keys field (index_all m (keys (field e)) e) es

-- One root under one spelling, unless it is there.
unfoldable pub add_root : Map Word (List Word) → Word → Word → Map Word (List Word)
add_root m k r =
    if not (is_empty k) && not (contains (roots_at m k) r)
    then put m k (roots_at m k ++ r ∷ [])
    else m

unfoldable pub add_root_under : Map Word (List Word) → List Word → Word → Map Word (List Word)
add_root_under m [] r = m
add_root_under m (k ∷ ks) r = add_root_under (add_root m k r) ks r

unfoldable pub add_roots : Map Word (List Word) → List Word → List Word → Map Word (List Word)
add_roots m ks [] = m
add_roots m ks (r ∷ rs) = add_roots (add_root_under m ks r) ks rs

-- The loop on `c.Attested`, with the spellings that a form goes under.
unfoldable pub index_attested :
    (Word → List Word) → Map Word (List Word) → Map Word (List Word) → Map Word (List Word)
index_attested keys m [] = m
index_attested keys m ((form, roots) ∷ rest) =
    index_attested keys (add_roots m (keys form) roots) rest

unfoldable pub set_flags : Map Word Bool → List Word → Map Word Bool
set_flags m [] = m
set_flags m (k ∷ ks) = set_flags (if is_empty k then m else put m k true) ks

-- The loop on `c.Rootless`.
unfoldable pub index_rootless : (Word → List Word) → Map Word Bool → List Word → Map Word Bool
index_rootless keys m [] = m
index_rootless keys m (form ∷ forms) = index_rootless keys (set_flags m (keys form)) forms

unfoldable pub uses : Map Word RootRecord → Word → ℕ
uses roots letters = elim (get roots letters) [
  | none ↦ 0
  | some r ↦ elim r.quran [ none ↦ 0 | some q ↦ q.occurrences ]
]

-- The comparison of sortByUse: most used first, and a tie by the letters.
unfoldable pub use_leb : Map Word RootRecord → Word → Word → Bool
use_leb roots a b =
    if not (nat_beq (uses roots b) (uses roots a))
    then ltb (uses roots b) (uses roots a)
    else word_leb a b

unfoldable pub sort_by_use : Map Word RootRecord → Map Word (List Word) → Map Word (List Word)
sort_by_use roots [] = []
sort_by_use roots ((k, rs) ∷ m) = (k, sort (use_leb roots) rs) ∷ sort_by_use roots m

abbrev pub spelling : Word → List Word
spelling form = trim_marks form ∷ []

module _ (u : Unicode) where
  unfoldable pub new_memory_store : Corpus → MemoryStore
  new_memory_store c =
      let roots = index_roots [] c.roots in
      record {
        by_surface = index_surfaces [] c.entries;
        by_normalized = index_spellings (index_keys u) (λ e. e.surface) [] c.entries;
        by_lemma = index_spellings (index_keys u) (λ e. e.lemma) [] c.entries;
        roots = roots;
        attested = sort_by_use roots (index_attested (index_keys u) [] c.attested);
        by_spelling = sort_by_use roots (index_attested spelling [] c.attested);
        rootless = index_rootless (index_keys u) [] c.rootless;
        rootless_spelled = index_rootless spelling [] c.rootless;
        meanings = c.meanings;
      }

-- A lookup that answers ErrNotFound for a missing key.
abbrev pub answer : {V : Type 0} → Option V → Attempt Fault V
answer none = fail not_found
answer (some v) = done v

unfoldable pub find : {V : Type 0} → Map Word V → Word → Attempt Fault V
find m k = answer (get m k)

unfoldable pub meanings_in : Map Word Meaning → Map Word Meaning → List Word → Map Word Meaning
meanings_in have out [] = out
meanings_in have out (l ∷ langs) =
    meanings_in have (elim (get have l) [ none ↦ out | some mn ↦ put out l mn ]) langs

-- The methods of `*MemoryStore`. A map of no meanings is nil.
unfoldable pub memory : MemoryStore → Store
memory m = record {
  entry_by_surface = find m.by_surface;
  entry_by_normalized = find m.by_normalized;
  entry_by_lemma = find m.by_lemma;
  root = find m.roots;
  attests = λ form. done (roots_at m.attested form);
  rootless = λ n. done (flag_at m.rootless n);
  rootless_surface = λ surface. done (flag_at m.rootless_spelled (trim_marks surface));
  attests_surface = λ surface. done (roots_at m.by_spelling (trim_marks surface));
  meanings = λ letters langs.
      done (elim (get m.meanings letters) [ none ↦ [] | some have ↦ meanings_in have [] langs ]);
}
