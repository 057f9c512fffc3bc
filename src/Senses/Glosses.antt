-- ===== src/Senses/Glosses.antt =====
-- The loop of Check on the slots of a root and their glosses, in server/internal/rootsense/score.go.
pub mod Counts
use Prim.Native.String.{String}
use wird.Prelude.{
  ℕ, ◌+◌, Bool, true, false, not, ◌&&◌, ◌||◌, List, [], ◌∷◌, ◌++◌, Option, none, some, length, keep,
  any, map, contains, ltb, leb, ◌==◌, nat_eq, list_eq, if◌then◌else◌,
}
use wird.Prelude.Map.{Map, get, put}
use wird.Text.{Word, is_empty}
use wird.Text.Ascii.{ascii}
use wird.Senses.English.{markers}
use wird.Senses.Stem.{stem, tokens, related}
use wird.Senses.Corpus.{Gloss, Slot, Support, add}

pub record SlotResult : Type 0 where
  pub name : Word
  pub agreed : ℕ
  pub total : ℕ
  pub examples : List Word

-- A gloss that the sense is answerable for.
pub record Tested : Type 0 where
  pub residue : List Word
  pub n : ℕ

-- The variables that the loop changes, `occurrences` for res.Tested.
pub record Tally : Type 0 where
  pub occurrences : ℕ
  pub used : List Word
  pub covered : ℕ
  pub miss : Map Word ℕ
  pub answerable : List Tested
  pub support : List Support

abbrev pub is_nil {ℓ} : {A : Type ℓ} → List A → Bool
is_nil [] = true
is_nil (x ∷ xs) = false

abbrev pub agrees : List Word → Word → Bool
agrees residue a = any (related a) residue

-- The two inner loops: a stem of the sense that is related to a word of the gloss is used.
unfoldable pub mark_used : List Word → List Word → List Word → List Word
mark_used residue used [] = used
mark_used residue used (a ∷ stems) =
    mark_used residue (if agrees residue a then add used a else used) stems

abbrev pub count_at : Map Word ℕ → Word → ℕ
count_at miss w = elim (get miss w) [ none ↦ 0 | some n ↦ n ]

-- miss[b] += n
unfoldable pub add_miss : ℕ → Map Word ℕ → List Word → Map Word ℕ
add_miss n miss [] = miss
add_miss n miss (b ∷ residue) = add_miss n (put miss b (count_at miss b + n)) residue

unfoldable pub with_example : List Word → Word → List Word
with_example examples text = if ltb (length examples) 4 then examples ++ text ∷ [] else examples

unfoldable pub markers_of : List (String × List Word) → Word → List Word
markers_of [] name = []
markers_of ((shape, words) ∷ table) name =
    if ascii shape == name then words else markers_of table name

-- explained
unfoldable pub explained : List Tested → List Word → ℕ
explained [] stems = 0
explained (g ∷ gs) stems =
    let rest = explained gs stems in if any (agrees g.residue) stems then g.n + rest else rest

module _ (to_lower : Word → Word) (stems : List Word) where
  module _ (slot : Slot) where
    abbrev pub strip_set : List Word
    strip_set = map stem (markers_of markers slot.name)

    abbrev pub residue_of : Gloss → List Word
    residue_of gloss = keep (λ t. not (contains strip_set t)) (tokens to_lower gloss.text)

    -- From `sr.Total++` on, for a residue that is not empty.
    unfoldable pub judge : List Word → Gloss → SlotResult × Tally → SlotResult × Tally
    judge residue gloss (sr, t) =
        if any (agrees residue) stems
        then (
          record sr { agreed = sr.agreed + 1; total = sr.total + 1 },
          record {
            occurrences = t.occurrences + gloss.n;
            used = mark_used residue t.used stems;
            covered = t.covered + gloss.n;
            miss = t.miss;
            answerable = t.answerable ++ record { residue = residue; n = gloss.n } ∷ [];
            support =
                t.support
                ++ record { word = gloss.word; gloss = gloss.text; slot = slot.name } ∷ [];
          },
        )
        else (
          record sr { total = sr.total + 1; examples = with_example sr.examples gloss.text },
          record t {
            occurrences = t.occurrences + gloss.n;
            miss = add_miss gloss.n t.miss residue;
            answerable = t.answerable ++ record { residue = residue; n = gloss.n } ∷ [];
          },
        )

    unfoldable pub gloss_step : Gloss → SlotResult × Tally → SlotResult × Tally
    gloss_step gloss (sr, t) =
        if is_nil (tokens to_lower gloss.text)
        then (sr, record t { occurrences = t.occurrences + gloss.n })
        else if is_nil (residue_of gloss)
        then (sr, t)
        else judge (residue_of gloss) gloss (sr, t)

    unfoldable pub glosses_loop : List Gloss → SlotResult × Tally → SlotResult × Tally
    glosses_loop [] s = s
    glosses_loop (gloss ∷ glosses) s = glosses_loop glosses (gloss_step gloss s)

  abbrev pub new_slot : Word → SlotResult
  new_slot name = record { name = name; agreed = 0; total = 0; examples = [] }

  abbrev pub with_slot : List SlotResult → SlotResult × Tally → List SlotResult × Tally
  with_slot slots (sr, t) = (if ltb 0 sr.total then slots ++ sr ∷ [] else slots, t)

  unfoldable pub slots_loop : List Slot → List SlotResult × Tally → List SlotResult × Tally
  slots_loop [] s = s
  slots_loop (slot ∷ rest) (slots, t) =
      slots_loop rest (with_slot slots (glosses_loop slot slot.glosses (new_slot slot.name, t)))

abbrev pub no_tally : Tally
no_tally = record {
  occurrences = 0;
  used = [];
  covered = 0;
  miss = [];
  answerable = [];
  support = [];
}
