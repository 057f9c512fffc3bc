-- ===== src/Senses/Bucket.antt =====
-- Bucket and stemFeatures of server/internal/rootsense/corpus.go: the words of the corpus, grouped by
-- root, shape and gloss.
pub mod Words
pub mod Roots
use Prim.Native.String.{String}
use wird.Prelude.{
  ℕ, ◌+◌, Bool, true, false, not, ◌||◌, List, [], ◌∷◌, ◌++◌, map, Option, none, some, contains,
  ◌==◌, nat_eq, list_eq, pair_eq, if◌then◌else◌,
}
use wird.Prelude.Map.{Map, get, put}
use wird.Prelude.Sort.{sort}
use wird.Text.{Word, is_empty, word_leb, trim_space}
use wird.Text.Ascii.{ascii}
use wird.Senses.Stem.{tokens}
use wird.Senses.Corpus.{Gloss, Slot, Index, Root, slot_of, add}

pub record WordRow : Type 0 where
  pub root : Word
  pub gloss : Word
  pub text : Word
  pub form : Word
  pub morphology : Word

-- The JSON decoder on a morphology, by the features of each segment, and strings.ToLower.
pub record Reader : Type 0 where
  pub segments : Word → Option (List (List Word))
  pub to_lower : Word → Word

abbrev pub first_stem_segment : List (List Word) → List Word
first_stem_segment [] = []
first_stem_segment (features ∷ segs) =
    if contains features (ascii "STEM") then features else first_stem_segment segs

abbrev pub or_nil : Option (List (List Word)) → List (List Word)
or_nil none = []
or_nil (some segs) = segs

abbrev pub Occurrences : Type 0
Occurrences = Map Word (ℕ × Word)

-- The variables of the loop on the words: seen, counts, and the dispersion of the index.
pub record Buckets : Type 0 where
  pub seen : Map (Word × Word) Occurrences
  pub counts : Map Word ℕ
  pub dispersion : Map Word (List Word)

abbrev pub glosses_at : Option Occurrences → Occurrences
glosses_at none = []
glosses_at (some gs) = gs

abbrev pub tally_at : Word → Option (ℕ × Word) → ℕ × Word
tally_at text none = (0, trim_space text)
tally_at text (some t) = t

abbrev pub number_of : Option ℕ → ℕ
number_of none = 0
number_of (some n) = n

abbrev pub roots_at : Option (List Word) → List Word
roots_at none = []
roots_at (some roots) = roots

-- t.n++ on the gloss, which is there afterwards.
unfoldable pub count_gloss : Occurrences → Word → Word → Occurrences
count_gloss gs g text = let t = tally_at text (get gs g) in put gs g (t.0 + 1, t.1)

unfoldable pub disperse : Word → Map Word (List Word) → List Word → Map Word (List Word)
disperse root dispersion [] = dispersion
disperse root dispersion (tok ∷ toks) =
    disperse root (put dispersion tok (add (roots_at (get dispersion tok)) root)) toks

abbrev pub is_skipped : WordRow → Bool
is_skipped w = is_empty w.root || is_empty (trim_space w.gloss)

module _ (j : Reader) where
  unfoldable pub stem_features : Word → List Word
  stem_features morphology = first_stem_segment (or_nil (j.segments morphology))

  abbrev pub key_of : WordRow → Word × Word
  key_of w = (w.root, slot_of w.form (stem_features w.morphology))

  abbrev pub gloss_of : WordRow → Word
  gloss_of w = j.to_lower (trim_space w.gloss)

  unfoldable pub row_step : Buckets → WordRow → Buckets
  row_step b w = if is_skipped w then b else record {
    seen =
        put b.seen (key_of w)
          (count_gloss (glosses_at (get b.seen (key_of w))) (gloss_of w) w.text);
    counts = put b.counts w.root (number_of (get b.counts w.root) + 1);
    dispersion = disperse w.root b.dispersion (tokens j.to_lower (gloss_of w));
  }

  unfoldable pub rows_loop : Buckets → List WordRow → Buckets
  rows_loop b [] = b
  rows_loop b (w ∷ words) = rows_loop (row_step b w) words

abbrev pub gloss_entry : Word × (ℕ × Word) → Gloss
gloss_entry (g, (n, word)) = record { text = g; n = n; word = word }

abbrev pub text_leb : Gloss → Gloss → Bool
text_leb a b = word_leb a.text b.text

abbrev pub name_leb : Slot → Slot → Bool
name_leb a b = word_leb a.name b.name

abbrev pub slot_entry : Word → Occurrences → Slot
slot_entry name gs = record { name = name; glosses = sort text_leb (map gloss_entry gs) }

module _ (ix : Index) (counts : Map Word ℕ) where
  abbrev pub root_at : Word → Option Root → Root
  root_at letters none = record {
    letters = letters;
    slots = [];
    words = number_of (get counts letters);
    ix = some ix;
  }
  root_at letters (some r) = r

  -- The loop on `seen`.
  unfoldable pub roots_loop : Map Word Root → Map (Word × Word) Occurrences → Map Word Root
  roots_loop out [] = out
  roots_loop out (((letters, name), gs) ∷ seen) =
      let r = root_at letters (get out letters) in
      roots_loop (put out letters (record r { slots = r.slots ++ slot_entry name gs ∷ [] })) seen

-- The last loop: the slots of each root by their names.
abbrev pub sort_slots : Word × Root → Word × Root
sort_slots (letters, r) = (letters, record r { slots = sort name_leb r.slots })

abbrev pub no_buckets : Buckets
no_buckets = record { seen = []; counts = []; dispersion = [] }

unfoldable pub bucket : Reader → List WordRow → Map Word Root
bucket j words =
    let b = rows_loop j no_buckets words in
    map sort_slots (roots_loop (record { dispersion = b.dispersion }) b.counts [] b.seen)
