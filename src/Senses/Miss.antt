-- ===== src/Senses/Miss.antt =====
-- server/internal/rootsense/miss.go: the gloss of the most occurrences that a sense leaves unexplained.
use wird.Prelude.{
  ℕ, Bool, not, ◌&&◌, List, [], ◌∷◌, Option, none, some, any, leb, nat_beq, if◌then◌else◌,
}
use wird.Text.{Word}
use wird.Senses.Stem.{tokens}
use wird.Senses.Corpus.{Gloss, Slot, Root}
use wird.Senses.Glosses.{is_nil, agrees}
use wird.Senses.Score.{Floats, check}

module _ (to_lower : Word → Word) (stems : List Word) where
  -- A gloss with a word in it, none of which the sense is related to.
  abbrev pub is_missed : Gloss → Bool
  is_missed g =
      not (is_nil (tokens to_lower g.text)) && not (any (agrees (tokens to_lower g.text)) stems)

  unfoldable pub miss_step : Word × ℕ → Gloss → Word × ℕ
  miss_step (best, most) g =
      if leb g.n most
      then (best, most)
      else if is_nil (tokens to_lower g.text)
      then (best, most)
      else if any (agrees (tokens to_lower g.text)) stems
      then (best, most)
      else (g.text, g.n)

  unfoldable pub miss_glosses : Word × ℕ → List Gloss → Word × ℕ
  miss_glosses best [] = best
  miss_glosses best (g ∷ glosses) = miss_glosses (miss_step best g) glosses

  unfoldable pub miss_slots : Word × ℕ → List Slot → Word × ℕ
  miss_slots best [] = best
  miss_slots best (s ∷ slots) = miss_slots (miss_glosses best s.glosses) slots

-- The gloss with its count. A root is there, since the loop reads its slots.
unfoldable pub biggest_miss :
    {F : Type 0} → Floats F → (Word → Word) → Root → Word → Option (Word × ℕ)
biggest_miss fl to_lower root sense =
    if nat_beq (check fl to_lower (some root) sense).tested 0
    then none
    else some (miss_slots to_lower (tokens to_lower sense) ([], 0) root.slots)
