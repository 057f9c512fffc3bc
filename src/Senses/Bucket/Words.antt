-- ===== src/Senses/Bucket/Words.antt =====
-- What the loop on the words has number_of for a root.
use wird.Prelude.{
  ◌≡◌, refl, ℕ, ◌+◌, not, ◌&&◌, Bool-cases, inl, inr, Option, none, some, List, [], ◌∷◌, ◌==◌,
  nat_eq, list_eq, pair_eq, list_beq_iff, arith, if◌then◌else◌,
}
use wird.Prelude.Map.{Map, get, get-put}
use wird.Prelude.Weights.{weigh, weight_of, weigh-put}
use wird.Text.{Word}
use wird.Senses.Bucket.{
  WordRow, Reader, Occurrences, Buckets, glosses_at, tally_at, number_of, count_gloss, is_skipped,
  key_of, gloss_of, row_step, rows_loop,
}

-- The rows of a root that are not skipped.
abbrev pub rows_of : Word → List WordRow → ℕ
rows_of letters [] = 0
rows_of letters (w ∷ words) =
    let rest = rows_of letters words in
    if not (is_skipped w) && (w.root == letters) then rest + 1 else rest

abbrev pub occurrences : Occurrences → ℕ
occurrences gs = weigh (λ (g : Word) (t : ℕ × Word). t.0) gs

abbrev pub root_weight : Word → Word × Word → Occurrences → ℕ
root_weight letters k gs = if k.0 == letters then occurrences gs else 0

abbrev pub held : Word → Map (Word × Word) Occurrences → ℕ
held letters seen = weigh (root_weight letters) seen

abbrev gloss_weight : Word → ℕ × Word → ℕ
gloss_weight g t = t.0

tally_weight :
    (g text : Word) (o : Option (ℕ × Word)) → (tally_at text o).0 ≡ weight_of gloss_weight g o
tally_weight g text none = refl
tally_weight g text (some t) = refl

occurrences-count_gloss :
    (gs : Occurrences) (g text : Word) → occurrences (count_gloss gs g text) ≡ occurrences gs + 1
unfolding count_gloss
occurrences-count_gloss gs g text =
    let t = tally_at text (get gs g) in
    omega (arith, weigh-put gloss_weight gs g (t.0 + 1, t.1), tally_weight g text (get gs g))

glosses_weight :
    (letters : Word) (k : Word × Word) (o : Option Occurrences)
    → root_weight letters k (glosses_at o) ≡ weight_of (root_weight letters) k o
glosses_weight letters k none = ground arith
glosses_weight letters k (some gs) = refl

root_weight-count :
    (letters : Word) (k : Word × Word) (gs : Occurrences) (g text : Word)
    → root_weight letters k (count_gloss gs g text)
      ≡ root_weight letters k gs + (if k.0 == letters then 1 else 0)
root_weight-count letters k gs g text = ground (arith, occurrences-count_gloss gs g text)

module _ (j : Reader) (letters : Word) where
  -- What one row adds.
  abbrev one : WordRow → ℕ
  one w = if not (is_skipped w) && (w.root == letters) then 1 else 0

  held-row_step :
      (b : Buckets) (w : WordRow) → held letters (row_step j b w).seen ≡ held letters b.seen + one w
  unfolding row_step
  held-row_step b w = elim (Bool-cases (is_skipped w)) [
    | inl e ↦ rw (e, row_step) (omega arith)
    | inr e ↦
        let k = key_of j w in
        let gs = glosses_at (get b.seen k) in
        let more = count_gloss gs (gloss_of j w) w.text in
        rw (e, row_step)
          (omega (
            arith,
            weigh-put (root_weight letters) b.seen k more,
            glosses_weight letters k (get b.seen k),
            root_weight-count letters k gs (gloss_of j w) w.text,
          ))
  ]

  counts-row_step :
      (b : Buckets) (w : WordRow)
      → number_of (get (row_step j b w).counts letters) ≡ number_of (get b.counts letters) + one w
  unfolding row_step
  counts-row_step b w = elim (Bool-cases (is_skipped w)) [
    | inl e ↦ rw (e, row_step) (omega arith)
    | inr e ↦
        rw (e, row_step)
          (ground (
            arith,
            get-put b.counts w.root letters (number_of (get b.counts w.root) + 1),
            list_beq_iff w.root letters,
          ))
  ]

  pub held-rows_loop :
      (b : Buckets) (words : List WordRow)
      → held letters (rows_loop j b words).seen ≡ held letters b.seen + rows_of letters words
  unfolding rows_loop
  held-rows_loop b [] = omega arith
  held-rows_loop b (w ∷ words) =
      ground (arith, held-rows_loop (row_step j b w) words, held-row_step b w)

  pub counts-rows_loop :
      (b : Buckets) (words : List WordRow)
      → number_of (get (rows_loop j b words).counts letters)
        ≡ number_of (get b.counts letters) + rows_of letters words
  unfolding rows_loop
  counts-rows_loop b [] = omega arith
  counts-rows_loop b (w ∷ words) =
      ground (arith, counts-rows_loop (row_step j b w) words, counts-row_step b w)
