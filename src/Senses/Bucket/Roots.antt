-- ===== src/Senses/Bucket/Roots.antt =====
-- No word of the corpus is lost or number_of twice by Bucket.
use wird.Prelude.{
  ◌≡◌, refl, sym, ap, subst, ◌∙◌, ℕ, ◌+◌, true, false, Bool-cases, ◌⊎◌, inl, inr, Option, none,
  some, List, [], ◌∷◌, ◌++◌, map, ◌==◌, nat_eq, list_eq, pair_eq, list_beq_iff, arith,
  if◌then◌else◌,
}
use wird.Prelude.Map.{Map, get, put, get-put}
use wird.Prelude.Weights.{total, total-append, total-sort}
use wird.Text.{Word}
use wird.Senses.Corpus.{Gloss, Slot, Index, Root}
use wird.Senses.Bucket.{
  WordRow, Reader, Occurrences, number_of, rows_loop, gloss_entry, text_leb, name_leb, slot_entry,
  root_at, roots_loop, sort_slots, no_buckets, bucket,
}
use wird.Senses.Bucket.Words.{
  rows_of, occurrences, root_weight, held, held-rows_loop, counts-rows_loop,
}

abbrev pub slot_total : Slot → ℕ
slot_total s = total (λ (g : Gloss). g.n) s.glosses

-- The occurrences that the glosses of a root carry, and those it says it has; of no root, none.
abbrev pub carried : Option Root → ℕ
carried none = 0
carried (some r) = total slot_total r.slots

abbrev pub said : Option Root → ℕ
said none = 0
said (some r) = r.words

total-gloss_entries :
    (gs : Occurrences) → total (λ (g : Gloss). g.n) (map gloss_entry gs) ≡ occurrences gs
total-gloss_entries [] = refl
total-gloss_entries ((g, (n, word)) ∷ gs) = ap (λ s. n + s) (total-gloss_entries gs)

slot_total-slot_entry :
    (name : Word) (gs : Occurrences) → slot_total (slot_entry name gs) ≡ occurrences gs
slot_total-slot_entry name gs =
    total-sort (λ (g : Gloss). g.n) text_leb (map gloss_entry gs) ∙ total-gloss_entries gs

module _ (ix : Index) (counts : Map Word ℕ) (letters : Word) where
  carried-root_at :
      (l : Word) (o : Option Root) → total slot_total (root_at ix counts l o).slots ≡ carried o
  carried-root_at l none = refl
  carried-root_at l (some r) = refl

  abbrev extended : Map Word Root → Word → Word → Occurrences → Root
  extended out l name gs = record (root_at ix counts l (get out l)) {
    slots = (root_at ix counts l (get out l)).slots ++ slot_entry name gs ∷ [];
  }

  carried-extended :
      (out : Map Word Root) (l name : Word) (gs : Occurrences)
      → total slot_total (extended out l name gs).slots ≡ carried (get out l) + occurrences gs
  carried-extended out l name gs = omega (
    arith,
    total-append slot_total (root_at ix counts l (get out l)).slots (slot_entry name gs ∷ []),
    slot_total-slot_entry name gs,
    carried-root_at l (get out l),
  )

  carried-put :
      (out : Map Word Root) (l name : Word) (gs : Occurrences)
      → carried (get (put out l (extended out l name gs)) letters)
        ≡ carried (get out letters) + root_weight letters (l, name) gs
  carried-put out l name gs =
      ap carried (get-put out l letters (extended out l name gs))
      ∙ by_key (Bool-cases (l == letters))
    where
      by_key :
          (((l == letters) ≡ true) ⊎ ((l == letters) ≡ false))
          → carried (if l == letters then some (extended out l name gs) else get out letters)
            ≡ carried (get out letters) + root_weight letters (l, name) gs
      by_key (inl e) = rw e (
          carried-extended out l name gs
          ∙ ap (λ k. carried (get out k) + occurrences gs) ((list_beq_iff l letters).0 e))
      by_key (inr e) = rw e (omega arith)

  carried-roots_loop :
      (out : Map Word Root) (seen : Map (Word × Word) Occurrences)
      → carried (get (roots_loop ix counts out seen) letters)
        ≡ carried (get out letters) + held letters seen
  unfolding roots_loop
  carried-roots_loop out [] = omega arith
  carried-roots_loop out (((l, name), gs) ∷ seen) = omega (
    arith,
    carried-roots_loop (put out l (extended out l name gs)) seen,
    carried-put out l name gs,
  )

  -- The roots that are out say what was number_of for them.
  abbrev SaysCount : Word → Option Root → Type 0
  SaysCount l none = Unit {0}
  SaysCount l (some r) = r.words ≡ number_of (get counts l)

  root_at-SaysCount :
      (l : Word) (o : Option Root)
      → SaysCount l o
      → (root_at ix counts l o).words ≡ number_of (get counts l)
  root_at-SaysCount l none h = refl
  root_at-SaysCount l (some r) h = h

  put-SaysCount :
      (out : Map Word Root) (l name : Word) (gs : Occurrences)
      → SaysCount letters (get out letters)
      → SaysCount letters (get (put out l (extended out l name gs)) letters)
  put-SaysCount out l name gs h =
      subst (SaysCount letters) (sym (get-put out l letters (extended out l name gs)))
        (by_key (Bool-cases (l == letters)))
    where
      by_key :
          (((l == letters) ≡ true) ⊎ ((l == letters) ≡ false))
          → SaysCount letters
              (if l == letters then some (extended out l name gs) else get out letters)
      by_key (inl e) =
          let at_l : SaysCount l (get out l) =
            subst (λ k. SaysCount k (get out k)) (sym ((list_beq_iff l letters).0 e)) h in
          rw e (
            root_at-SaysCount l (get out l) at_l
            ∙ ap (λ k. number_of (get counts k)) ((list_beq_iff l letters).0 e))
      by_key (inr e) = rw e h

  says-roots_loop :
      (out : Map Word Root) (seen : Map (Word × Word) Occurrences)
      → SaysCount letters (get out letters)
      → SaysCount letters (get (roots_loop ix counts out seen) letters)
  unfolding roots_loop
  says-roots_loop out [] h = h
  says-roots_loop out (((l, name), gs) ∷ seen) h =
      says-roots_loop (put out l (extended out l name gs)) seen (put-SaysCount out l name gs h)

-- Sorting the slots changes neither.
carried-sort_slots :
    (m : Map Word Root) (letters : Word)
    → carried (get (map sort_slots m) letters) ≡ carried (get m letters)
unfolding get
carried-sort_slots [] letters = refl
carried-sort_slots ((l, r) ∷ m) letters =
    ground (arith, carried-sort_slots m letters, total-sort slot_total name_leb r.slots)

said-sort_slots :
    (m : Map Word Root) (letters : Word)
    → said (get (map sort_slots m) letters) ≡ said (get m letters)
unfolding get
said-sort_slots [] letters = refl
said-sort_slots ((l, r) ∷ m) letters = ground (arith, said-sort_slots m letters)

said-carried :
    (ix : Index) (counts : Map Word ℕ) (letters : Word) (o : Option Root)
    → SaysCount ix counts letters letters o
    → carried o ≡ number_of (get counts letters)
    → said o ≡ number_of (get counts letters)
said-carried ix counts letters none h k = k
said-carried ix counts letters (some r) h k = h

-- The glosses of a root carry as many occurrences as the corpus has words of that root with a gloss,
-- and as many are said of it; a root that is not in the answer has none.
pub bucket_words :
    (j : Reader) (words : List WordRow) (letters : Word)
    → (carried (get (bucket j words) letters) ≡ rows_of letters words)
      × (said (get (bucket j words) letters) ≡ rows_of letters words)
unfolding bucket get
bucket_words j words letters =
    let b = rows_loop j no_buckets words in
    let ix : Index = record { dispersion = b.dispersion } in
    let out = roots_loop ix b.counts [] b.seen in
    let kept : carried (get out letters) ≡ rows_of letters words = omega (
      arith,
      carried-roots_loop ix b.counts letters [] b.seen,
      held-rows_loop j letters no_buckets words,
    ) in
    let counts : number_of (get b.counts letters) ≡ rows_of letters words =
      omega (arith, counts-rows_loop j letters no_buckets words) in
    (
      carried-sort_slots out letters ∙ kept,
      said-sort_slots out letters
          ∙ said-carried ix b.counts letters (get out letters)
              (says-roots_loop ix b.counts letters [] b.seen tt) (kept ∙ sym counts)
          ∙ counts,
    )
