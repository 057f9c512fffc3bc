-- ===== src/Senses/Glosses/Counts.antt =====
-- What the loop on the glosses has counted at its end, said over the glosses that the sense answers
-- for.
use wird.Prelude.{
  ◌≡◌, refl, sym, ap, ◌∙◌, subst, not, keep, ℕ, ◌+◌, ◌≤◌, Bool, true, false, ◌&&◌, ◌||◌, List, [],
  ◌∷◌, ◌++◌, any, contains, contains-append, ◌==◌, nat_eq, list_eq, list_beq_iff, if◌then◌else◌,
  arith, Bool-cases, inl, inr,
}
use mathlib.Core.List.{append_assoc, append-nil}
use wird.Prelude.Map.{Map, get, put, get-put}
use wird.Text.{Word}
use wird.Senses.Stem.{tokens}
use wird.Senses.Corpus.{Gloss, Slot, add}
use wird.Senses.Glosses.{
  SlotResult, Tested, Tally, is_nil, agrees, mark_used, count_at, add_miss, explained, judge,
  gloss_step, glosses_loop, slots_loop, no_tally, residue_of, strip_set, new_slot, with_slot,
}

-- The occurrences of a gloss, for each time that the word stands in what is left of it.
abbrev pub occurring : Word → ℕ → List Word → ℕ
occurring w n [] = 0
occurring w n (b ∷ residue) = let rest = occurring w n residue in if b == w then n + rest else rest

module _ (stems : List Word) where
  abbrev pub is_explained : Tested → Bool
  is_explained g = any (agrees g.residue) stems

  -- What a word counts in the glosses that are not explained.
  abbrev pub missed : Word → List Tested → ℕ
  missed w [] = 0
  missed w (g ∷ gs) =
      let rest = missed w gs in if is_explained g then rest else occurring w g.n g.residue + rest

  abbrev pub is_used : List Tested → Word → Bool
  is_used gs a = contains stems a && any (λ (g : Tested). agrees g.residue a) gs

  pub record IsCounted (t : Tally) : Type 0 where
    pub covered : t.covered ≡ explained t.answerable stems
    pub bounded : t.covered ≤ t.occurrences
    pub miss : (w : Word) → count_at t.miss w ≡ missed w t.answerable
    pub used : (a : Word) → contains t.used a ≡ is_used t.answerable a

  explained-snoc :
      (gs : List Tested) (g : Tested)
      → explained (gs ++ g ∷ []) stems
        ≡ (if is_explained g then explained gs stems + g.n else explained gs stems)
  unfolding explained
  explained-snoc [] g = ground arith
  explained-snoc (x ∷ gs) g = ground (arith, explained-snoc gs g)

  missed-snoc :
      (w : Word) (gs : List Tested) (g : Tested)
      → missed w (gs ++ g ∷ [])
        ≡ (if is_explained g then missed w gs else missed w gs + occurring w g.n g.residue)
  missed-snoc w [] g = ground arith
  missed-snoc w (x ∷ gs) g = ground (arith, missed-snoc w gs g)

count_at-put :
    (miss : Map Word ℕ) (b w : Word) (n : ℕ)
    → count_at (put miss b n) w ≡ (if b == w then n else count_at miss w)
count_at-put miss b w n = ground (arith, get-put miss b w n)

count_at-add_miss :
    (n : ℕ) (miss : Map Word ℕ) (residue : List Word) (w : Word)
    → count_at (add_miss n miss residue) w ≡ count_at miss w + occurring w n residue
unfolding add_miss
count_at-add_miss n miss [] w = omega arith
count_at-add_miss n miss (b ∷ residue) w = ground (
  arith,
  count_at-add_miss n (put miss b (count_at miss b + n)) residue w,
  count_at-put miss b w (count_at miss b + n),
  list_beq_iff b w,
)

contains-add :
    (set : List Word) (w x : Word) → contains (add set w) x ≡ (contains set x || (x == w))
unfolding add
contains-add set w x = elim (Bool-cases (contains set w)) [
  | inl e ↦ ground (arith, e, list_beq_iff x w)
  | inr e ↦ ground (arith, e, contains-append set (w ∷ []) x)
]

contains-mark_used :
    (residue used stems : List Word) (a : Word)
    → contains (mark_used residue used stems) a
      ≡ (contains used a || (contains stems a && agrees residue a))
unfolding mark_used
contains-mark_used residue used [] a = ground arith
contains-mark_used residue used (s ∷ stems) a = ground (
  arith,
  contains-mark_used residue (if agrees residue s then add used s else used) stems a,
  contains-add used s a,
  list_beq_iff a s,
)

any-snoc :
    (a : Word) (gs : List Tested) (g : Tested)
    → any (λ (x : Tested). agrees x.residue a) (gs ++ g ∷ [])
      ≡ (any (λ (x : Tested). agrees x.residue a) gs || agrees g.residue a)
any-snoc a [] g = ground arith
any-snoc a (x ∷ gs) g = ground (arith, any-snoc a gs g)

-- No member passes a test that none of the list does.
none_passes :
    (p : Word → Bool) (words : List Word) (a : Word)
    → any p words ≡ false
    → contains words a ≡ true
    → p a ≡ false
none_passes p [] a h m = cc
none_passes p (w ∷ words) a h m = elim (Bool-cases (a == w)) [
  | inl e ↦ subst (λ x. p x ≡ false) (sym ((list_beq_iff a w).0 e)) (ground (arith, h))
  | inr e ↦ none_passes p words a (ground (arith, h)) (ground (arith, e, m))
]

module _ (to_lower : Word → Word) (stems : List Word) where
  module _ (slot : Slot) where
    judge-IsCounted :
        (residue : List Word) (gloss : Gloss) (sr : SlotResult) (t : Tally)
        → IsCounted stems t
        → IsCounted stems (judge to_lower stems slot residue gloss (sr, t)).1
    unfolding judge
    judge-IsCounted residue gloss sr t h =
        let g : Tested = record { residue = residue; n = gloss.n } in
        elim (Bool-cases (any (agrees residue) stems)) [
          | inl e ↦
              rw (e, judge)
                (record {
                  covered = ground (arith, e, h.covered, explained-snoc stems t.answerable g);
                  bounded = omega (arith, h.bounded);
                  miss = λ w. ground (arith, e, h.miss w, missed-snoc stems w t.answerable g);
                  used = λ a. ground (
                    arith,
                    e,
                    h.used a,
                    contains-mark_used residue t.used stems a,
                    any-snoc a t.answerable g,
                  );
                })
          | inr e ↦
              rw (e, judge)
                (record {
                  covered = ground (arith, e, h.covered, explained-snoc stems t.answerable g);
                  bounded = omega (arith, h.bounded);
                  miss = λ w. ground (
                    arith,
                    e,
                    h.miss w,
                    missed-snoc stems w t.answerable g,
                    count_at-add_miss gloss.n t.miss residue w,
                  );
                  used = λ a. ground (
                    arith,
                    e,
                    h.used a,
                    none_passes (agrees residue) stems a e,
                    any-snoc a t.answerable g,
                  );
                })
        ]

    gloss_step-IsCounted :
        (gloss : Gloss) (sr : SlotResult) (t : Tally)
        → IsCounted stems t
        → IsCounted stems (gloss_step to_lower stems slot gloss (sr, t)).1
    unfolding gloss_step
    gloss_step-IsCounted gloss sr t h = elim (Bool-cases (is_nil (tokens to_lower gloss.text))) [
      | inl e ↦
          rw (e, gloss_step)
            (record {
              covered = h.covered;
              bounded = omega (arith, h.bounded);
              miss = h.miss;
              used = h.used;
            })
      | inr e ↦ elim (Bool-cases (is_nil (residue_of to_lower stems slot gloss))) [
        | inl f ↦ rw (e, f, gloss_step) h
        | inr f ↦
            rw (e, f, gloss_step)
              (judge-IsCounted (residue_of to_lower stems slot gloss) gloss sr t h)
      ]
    ]

    glosses_loop-IsCounted :
        (glosses : List Gloss) (s : SlotResult × Tally)
        → IsCounted stems s.1
        → IsCounted stems (glosses_loop to_lower stems slot glosses s).1
    unfolding glosses_loop
    glosses_loop-IsCounted [] s h = h
    glosses_loop-IsCounted (gloss ∷ glosses) s h =
        glosses_loop-IsCounted glosses (gloss_step to_lower stems slot gloss s)
          (gloss_step-IsCounted gloss s.0 s.1 h)

  slots_loop-IsCounted :
      (slots : List Slot) (s : List SlotResult × Tally)
      → IsCounted stems s.1
      → IsCounted stems (slots_loop to_lower stems slots s).1
  unfolding slots_loop
  slots_loop-IsCounted [] s h = h
  slots_loop-IsCounted (slot ∷ rest) (slots, t) h =
      let counted =
        glosses_loop to_lower stems slot slot.glosses (new_slot to_lower stems slot.name, t) in
      slots_loop-IsCounted rest (with_slot to_lower stems slots counted)
        (glosses_loop-IsCounted slot slot.glosses (new_slot to_lower stems slot.name, t) h)

  -- The glosses of a slot that have a word beside the marks of the slot, with what is left of them.
  abbrev pub tested_in : Slot → List Gloss → List Tested
  tested_in slot [] = []
  tested_in slot (gloss ∷ glosses) =
      let rest = tested_in slot glosses in
      let left = residue_of to_lower stems slot gloss in
      if is_nil left then rest else record { residue = left; n = gloss.n } ∷ rest

  abbrev pub tested_of : List Slot → List Tested
  tested_of [] = []
  tested_of (slot ∷ rest) = tested_in slot slot.glosses ++ tested_of rest

  -- The occurrences of all glosses but those that have words, every one of them a mark of the slot.
  abbrev pub heard_in : Slot → List Gloss → ℕ
  heard_in slot [] = 0
  heard_in slot (gloss ∷ glosses) =
      let rest = heard_in slot glosses in
      if not (is_nil (tokens to_lower gloss.text)) && is_nil (residue_of to_lower stems slot gloss)
      then rest
      else gloss.n + rest

  abbrev pub heard_of : List Slot → ℕ
  heard_of [] = 0
  heard_of (slot ∷ rest) = heard_in slot slot.glosses + heard_of rest

  module _ (slot : Slot) where
    judge_tested :
        (left : List Word) (gloss : Gloss) (s : SlotResult × Tally)
        → ((judge to_lower stems slot left gloss s).1.answerable
            ≡ s.1.answerable ++ record { residue = left; n = gloss.n } ∷ [])
          × ((judge to_lower stems slot left gloss s).1.occurrences ≡ s.1.occurrences + gloss.n)
    unfolding judge
    judge_tested left gloss (sr, t) = elim (Bool-cases (any (agrees left) stems)) [
      | inl e ↦ rw (e, judge) (refl, refl)
      | inr e ↦ rw (e, judge) (refl, refl)
    ]

    untold :
        (gloss : Gloss)
        → is_nil (tokens to_lower gloss.text) ≡ true
        → is_nil (residue_of to_lower stems slot gloss) ≡ true
    untold gloss h = no_words (tokens to_lower gloss.text) h
      where
        no_words :
            (words : List Word)
            → is_nil words ≡ true
            → is_nil (keep (λ w. not (contains (strip_set to_lower stems slot) w)) words) ≡ true
        no_words [] h = refl
        no_words (w ∷ words) h = cc

    gloss_step_tested :
        (gloss : Gloss) (s : SlotResult × Tally)
        → ((gloss_step to_lower stems slot gloss s).1.answerable
            ≡ s.1.answerable ++ tested_in slot (gloss ∷ []))
          × ((gloss_step to_lower stems slot gloss s).1.occurrences
              ≡ s.1.occurrences + heard_in slot (gloss ∷ []))
    unfolding gloss_step
    gloss_step_tested gloss (sr, t) = elim (Bool-cases (is_nil (tokens to_lower gloss.text))) [
      | inl e ↦ rw (e, untold gloss e, gloss_step) (sym (append-nil t.answerable), omega arith)
      | inr e ↦ elim (Bool-cases (is_nil (residue_of to_lower stems slot gloss))) [
        | inl f ↦ rw (e, f, gloss_step) (sym (append-nil t.answerable), omega arith)
        | inr f ↦
            let judged = judge_tested (residue_of to_lower stems slot gloss) gloss (sr, t) in
            rw (e, f, gloss_step) (judged.0, omega (arith, judged.1))
      ]
    ]

    tested_in-cons :
        (gloss : Gloss) (glosses : List Gloss)
        → tested_in slot (gloss ∷ glosses) ≡ tested_in slot (gloss ∷ []) ++ tested_in slot glosses
    tested_in-cons gloss glosses =
        elim (Bool-cases (is_nil (residue_of to_lower stems slot gloss))) [
          | inl e ↦ rw e refl
          | inr e ↦ rw e refl
        ]

    glosses_loop_tested :
        (glosses : List Gloss) (s : SlotResult × Tally)
        → ((glosses_loop to_lower stems slot glosses s).1.answerable
            ≡ s.1.answerable ++ tested_in slot glosses)
          × ((glosses_loop to_lower stems slot glosses s).1.occurrences
              ≡ s.1.occurrences + heard_in slot glosses)
    unfolding glosses_loop
    glosses_loop_tested [] s = (sym (append-nil s.1.answerable), omega arith)
    glosses_loop_tested (gloss ∷ glosses) s =
        let step = gloss_step_tested gloss s in
        let looped = glosses_loop_tested glosses (gloss_step to_lower stems slot gloss s) in
        (
          looped.0
              ∙ ap (λ l. l ++ tested_in slot glosses) step.0
              ∙ append_assoc s.1.answerable (tested_in slot (gloss ∷ [])) (tested_in slot glosses)
              ∙ ap (λ l. s.1.answerable ++ l) (sym (tested_in-cons gloss glosses)),
          ground (arith, looped.1, step.1),
        )

  slots_loop_tested :
      (slots : List Slot) (s : List SlotResult × Tally)
      → ((slots_loop to_lower stems slots s).1.answerable ≡ s.1.answerable ++ tested_of slots)
        × ((slots_loop to_lower stems slots s).1.occurrences ≡ s.1.occurrences + heard_of slots)
  unfolding slots_loop
  slots_loop_tested [] s = (sym (append-nil s.1.answerable), omega arith)
  slots_loop_tested (slot ∷ rest) (slots, t) =
      let counted =
        glosses_loop to_lower stems slot slot.glosses (new_slot to_lower stems slot.name, t) in
      let one = glosses_loop_tested slot slot.glosses (new_slot to_lower stems slot.name, t) in
      let looped = slots_loop_tested rest (with_slot to_lower stems slots counted) in
      (
        looped.0
            ∙ ap (λ l. l ++ tested_of rest) one.0
            ∙ append_assoc t.answerable (tested_in slot slot.glosses) (tested_of rest),
        omega (arith, looped.1, one.1),
      )

  -- At the end of the loop the covered occurrences are those that `explained` counts for the stems of
  -- the sense, and no more than all; a word has missed the occurrences of the glosses that are not
  -- explained, once for each time that it stands in one; and a word is used exactly if it is a stem of
  -- the sense and related to a word of a gloss. There a gloss is what is left of one of a slot without
  -- the marks of the slot, if anything is, in the order of the slots; and the occurrences are those of
  -- all glosses but those that have words, every one of them a mark.
  pub slots_loop_lem :
      (slots : List Slot)
      → IsCounted stems (slots_loop to_lower stems slots ([], no_tally)).1
        × ((slots_loop to_lower stems slots ([], no_tally)).1.answerable ≡ tested_of slots)
        × ((slots_loop to_lower stems slots ([], no_tally)).1.occurrences ≡ heard_of slots)
  unfolding explained get
  slots_loop_lem slots =
      let (tested, heard) = slots_loop_tested slots ([], no_tally) in
      (
        slots_loop-IsCounted slots ([], no_tally)
            (record {
              covered = refl;
              bounded = omega arith;
              miss = λ w. refl;
              used = λ a. ground arith;
            }),
        tested,
        omega (arith, heard),
      )
