-- ===== src/Root/Resolve/Rungs.antt =====
-- Rungs one to four: what a lookup that hits rests on, and what one that misses has tried.
use wird.Prelude.{
  ◌≡◌, refl, subst, false, List, [], ◌∷◌, Option, none, some, Has, nat_eq, Has-head, list_eq, All,
  arith,
}
use wird.Prelude.Attempt.{fail}
use wird.Text.{Word, is_empty}
use wird.Root.Types.{Method, Root, Entry}
use wird.Root.Store.{Store, Fault, not_found, broken}
use wird.Root.Resolve.{lookup, lookup_normalized, lookup_lemma, first_stem}
use wird.Root.Resolve.Spec.{Justified, Known, IsUnknown, LeadsWith, IsSteady}
use wird.Root.Resolve.Answers.{Ends, got, missed, broke, reply, Ends-imp}

module _ (st : Store) where
  -- What the three rungs of a lookup say when they find nothing.
  abbrev pub StemFault : Word → Fault → Type 0
  StemFault n not_found = IsUnknown st n
  StemFault n (broken c) = ¬ IsSteady st

  stem_lookup-Ends :
      (n : Word) → Ends (StemFault n) (λ (f : Entry × Method). Known st n f.0) (lookup st [] n)
  unfolding lookup
  stem_lookup-Ends n = elim (reply (st.entry_by_normalized n)) [
    | got e p ↦ rw (p, lookup_normalized) (Known.as_form e p)
    | broke c p ↦ rw (p, lookup_normalized) (λ steady. steady.form n c p)
    | missed p ↦ elim (reply (st.entry_by_lemma n)) [
      | got e q ↦ rw (p, lookup_normalized) (rw (q, lookup_lemma) (Known.as_lemma e p q))
      | missed q ↦ rw (p, lookup_normalized) (rw (q, lookup_lemma) (p, q))
      | broke c q ↦ rw (p, lookup_normalized) (rw (q, lookup_lemma) (λ steady. steady.lemma n c q))
    ]
  ]

  -- Rung four looks up every stem until one is known.
  abbrev pub StemFound : List Word → Option Entry → Type 0
  StemFound ws none = All (IsUnknown st) ws
  StemFound ws (some e) = (stem : Word) × Has ws stem × Known st stem e

  StemFound-later :
      (w : Word) (ws : List Word) (o : Option Entry)
      → IsUnknown st w
      → StemFound ws o
      → StemFound (w ∷ ws) o
  StemFound-later w ws none h k = (h, k)
  StemFound-later w ws (some e) h (stem, m, known) = (stem, ground arith, known)

  pub first_stem-Ends :
      (ws : List Word) → Ends (λ _. ¬ IsSteady st) (StemFound ws) (first_stem st ws)
  unfolding first_stem
  first_stem-Ends [] = tt
  first_stem-Ends (w ∷ ws) = elim (reply (lookup st [] w)) [
    | got f e ↦
        let known : Known st w f.0 =
          subst (Ends (StemFault w) (λ (g : Entry × Method). Known st w g.0)) e
            (stem_lookup-Ends w) in
        rw (e, first_stem) (w, Has-head w ws, known)
    | missed e ↦
        let unknown : IsUnknown st w =
          subst (Ends (StemFault w) (λ (g : Entry × Method). Known st w g.0)) e
            (stem_lookup-Ends w) in
        rw (e, first_stem)
          (Ends-imp (λ _. ¬ IsSteady st) (StemFound ws) (StemFound (w ∷ ws)) (first_stem st ws)
            (λ o. StemFound-later w ws o unknown) (first_stem-Ends ws))
    | broke c e ↦
        rw (e, first_stem)
          (subst (Ends (StemFault w) (λ (g : Entry × Method). Known st w g.0)) e
            (stem_lookup-Ends w))
  ]

module _ (st : Store) (word n : Word) (written : is_empty word ≡ false) where
  -- What rungs one to three settle.
  abbrev pub WordFault : Fault → Type 0
  WordFault not_found = (st.entry_by_surface word ≡ fail not_found) × IsUnknown st n
  WordFault (broken c) = ¬ IsSteady st

  abbrev pub WordFound : Entry × Method → Type 0
  WordFound f = Justified st word n f.1 f.0.root × ((root : Root) → LeadsWith st word n f.1 root [])

  lookup_normalized-Ends :
      st.entry_by_surface word ≡ fail not_found → Ends WordFault WordFound (lookup_normalized st n)
  unfolding lookup_normalized lookup_lemma
  lookup_normalized-Ends none_written = elim (reply (st.entry_by_normalized n)) [
    | got e p ↦ rw (p, lookup_normalized) (Justified.by_form e p, λ root. refl)
    | broke c p ↦ rw (p, lookup_normalized) (λ steady. steady.form n c p)
    | missed p ↦ elim (reply (st.entry_by_lemma n)) [
      | got e q ↦
          rw (p, lookup_normalized) (rw (q, lookup_lemma) (Justified.by_lemma e p q, λ root. refl))
      | missed q ↦ rw (p, lookup_normalized) (rw (q, lookup_lemma) (none_written, (p, q)))
      | broke c q ↦ rw (p, lookup_normalized) (rw (q, lookup_lemma) (λ steady. steady.lemma n c q))
    ]
  ]

  pub lookup-Ends : Ends WordFault WordFound (lookup st word n)
  unfolding lookup
  lookup-Ends = rw written (elim (reply (st.entry_by_surface word)) [
    | got e p ↦ rw p (Justified.by_surface e p, λ root. refl)
    | missed p ↦ rw p (lookup_normalized-Ends p)
    | broke c p ↦ rw p (λ steady. steady.surface word c p)
  ])
