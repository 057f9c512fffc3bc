-- ===== src/Root/Resolve/Verdict.antt =====
-- `Resolve` as a whole: every answer is justified by the corpus, every error means what it says.
use wird.Prelude.{
  ◌≡◌, refl, sym, ◌∙◌, ap, subst, inl, inr, Bool, true, false, not, ◌&&◌, List, [], ◌∷◌, ◌++◌,
  Option, none, some, Has, nat_eq, list_eq, All-at, All-append, arith, Bool-cases, if◌then◌else◌,
}
use wird.Prelude.Attempt.{Attempt, done, fail}
use wird.Text.{Word, is_empty, trim_space}
use wird.Text.Unicode.{Unicode}
use wird.Root.Types.{Method, Root, Result, Entry, lexicon, stripped, pattern_match}
use wird.Root.Store.{Store, Fault, not_found, broken}
use wird.Root.Strip.Spec.{Peeled}
use wird.Root.Strip.Stems.{stems, stems_exact}
use wird.Root.Resolve.{
  is_lexicon, is_arabic_word, from_letters, from_entry, first_stem, sort_candidates, add_readings,
  rootless_error,
}
use wird.Root.Resolve.Ladder.{
  is_nil, forms, settled, normal_form, blank, report, choose, from_attested, after_attests,
  attested_rung, after_stems, stripped_rung, after_lookup, rungs, settle_rootless, resolve_trimmed,
  resolve,
}
use wird.Root.Resolve.Spec.{
  Justified, IsUnknown, LeadsWith, Answered, Exhausted, IsSteady, IsMarked, Meant,
}
use wird.Root.Resolve.Rungs.{StemFound, first_stem-Ends, WordFault, WordFound, lookup-Ends}
use wird.Root.Resolve.Answers.{
  Ends, Ends-ask, Ends-ask-Ends, Ends-bind, Verdict, from_letters-Verdict, from_shared-Verdict,
  BothMarked, sort_candidates-Ends,
}

settled-eq-some :
    (attested exact : List Word) (x : Word)
    → settled attested exact ≡ some x
    → (exact ≡ x ∷ []) × Has attested x
unfolding settled
settled-eq-some attested [] x e = cc
settled-eq-some attested (y ∷ []) x e = ground arith
settled-eq-some attested (y ∷ z ∷ more) x e = cc

-- An answer about this word, not filled in yet.
abbrev IsBlank : Word → Result → Type 0
IsBlank word res = (res.input ≡ word) × (res.roots ≡ [])

module _ (propose : Word → List Word) (st : Store) (word : Word) (res : Result)
    (b : IsBlank word res) where
  report-Verdict :
      (considered : List Word)
      → Exhausted st word res.normalized
      → Verdict st word res.normalized (report propose st word res.normalized considered)
  unfolding report
  report-Verdict considered out =
      Ends-bind (Meant st word res.normalized) (BothMarked st word res.normalized)
        (Answered st word res.normalized) (sort_candidates st considered) _
        (sort_candidates-Ends st word res.normalized considered)
        (λ p h. record {
          about = (refl, refl);
          said = λ e. cc;
          exhausted = λ _. out;
          marked = All-append (IsMarked st) p.0 p.1 h.0 h.1;
        })

  module _ (sr kr : Bool) (surface : st.rootless_surface word ≡ done sr)
      (key : st.rootless res.normalized ≡ done kr) where
    letters-Verdict :
        (letters : Word) (m : Method) (langs : List Word)
        → Justified st word res.normalized m letters
        → ((root : Root) → LeadsWith st word res.normalized m root [])
        → (lem fm : Word) (rootless : Bool)
        → Verdict st word res.normalized (
            from_letters st
              (record res { lemma = lem; form = fm; rootless = rootless })
              letters
              m
              langs)
    letters-Verdict letters m langs j leads lem fm rootless =
        from_letters-Verdict st word res.normalized
          (record res { lemma = lem; form = fm; rootless = rootless }) letters m langs (b.0, refl) j
          (λ root _. subst (LeadsWith st word res.normalized m root) (sym b.1) (leads root))

    choose-Verdict :
        (a : Word) (more langs : List Word) (o : Option Word)
        → st.attests res.normalized ≡ done (a ∷ more)
        → ((x : Word)
            → o ≡ some x
            → (st.attests_surface word ≡ done (x ∷ [])) × Has (a ∷ more) x × (sr ≡ false))
        → Verdict st word res.normalized (choose propose st res kr a more langs o)
    unfolding choose
    choose-Verdict a more langs none attested spelled =
        from_shared-Verdict st word res.normalized (record res { rootless = kr }) a more langs
          (b.0, refl) b.1 attested
    choose-Verdict a more langs (some x) attested spelled =
        let (exact, m, plain) = spelled x refl in
        letters-Verdict x lexicon langs
          (Justified.by_spelling x (a ∷ more) attested m exact (surface ∙ ap done plain))
          (λ root. refl) res.lemma res.form res.rootless

    from_attested-Verdict :
        (a : Word) (more langs : List Word)
        → st.attests res.normalized ≡ done (a ∷ more)
        → Verdict st word res.normalized (from_attested propose st word res sr kr a more langs)
    unfolding from_attested
    from_attested-Verdict a more langs attested = elim (Bool-cases (is_nil more && not kr)) [
      | inl alone ↦ rw alone (
          letters-Verdict a pattern_match langs
            (Justified.by_attestation a
              (attested ∙ ap (λ l. done (a ∷ l)) (nil_alone more kr alone))
              (key ∙ ap done (not_alone more kr alone)))
            (λ root. refl) res.lemma res.form res.rootless)
      | inr several ↦ rw several (
          Ends-ask (Meant st word res.normalized) (Answered st word res.normalized)
            (st.attests_surface word) _ (λ e p steady. steady.attests_surface word e p)
            (λ exact p. choose-Verdict a more langs _ attested (λ x e. spelled_by sr exact x p e)))
    ]
      where
        nil_alone : (l : List Word) (k : Bool) → (is_nil l && not k) ≡ true → l ≡ []
        nil_alone [] k e = refl
        nil_alone (x ∷ l) k e = cc

        not_alone : (l : List Word) (k : Bool) → (is_nil l && not k) ≡ true → k ≡ false
        not_alone l true e = ground arith
        not_alone l false e = refl

        spelled_by :
            (s : Bool) (exact : List Word) (x : Word)
            → st.attests_surface word ≡ done exact
            → (if s then none else settled (a ∷ more) exact) ≡ some x
            → (st.attests_surface word ≡ done (x ∷ [])) × Has (a ∷ more) x × (s ≡ false)
        spelled_by true exact x p e = cc
        spelled_by false exact x p e =
            let (one, m) = settled-eq-some (a ∷ more) exact x e in (p ∙ ap done one, m, refl)

    module _
        (missed_above : (st.entry_by_surface word ≡ fail not_found)
          × IsUnknown st res.normalized) where
      after_attests-Verdict :
          (considered langs attested : List Word)
          → ((stem : Word) → Peeled res.normalized stem → IsUnknown st stem)
          → st.attests res.normalized ≡ done attested
          → Verdict st word res.normalized
              (after_attests propose st word res sr kr considered langs attested)
      unfolding after_attests
      after_attests-Verdict considered langs (a ∷ more) stems_missed p =
          from_attested-Verdict a more langs p
      after_attests-Verdict considered langs [] stems_missed p = elim (Bool-cases kr) [
        | inl rootless ↦ rw rootless (record {
          about = (refl, refl);
          said = λ _. (inr (key ∙ ap done rootless, p), refl);
          exhausted = λ e. cc;
          marked = tt;
        })
        | inr not_rootless ↦ rw not_rootless (
            (report-Verdict (add_readings considered (propose res.normalized)) (record {
              surface = missed_above.0;
              unknown = missed_above.1;
              stems = stems_missed;
              attested = p;
              not_rootless = key ∙ ap done not_rootless;
            })))
      ]

      attested_rung-Verdict :
          (considered langs : List Word)
          → ((stem : Word) → Peeled res.normalized stem → IsUnknown st stem)
          → Verdict st word res.normalized
              (attested_rung propose st word res sr kr considered langs)
      unfolding attested_rung
      attested_rung-Verdict considered langs stems_missed =
          (Ends-ask (Meant st word res.normalized) (Answered st word res.normalized)
            (st.attests res.normalized) _ (λ e p steady. steady.attests res.normalized e p)
            (λ attested p. after_attests-Verdict considered langs attested stems_missed p))

      after_stems-Verdict :
          (considered langs : List Word) (o : Option Entry)
          → StemFound st (stems res.normalized) o
          → Verdict st word res.normalized
              (after_stems propose st word res sr kr considered langs o)
      unfolding after_stems from_entry
      after_stems-Verdict considered langs (some e) (stem, m, known) =
          letters-Verdict e.root stripped langs
            (Justified.by_stem stem e ((stems_exact res.normalized stem).0 m) known) (λ root. refl)
            e.lemma e.form kr
      after_stems-Verdict considered langs none unknown =
          attested_rung-Verdict considered langs (λ stem p.
            All-at (IsUnknown st) (stems res.normalized) stem unknown
              ((stems_exact res.normalized stem).1 p))

      stripped_rung-Verdict :
          (langs : List Word)
          → Verdict st word res.normalized (stripped_rung propose st word res sr kr langs)
      unfolding stripped_rung
      stripped_rung-Verdict langs =
          (Ends-ask-Ends (Meant st word res.normalized) (λ _. ¬ IsSteady st)
            (StemFound st (stems res.normalized)) (Answered st word res.normalized)
            (first_stem st (stems res.normalized)) _ (first_stem-Ends st (stems res.normalized))
            (λ e h. h)
            (λ o h.
              after_stems-Verdict (forms word res.normalized ++ stems res.normalized) langs o h))

    after_lookup-Verdict :
        (langs : List Word) (found : Attempt Fault (Entry × Method))
        → (written : is_empty word ≡ false)
        → Ends
            (WordFault st word res.normalized written)
            (WordFound st word res.normalized written)
            found
        → Verdict st word res.normalized (after_lookup propose st word res sr kr langs found)
    unfolding after_lookup from_entry
    after_lookup-Verdict langs (done (e, m)) written h =
        letters-Verdict e.root m langs h.0 h.1 e.lemma e.form (kr && not (is_lexicon m))
    after_lookup-Verdict langs (fail not_found) written h = stripped_rung-Verdict h langs
    after_lookup-Verdict langs (fail (broken c)) written h = h

module _ (propose : Word → List Word) (st : Store) (u : Unicode) where
  rungs-Verdict :
      (word : Word) (sr : Bool) (langs : List Word)
      → is_empty word ≡ false
      → st.rootless_surface word ≡ done sr
      → Verdict st word (normal_form u word) (rungs propose st word (blank u word) sr langs)
  unfolding rungs blank
  rungs-Verdict word sr langs written surface =
      Ends-ask (Meant st word (normal_form u word)) (Answered st word (normal_form u word))
        (st.rootless (normal_form u word)) _
        (λ e p steady. steady.rootless (normal_form u word) e p)
        (λ kr p.
          after_lookup-Verdict propose st word (blank u word) (refl, refl) sr kr surface p langs _
            written (lookup-Ends st word (normal_form u word) written))

  settle_rootless-Ends :
      (word n : Word) (sr : Bool)
      → st.rootless_surface word ≡ done sr
      → Ends (Meant st word n) (λ _. Unit {0}) (settle_rootless propose st word n sr)
  unfolding settle_rootless
  settle_rootless-Ends word n false surface = tt
  settle_rootless-Ends word n true surface =
      Ends-ask (Meant st word n) (λ _. Unit {0}) (st.attests_surface word) _
        (λ e p steady. steady.attests_surface word e p) (λ exact p. go exact p)
    where
      go :
          (exact : List Word)
          → st.attests_surface word ≡ done exact
          → Ends
              (Meant st word n)
              (λ _. Unit {0})
              (if is_nil exact then fail (rootless_error word n) else done tt)
      go [] p = record {
        about = (refl, refl);
        said = λ _. (inl (surface, p), refl);
        exhausted = λ e. cc;
        marked = tt;
      }
      go (x ∷ exact) p = tt

  pub arabic_written : (word : Word) → is_arabic_word u word ≡ true → is_empty word ≡ false
  unfolding is_arabic_word
  arabic_written [] h = cc
  arabic_written (r ∷ word) h = refl

  -- Whatever the store and the templates: for Arabic input, an answer rests on what the corpus
  -- records of the word, and each error means what it is documented to mean.
  pub resolve-Verdict :
      (word : Word) (langs : List Word)
      → is_arabic_word u (trim_space word) ≡ true
      → Verdict st
          (trim_space word)
          (normal_form u (trim_space word))
          (resolve propose st u word langs)
  unfolding resolve resolve_trimmed
  resolve-Verdict word langs arabic =
      let w = trim_space word in
      let n = normal_form u w in
      rw arabic (
        Ends-ask (Meant st w n) (Answered st w n) (st.rootless_surface w) _
          (λ e p steady. steady.rootless_surface w e p)
          (λ sr p.
            Ends-bind (Meant st w n) (λ _. Unit {0}) (Answered st w n)
              (settle_rootless propose st w n sr) _ (settle_rootless-Ends w n sr p)
              (λ _ _. rungs-Verdict w sr langs (arabic_written w arabic) p)))
