-- ===== src/Root/Resolve/Templates.antt =====
-- The templates propose what a miss reports, and decide nothing else.
use wird.Prelude.{
  ◌≡◌, Bool, true, false, List, [], ◌∷◌, ◌++◌, Option, none, some, Bool-cases, inl, inr,
}
use wird.Prelude.Attempt.{Attempt, done, fail, ◌>>=◌}
use wird.Text.{Word, trim_space}
use wird.Text.Unicode.{Unicode}
use wird.Root.Types.{Method, Result, Entry}
use wird.Root.Store.{Store, Fault, not_found, broken}
use wird.Root.Strip.Stems.{stems}
use wird.Root.Resolve.{Failure, ask, is_arabic_word, lookup, first_stem, sort_candidates}
use wird.Root.Resolve.Ladder.{
  forms, normal_form, blank, report, choose, from_attested, after_attests, attested_rung,
  after_stems, stripped_rung, after_lookup, rungs, settle_rootless, resolve_trimmed, resolve,
}

-- Where the first attempt answers, so does the second, the same.
abbrev Agrees : Attempt Failure Result → Attempt Failure Result → Type 0
Agrees m m' = (r : Result) → m ≡ done r → m' ≡ done r

Agrees-bind :
    {A : Type 0} (m : Attempt Failure A) (f g : A → Attempt Failure Result)
    → ((a : A) → Agrees (f a) (g a))
    → Agrees (m >>= f) (m >>= g)
Agrees-bind (done a) f g h r p = h a r p
Agrees-bind (fail e) f g h r p = cc

Agrees-refl : (m : Attempt Failure Result) → Agrees m m
Agrees-refl m r p = p

bind_fails :
    {A : Type 0} (m : Attempt Failure A) (f : A → Attempt Failure Result)
    → ((a : A) (r : Result) → f a ≡ done r → ⊥)
    → (r : Result) → (m >>= f) ≡ done r
    → ⊥
bind_fails (done a) f h r p = h a r p
bind_fails (fail e) f h r p = cc

report_fails :
    (propose : Word → List Word) (st : Store) (word n : Word) (considered : List Word) (r : Result)
    → report propose st word n considered ≡ done r
    → ⊥
unfolding report
report_fails propose st word n considered r p =
    bind_fails (sort_candidates st considered) _ (λ a r q. cc) r p

module _ (propose other : Word → List Word) (st : Store) (word : Word) where
  after_attests-Agrees :
      (res : Result) (sr kr : Bool) (considered langs attested : List Word)
      → Agrees
          (after_attests propose st word res sr kr considered langs attested)
          (after_attests other st word res sr kr considered langs attested)
  unfolding after_attests from_attested choose
  after_attests-Agrees res sr kr considered langs (a ∷ more) r p = p
  after_attests-Agrees res sr true considered langs [] r p = p
  after_attests-Agrees res sr false considered langs [] r p =
      absurd (report_fails propose st word res.normalized _ r p)

  after_stems-Agrees :
      (res : Result) (sr kr : Bool) (considered langs : List Word) (o : Option Entry)
      → Agrees
          (after_stems propose st word res sr kr considered langs o)
          (after_stems other st word res sr kr considered langs o)
  unfolding after_stems attested_rung
  after_stems-Agrees res sr kr considered langs (some e) r p = p
  after_stems-Agrees res sr kr considered langs none r p =
      Agrees-bind (ask (st.attests res.normalized)) _ _
        (after_attests-Agrees res sr kr considered langs) r p

  after_lookup-Agrees :
      (res : Result) (sr kr : Bool) (langs : List Word) (found : Attempt Fault (Entry × Method))
      → Agrees
          (after_lookup propose st word res sr kr langs found)
          (after_lookup other st word res sr kr langs found)
  unfolding after_lookup stripped_rung
  after_lookup-Agrees res sr kr langs (done f) r p = p
  after_lookup-Agrees res sr kr langs (fail (broken c)) r p = p
  after_lookup-Agrees res sr kr langs (fail not_found) r p =
      Agrees-bind (ask (first_stem st (stems res.normalized))) _ _
        (after_stems-Agrees res sr kr (forms word res.normalized ++ stems res.normalized) langs) r p

  rungs-Agrees :
      (res : Result) (sr : Bool) (langs : List Word)
      → Agrees (rungs propose st word res sr langs) (rungs other st word res sr langs)
  unfolding rungs
  rungs-Agrees res sr langs =
      Agrees-bind (ask (st.rootless res.normalized)) _ _
        (λ kr. after_lookup-Agrees res sr kr langs (lookup st word res.normalized))

-- An answer stays the same answer under any other reading of the templates.
pub templates_decide_nothing :
    (propose other : Word → List Word) (st : Store) (u : Unicode) (word : Word) (langs : List Word)
    (r : Result)
    → resolve propose st u word langs ≡ done r
    → resolve other st u word langs ≡ done r
unfolding resolve resolve_trimmed settle_rootless
templates_decide_nothing propose other st u word langs r p =
    let w = trim_space word in
    elim (Bool-cases (is_arabic_word u w)) [
      | inr foreign ↦ cc (rw (foreign, resolve_trimmed) at p)
      | inl arabic ↦
          rw (arabic, resolve_trimmed)
            (Agrees-bind (ask (st.rootless_surface w)) _ _
              (λ sr.
                Agrees-bind (settle_rootless propose st w (normal_form u w) sr) _ _
                  (λ _. rungs-Agrees propose other st w (blank u w) sr langs))
              r (rw (arabic, resolve_trimmed) at p))
    ]
