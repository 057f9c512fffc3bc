-- ===== src/Root/Resolve/Answers.antt =====
-- The endings of the ladder: what each way to an answer, and to a report, establishes.
use wird.Prelude.{◌≡◌, refl, inl, inr, List, [], ◌∷◌, ◌++◌, nat_eq, list_eq, ℕ, All}
use wird.Prelude.Attempt.{Attempt, done, fail, ◌>>=◌}
use wird.Text.{Word}
use wird.Root.Types.{Method, Root, Result, Candidate, shared}
use wird.Root.Store.{Store, Fault, not_found, broken}
use wird.Root.Resolve.{
  Failure, store_error, ask, bare_root, with_meanings, from_letters, shared_roots, from_shared,
  sort_candidates,
}
use wird.Root.Resolve.Spec.{Names, Justified, LeadsWith, Answered, IsMarked, Meant}

-- An attempt ends in a value of which `Q` holds, or in an error of which `P` does.
abbrev pub Ends : {E A : Type 0} → (E → Type 0) → (A → Type 0) → Attempt E A → Type 0
Ends P Q (done a) = Q a
Ends P Q (fail e) = P e

-- What a store may reply.
pub data Reply {A : Type 0} (m : Attempt Fault A) : Type 0 where
  got : (a : A) → m ≡ done a → Reply m
  missed : m ≡ fail not_found → Reply m
  broke : (c : ℕ) → m ≡ fail (broken c) → Reply m

pub reply : {A : Type 0} (m : Attempt Fault A) → Reply m
reply (done a) = got a refl
reply (fail not_found) = missed refl
reply (fail (broken c)) = broke c refl

-- Asking the store, and going on with its answer.
pub Ends-ask :
    {A B : Type 0} (P : Failure → Type 0) (Q : B → Type 0) (m : Attempt Fault A)
    (f : A → Attempt Failure B)
    → ((e : Fault) → m ≡ fail e → P (store_error e))
    → ((a : A) → m ≡ done a → Ends P Q (f a))
    → Ends P Q (ask m >>= f)
Ends-ask P Q (done a) f h k = k a refl
Ends-ask P Q (fail e) f h k = h e refl

pub Ends-bind :
    {A B : Type 0} (P : Failure → Type 0) (R : A → Type 0) (Q : B → Type 0) (m : Attempt Failure A)
    (f : A → Attempt Failure B)
    → Ends P R m
    → ((a : A) → R a → Ends P Q (f a))
    → Ends P Q (m >>= f)
Ends-bind P R Q (done a) f h k = k a h
Ends-bind P R Q (fail e) f h k = h

pub Ends-imp :
    {E A : Type 0} (P : E → Type 0) (Q R : A → Type 0) (m : Attempt E A)
    → ((a : A) → Q a → R a)
    → Ends P Q m
    → Ends P R m
Ends-imp P Q R (done a) f h = f a h
Ends-imp P Q R (fail e) f h = h

-- Asking for what is known to end well.
pub Ends-ask-Ends :
    {A B : Type 0} (P : Failure → Type 0) (S : Fault → Type 0) (R : A → Type 0) (Q : B → Type 0)
    (m : Attempt Fault A) (f : A → Attempt Failure B)
    → Ends S R m
    → ((e : Fault) → S e → P (store_error e))
    → ((a : A) → R a → Ends P Q (f a))
    → Ends P Q (ask m >>= f)
Ends-ask-Ends P S R Q (done a) f h g k = k a h
Ends-ask-Ends P S R Q (fail e) f h g k = g e h

module _ (st : Store) (word n : Word) where
  abbrev pub Verdict : Attempt Failure Result → Type 0
  Verdict = Ends (Meant st word n) (Answered st word n)

  with_meanings-Verdict :
      (res : Result) (langs : List Word)
      → Answered st word n res
      → Verdict (with_meanings st res langs)
  unfolding with_meanings
  with_meanings-Verdict res [] h = h
  with_meanings-Verdict res (l ∷ langs) h =
      Ends-ask (Meant st word n) (Answered st word n) (st.meanings res.root.letters (l ∷ langs)) _
        (λ e p steady. steady.meanings res.root.letters (l ∷ langs) e p)
        (λ meanings _. record {
          letters = h.letters;
          justified = h.justified;
          names = h.names;
          leads = h.leads;
          spelled = h.spelled;
        })

  -- Letters that are justified make an answer, whatever the store knows of them.
  pub from_letters-Verdict :
      (res : Result) (letters : Word) (m : Method) (langs : List Word)
      → (res.input ≡ word) × (res.normalized ≡ n)
      → Justified st word n m letters
      → ((root : Root) → Names st letters root → LeadsWith st word n m root res.roots)
      → Verdict (from_letters st res letters m langs)
  unfolding from_letters
  from_letters-Verdict res letters m langs spelled j leads = elim (reply (st.root letters)) [
    | got rec e ↦
        let names : Names st letters rec.root = inl (rec, e, refl) in
        rw (e, from_letters)
          (with_meanings-Verdict _ langs (record {
            letters = letters;
            justified = j;
            names = names;
            leads = leads rec.root names;
            spelled = spelled;
          }))
    | missed e ↦
        let names : Names st letters (bare_root letters) = inr (e, refl) in
        rw (e, from_letters)
          (with_meanings-Verdict _ langs (record {
            letters = letters;
            justified = j;
            names = names;
            leads = leads (bare_root letters) names;
            spelled = spelled;
          }))
    | broke c e ↦ rw (e, from_letters) (λ steady. steady.root letters c e)
  ]

  -- The roots of a shared spelling begin with the one that the answer names.
  abbrev Leads : Word → List Root → Type 0
  Leads first roots =
      (root : Root) → Names st first root → (rest : List Root) × (roots ≡ root ∷ rest)

  shared_roots-Ends :
      (letters : List Word) → Ends (Meant st word n) (λ _. Unit {0}) (shared_roots st letters)
  unfolding shared_roots
  shared_roots-Ends [] = tt
  shared_roots-Ends (l ∷ letters) = elim (reply (st.root l)) [
    | got rec e ↦
        rw (e, shared_roots)
          (Ends-bind _ _ _ (shared_roots st letters) _ (shared_roots-Ends letters) (λ rest _. tt))
    | missed e ↦
        rw (e, shared_roots)
          (Ends-bind _ _ _ (shared_roots st letters) _ (shared_roots-Ends letters) (λ rest _. tt))
    | broke c e ↦ rw (e, shared_roots) (λ steady. steady.root l c e)
  ]

  LeadsWith-first :
      (l : Word) (root : Root) (rest : List Root) → Names st l root → Leads l (root ∷ rest)
  LeadsWith-first l root rest (inl (rec, e, r)) other (inl (rec', e', r')) = (rest, cc)
  LeadsWith-first l root rest (inl (rec, e, r)) other (inr (e', r')) = (rest, cc)
  LeadsWith-first l root rest (inr (e, r)) other (inl (rec', e', r')) = (rest, cc)
  LeadsWith-first l root rest (inr (e, r)) other (inr (e', r')) = (rest, cc)

  shared_roots-Leads :
      (l : Word) (letters : List Word)
      → Ends (Meant st word n) (Leads l) (shared_roots st (l ∷ letters))
  unfolding shared_roots
  shared_roots-Leads l letters = elim (reply (st.root l)) [
    | got rec e ↦
        rw (e, shared_roots)
          (Ends-bind _ _ _ (shared_roots st letters) _ (shared_roots-Ends letters)
            (λ rest _. LeadsWith-first l rec.root rest (inl (rec, e, refl))))
    | missed e ↦
        rw (e, shared_roots)
          (Ends-bind _ _ _ (shared_roots st letters) _ (shared_roots-Ends letters)
            (λ rest _. LeadsWith-first l (bare_root l) rest (inr (e, refl))))
    | broke c e ↦ rw (e, shared_roots) (λ steady. steady.root l c e)
  ]

  pub from_shared-Verdict :
      (res : Result) (first : Word) (more langs : List Word)
      → (res.input ≡ word) × (res.normalized ≡ n)
      → res.roots ≡ []
      → st.attests n ≡ done (first ∷ more)
      → Verdict (from_shared st res first more langs)
  unfolding from_shared
  from_shared-Verdict res first more langs spelled none_yet attested =
      Ends-bind (Meant st word n) (Leads first) (Answered st word n)
        (shared_roots st (first ∷ more)) _ (shared_roots-Leads first more)
        (λ roots leads.
          from_letters-Verdict (record res { roots = res.roots ++ roots }) first shared langs
            spelled (Justified.by_collision first more attested)
            (λ root names. rw none_yet (leads root names)))

  -- The report marks each candidate by what the store answered for it.
  abbrev pub BothMarked : List Candidate × List Candidate → Type 0
  BothMarked p = All (IsMarked st) p.0 × All (IsMarked st) p.1

  pub sort_candidates-Ends :
      (considered : List Word) → Ends (Meant st word n) BothMarked (sort_candidates st considered)
  unfolding sort_candidates
  sort_candidates-Ends [] = (tt, tt)
  sort_candidates-Ends (c ∷ considered) = elim (reply (st.root c)) [
    | got rec e ↦
        rw (e, sort_candidates)
          (Ends-bind _ BothMarked _ (sort_candidates st considered) _
            (sort_candidates-Ends considered) (λ p h. ((inl (refl, rec, e), h.0), h.1)))
    | missed e ↦
        rw (e, sort_candidates)
          (Ends-bind _ BothMarked _ (sort_candidates st considered) _
            (sort_candidates-Ends considered) (λ p h. (h.0, (inr (refl, e), h.1))))
    | broke k e ↦ rw (e, sort_candidates) (λ steady. steady.root c k e)
  ]
