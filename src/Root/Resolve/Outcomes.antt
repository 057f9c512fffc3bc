-- ===== src/Root/Resolve/Outcomes.antt =====
-- The outcomes of `Resolve`, one by one.
use wird.Prelude.{◌≡◌, ◌≢◌, ◌↔◌, refl, sym, ◌∙◌, subst, false, List, Bool-cases, inl, inr}
use wird.Prelude.Attempt.{Attempt, done, fail}
use wird.Text.{Word, trim_space}
use wird.Text.Unicode.{Unicode}
use wird.Root.Types.{Result, NoRootError}
use wird.Root.Store.{Store, Fault}
use wird.Root.Resolve.{Failure, not_arabic, no_root, store_error, is_arabic_word}
use wird.Root.Resolve.Ladder.{normal_form, resolve_trimmed, resolve}
use wird.Root.Resolve.Spec.{Answered, Missed, IsSteady}
use wird.Root.Resolve.Answers.{Verdict}
use wird.Root.Resolve.Verdict.{resolve-Verdict}

module _ (propose : Word → List Word) (st : Store) (u : Unicode) (word : Word)
    (langs : List Word) where
  foreign :
      is_arabic_word u (trim_space word) ≡ false → resolve propose st u word langs ≡ fail not_arabic
  unfolding resolve resolve_trimmed
  foreign h = rw h refl

  abbrev VerdictAt : Attempt Failure Result → Type 0
  VerdictAt = Verdict st (trim_space word) (normal_form u (trim_space word))

  -- ErrNotArabic is the answer to exactly the input that is no Arabic word, whatever the store.
  pub resolve_not_arabic :
      (resolve propose st u word langs ≡ fail not_arabic)
      ↔ (is_arabic_word u (trim_space word) ≡ false)
  resolve_not_arabic = (
    λ e. elim (Bool-cases (is_arabic_word u (trim_space word))) [
      | inl arabic ↦ absurd (subst VerdictAt e (resolve-Verdict propose st u word langs arabic))
      | inr h ↦ h
    ],
    foreign,
  )

  -- What does not end in ErrNotArabic has the verdict of an Arabic word.
  settled_as :
      (m : Attempt Failure Result)
      → resolve propose st u word langs ≡ m
      → m ≢ fail not_arabic
      → VerdictAt m
  settled_as m e other = elim (Bool-cases (is_arabic_word u (trim_space word))) [
    | inl arabic ↦ subst VerdictAt e (resolve-Verdict propose st u word langs arabic)
    | inr h ↦ absurd (other (sym e ∙ foreign h))
  ]

  -- Every root that is answered is one that the store records the word, its normalised spelling or
  -- one of its peeled stems under, by the rung that the method of the answer names; only an answer of
  -- method `shared` lists roots, and its list starts with the root.
  pub resolve_justified :
      (r : Result)
      → resolve propose st u word langs ≡ done r
      → Answered st (trim_space word) (normal_form u (trim_space word)) r
  resolve_justified r e = settled_as (done r) e (λ p. cc)

  -- A report of no root that calls the word rootless has that from the store and has no candidates;
  -- in any other, every rung missed. Its candidates are marked by what the store knows.
  pub resolve_no_root :
      (e : NoRootError)
      → resolve propose st u word langs ≡ fail (no_root e)
      → Missed st (trim_space word) (normal_form u (trim_space word)) e
  resolve_no_root e p = settled_as (fail (no_root e)) p (λ q. cc)

  -- Over a store none of whose calls breaks there is no error but those about the word.
  pub resolve_steady :
      (f : Fault) → IsSteady st → resolve propose st u word langs ≢ fail (store_error f)
  resolve_steady f steady e = settled_as (fail (store_error f)) e (λ q. cc) steady
