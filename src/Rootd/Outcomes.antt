-- ===== src/Rootd/Outcomes.antt =====
-- What the responses of the service say of a word, of a batch, and of the store.
use wird.Prelude.{◌≡◌, refl, subst, true, false, List, All, Bool-cases, inl, inr, nat_eq, list_eq}
use wird.Prelude.Attempt.{Attempt, done, fail}
use wird.Text.{Word, is_empty, trim_space}
use wird.Text.Trim.{trim_space_idem}
use wird.Root.Types.{Result, Candidate}
use wird.Root.Pattern.{match_pattern}
use wird.Root.Resolve.{Failure, not_arabic, no_root, store_error, is_arabic_word}
use wird.Root.Resolve.Ladder.{normal_form, resolve_word as resolved}
use wird.Root.Resolve.Spec.{Answered, SaidRootless, Exhausted, IsMarked, IsSteady, Missed}
use wird.Root.Resolve.Outcomes.{
  resolve_justified, resolve_no_root, resolve_not_arabic, resolve_steady,
}
use wird.Rootd.Answers.{
  Response, Http, missing_word, not_arabic_code, no_root_code, rootless_code, internal, plain_error,
  api_error_for, of_result, write_json, write_error,
}
use wird.Rootd.Service.{Server, langs_of, write_answer, resolve_word}

module _ {F : Type 0} (s : Server F) (word : Word) where
  abbrev n : Word
  n = normal_form s.unicode word

  -- What a response tells of the word that was asked for.
  pub data Told : Response → Type 0 where
    wordless : is_empty word ≡ true → Told (write_error (plain_error 400 missing_word))
    foreign :
        is_arabic_word s.unicode word ≡ false → Told (write_error (plain_error 400 not_arabic_code))
    rooted : (r : Result) → Answered s.store word n r → Told (write_json 200 (of_result r))
    rootless : SaidRootless s.store word n → Told (write_error (plain_error 404 rootless_code))
    missed :
        (candidates : List Candidate)
        → Exhausted s.store word n
        → All (IsMarked s.store) candidates
        → Told (write_error (record { status = 404; code = no_root_code; candidates = candidates }))
    broke : ¬ IsSteady s.store → Told (write_error (plain_error 500 internal))

module _ {F : Type 0} (h : Http) (s : Server F) (query : Word) where
  abbrev asked : Word
  asked = trim_space query

  module _ (langs : List Word) where
    abbrev outcome : Attempt Failure Result
    outcome = resolved s.unicode s.store asked langs

    told : (m : Attempt Failure Result) → outcome ≡ m → Told s asked (write_answer h s m)
    unfolding resolved api_error_for
    told (done r) e = rooted r (
        subst (λ w. Answered s.store w (normal_form s.unicode w) r) (trim_space_idem query)
          (resolve_justified (match_pattern s.unicode) s.store s.unicode asked langs r e))
    told (fail not_arabic) e = foreign (
        subst (λ w. is_arabic_word s.unicode w ≡ false) (trim_space_idem query)
          ((resolve_not_arabic (match_pattern s.unicode) s.store s.unicode asked langs).0 e))
    told (fail (store_error f)) e = broke (λ steady.
        resolve_steady (match_pattern s.unicode) s.store s.unicode asked langs f steady e)
    told (fail (no_root x)) e =
        let miss =
          subst (λ w. Missed s.store w (normal_form s.unicode w) x) (trim_space_idem query)
            (resolve_no_root (match_pattern s.unicode) s.store s.unicode asked langs x e) in
        elim (Bool-cases x.rootless) [
          | inl e1 ↦ rw e1 (rootless (miss.said e1).0)
          | inr e0 ↦ rw e0 (missed x.candidates (miss.exhausted e0) miss.marked)
        ]

  -- The response to one word says what the store holds on it: 400 for no word or no Arabic word, 200
  -- for a root that the store records, 404 with `rootless` where the store says so, 404 with
  -- `no_root` where every rung missed, and 500 only where a call of the store breaks.
  pub resolve_word-Told : (lang : List Word) → Told s asked (resolve_word h s query lang)
  unfolding resolve_word
  resolve_word-Told lang = elim (Bool-cases (is_empty asked)) [
    | inl e ↦ rw e (wordless e)
    | inr e ↦ rw e (told (langs_of h s lang) _ refl)
  ]
