-- ===== src/Store/Readers/Gone.antt =====
-- A deleted reader stays deleted for the tokens that were signed in before.
use wird.Prelude.{
  ◌≡◌, refl, sym, ap, subst, ◌∙◌, ℕ, ◌≤◌, inl, inr, true, false, none, some, List, [], ◌∷◌, ◌==◌,
  eqb_refl, nat_eq, list_eq, list_beq_iff, All, Bool-cases, Option-cases, arith, if◌then◌else◌,
}
use wird.Prelude.Attempt.{Attempt, done, fail, ◌>>◌}
use wird.Prelude.Map.{Map, get, put, get-put}
use wird.Text.{Word}
use wird.Store.Readers.{
  User, Accounts, ReaderError, deleted, driver, Faults, statement, truncated, is_stale, mint,
  row_of, ended, forget, reader_for, delete_reader,
}
use wird.Store.Readers.Outcomes.{reader_for_outcome, delete_reader_outcome}

ended_done :
    (st made : Accounts) (m : Attempt ReaderError (Unit {0})) {st' : Accounts}
    → ended {A = Unit {0}} st (m >> done (made, tt)) ≡ (st', done tt)
    → made ≡ st'
ended_done st made (done x) h = cc
ended_done st made (fail e) h = cc

-- A call of another request, with what the database makes of it.
pub data Call : Type 0 where
  signs_in : Faults → User → Word → ℕ → Call
  deletes : Faults → ℕ → Word → Call

truncated_mono : (at d : ℕ) → at ≤ d → truncated at ≤ truncated d
truncated_mono at d h = omega arith

get-forget :
    (users : Map Word User) (s subject : Word)
    → get (forget users s) subject ≡ (if s == subject then none else get users subject)
unfolding get forget
get-forget [] s subject = ground arith
get-forget ((k, u) ∷ users) s subject = ground (
  arith,
  get-forget users s subject,
  list_beq_iff k s,
  list_beq_iff s subject,
  list_beq_iff k subject,
)

module _ (hash : Word → Word) where
  abbrev pub after : Call → Accounts → Accounts
  after (signs_in faults fresh subject signed_in) st =
      (reader_for hash faults fresh subject signed_in st).0
  after (deletes faults now subject) st = (delete_reader hash faults now subject st).0

  unfoldable pub after_all : List Call → Accounts → Accounts
  after_all [] st = st
  after_all (c ∷ calls) st = after_all calls (after c st)

  -- There is no such reader, and the moment of the deletion is no earlier than `at`.
  abbrev pub IsGone : Word → ℕ → Accounts → Type 0
  IsGone subject at st =
      (get st.users subject ≡ none)
      × ((d : ℕ) × (get st.deleted_at (hash subject) ≡ some d) × (at ≤ d))

  -- A sign-in of the subject is stale for a deletion at `at`, and a deletion comes no earlier.
  abbrev pub IsStale : Word → ℕ → Call → Type 0
  IsStale subject at (signs_in faults fresh s signed_in) =
      (s == subject) ≡ true → is_stale at signed_in ≡ true
  IsStale subject at (deletes faults now s) = at ≤ now

  stale_later :
      (at d signed_in : ℕ) → at ≤ d → is_stale at signed_in ≡ true → is_stale d signed_in ≡ true
  stale_later at d signed_in h k = ground (arith, truncated_mono at d h)

  -- A stale sign-in is refused and changes nothing.
  refused_stale :
      (faults : Faults) (fresh : User) (subject : Word) (at signed_in : ℕ) (st : Accounts)
      → IsGone subject at st
      → is_stale at signed_in ≡ true
      → (e : ReaderError) × (reader_for hash faults fresh subject signed_in st ≡ (st, fail e))
  unfolding reader_for
  refused_stale faults fresh subject at signed_in st (gone, (d, when, late)) stale =
      let old = stale_later at d signed_in late stale in
      elim (Option-cases (faults 0)) [
        | inr (e, f) ↦ (driver e, rw f refl)
        | inl f0 ↦ elim (Option-cases (faults 1)) [
          | inr (e, f) ↦ (driver e, rw (f0, f) refl)
          | inl f1 ↦ elim (Option-cases (faults 2)) [
            | inr (e, f) ↦ (driver e, rw (f0, f1, f) refl)
            | inl f2 ↦ (deleted, rw (f0, f1, f2, when, old) refl)
          ]
        ]
      ]

  forget-IsGone :
      (at now : ℕ) (subject s : Word) (st : Accounts)
      → ((a b : Word) → hash a ≡ hash b → a ≡ b)
      → at ≤ now
      → IsGone subject at st
      → IsGone subject at
          (record st { users = forget st.users s; deleted_at = put st.deleted_at (hash s) now })
  forget-IsGone at now subject s st apart late (gone, (d, when, by)) =
      let read = get-put st.deleted_at (hash s) (hash subject) now in
      let left = get-forget st.users s subject in
      let none_left : get (forget st.users s) subject ≡ none = elim (Bool-cases (s == subject)) [
        | inl e ↦ left ∙ rw e refl
        | inr e ↦ left ∙ rw e gone
      ] in
      elim (Bool-cases (hash s == hash subject)) [
        | inl e ↦ (none_left, (now, read ∙ rw e refl, late))
        | inr e ↦ (none_left, (d, read ∙ rw e when, by))
      ]

  mint-IsGone :
      (at : ℕ) (fresh : User) (subject s : Word) (st : Accounts)
      → (s == subject) ≡ false
      → IsGone subject at st
      → IsGone subject at (mint fresh s st).0
  mint-IsGone at fresh subject s st other (gone, rest) =
      (get-put st.users s subject (row_of fresh (get st.users s)) ∙ rw other gone, rest)

  after-IsGone :
      (at : ℕ) (subject : Word) (c : Call) (st : Accounts)
      → ((a b : Word) → hash a ≡ hash b → a ≡ b)
      → IsStale subject at c
      → IsGone subject at st
      → IsGone subject at (after c st)
  after-IsGone at subject (deletes faults now s) st apart late gone =
      elim (delete_reader_outcome hash faults now s st) [
        | inl same ↦ subst (IsGone subject at) (sym same) gone
        | inr made ↦
            subst (IsGone subject at) (sym made) (forget-IsGone at now subject s st apart late gone)
      ]
  after-IsGone at subject (signs_in faults fresh s signed_in) st apart stale gone =
      elim (Bool-cases (s == subject)) [
        | inl e ↦
            let same : s ≡ subject = (list_beq_iff s subject).0 e in
            let (err, refused) =
              refused_stale faults fresh subject at signed_in st gone (stale e) in
            let kept : (reader_for hash faults fresh s signed_in st).0 ≡ st =
              rw same (ap (λ (x : Accounts × Attempt ReaderError User). x.0) refused) in
            subst (IsGone subject at) (sym kept) gone
        | inr e ↦ elim (reader_for_outcome hash faults fresh s signed_in st) [
          | inl same ↦ subst (IsGone subject at) (sym same) gone
          | inr made ↦
              subst (IsGone subject at) (sym made) (mint-IsGone at fresh subject s st e gone)
        ]
      ]

  after_all-IsGone :
      (at : ℕ) (subject : Word) (calls : List Call) (st : Accounts)
      → ((a b : Word) → hash a ≡ hash b → a ≡ b)
      → All (IsStale subject at) calls
      → IsGone subject at st
      → IsGone subject at (after_all calls st)
  unfolding after_all
  after_all-IsGone at subject [] st apart stale gone = gone
  after_all-IsGone at subject (c ∷ calls) st apart stale gone =
      after_all-IsGone at subject calls (after c st) apart stale.1
        (after-IsGone at subject c st apart stale.0 gone)

  -- After a deletion, whatever readers come and go and whatever fails meanwhile, as long as no token
  -- of the subject is signed in since, there is no such reader, and a sign-in from before the second
  -- of the deletion, or one that has no time, is answered with an error and changes nothing. The hash
  -- is to keep subjects apart.
  pub deleted_stays_out :
      (subject : Word) (at : ℕ) (st st' : Accounts) (faults : Faults) (calls : List Call)
      (faults' : Faults) (fresh : User) (signed_in : ℕ)
      → ((a b : Word) → hash a ≡ hash b → a ≡ b)
      → delete_reader hash faults at subject st ≡ (st', done tt)
      → All (IsStale subject at) calls
      → is_stale at signed_in ≡ true
      → (get (after_all calls st').users subject ≡ none)
        × ((e : ReaderError) × (reader_for hash faults' fresh subject signed_in
                (after_all calls st')
              ≡ (after_all calls st', fail e)))
  unfolding delete_reader
  deleted_stays_out subject at st st' faults calls faults' fresh signed_in apart removed stale old =
      let start : IsGone subject at st' =
        subst (IsGone subject at)
          (ended_done st _
            (statement (faults 0)
              >> statement (faults 1)
              >> statement (faults 2)
              >> statement (faults 3)
              >> statement (faults 4))
            removed)
          (
            get-forget st.users subject subject ∙ rw (eqb_refl subject) refl,
            (
              at,
              get-put st.deleted_at (hash subject) (hash subject) at
                  ∙ rw (eqb_refl (hash subject)) refl,
              omega arith,
            ),
          ) in
      let gone = after_all-IsGone at subject calls st' apart stale start in
      (gone.0, refused_stale faults' fresh subject at signed_in (after_all calls st') gone old)
