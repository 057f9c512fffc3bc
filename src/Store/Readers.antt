-- ===== src/Store/Readers.antt =====
-- ReaderFor, EnsureUser and DeleteReader of server/internal/store/store.go. An instant is the number of
-- nanoseconds since Go's zero time.
pub mod Outcomes
pub mod Gone
use wird.Prelude.{
  ℕ, ◌+◌, ◌-◌, ◌%◌, Bool, true, false, not, ◌||◌, Option, none, some, List, [], ◌∷◌, ◌==◌, ltb,
  nat_beq, nat_eq, list_eq, if◌then◌else◌,
}
use wird.Prelude.Attempt.{Attempt, done, fail, ◌>>=◌, ◌>>◌}
use wird.Prelude.Map.{Map, get, put}
use wird.Text.{Word}
use wird.Sync.Tables.{DbError}

pub record User : Type 0 where
  pub user_id : Word
  pub oidc_subject : Word
  pub created_at : ℕ

-- The tables `users`, by the subject, and `deleted_readers`, by its hash.
pub record Accounts : Type 0 where
  pub users : Map Word User
  pub deleted_at : Map Word ℕ

pub data ReaderError : Type 0 where
  deleted : ReaderError
  driver : DbError → ReaderError

-- What the database answers a statement of the transaction, by its number: 0 is its start, 4 its end.
abbrev pub Faults : Type 0
Faults = ℕ → Option DbError

abbrev pub statement : Option DbError → Attempt ReaderError (Unit {0})
statement none = done tt
statement (some e) = fail (driver e)

-- t.Truncate(time.Second)
abbrev pub truncated : ℕ → ℕ
truncated t = t - t % 1000000000

-- A sign-in that proves nothing after a deletion at `at`.
abbrev pub is_stale : ℕ → ℕ → Bool
is_stale at signed_in = nat_beq signed_in 0 || ltb signed_in (truncated at)

abbrev pub admitted : ℕ → Option ℕ → Attempt ReaderError (Unit {0})
admitted signed_in none = done tt
admitted signed_in (some at) = if is_stale at signed_in then fail deleted else done tt

-- The row there is, or the one that the database mints.
abbrev pub row_of : User → Option User → User
row_of fresh none = fresh
row_of fresh (some u) = u

abbrev pub mint : User → Word → Accounts → Accounts × User
mint fresh subject st =
    let u = row_of fresh (get st.users subject) in (record st { users = put st.users subject u }, u)

-- pgx.BeginFunc: an error anywhere leaves the tables as they were.
abbrev pub ended :
    {A : Type 0} → Accounts → Attempt ReaderError (Accounts × A) → Accounts × Attempt ReaderError A
ended st (done (st', a)) = (st', done a)
ended st (fail e) = (st, fail e)

unfoldable pub forget : Map Word User → Word → Map Word User
forget [] subject = []
forget ((s, u) ∷ users) subject =
    let rest = forget users subject in if s == subject then rest else (s, u) ∷ rest

-- One statement, and no transaction around it.
unfoldable pub ensure_user :
    Option DbError → User → Word → Accounts → Accounts × Attempt ReaderError User
ensure_user fault fresh subject st = ended st (statement fault >> done (mint fresh subject st))

module _ (hash : Word → Word) where
  unfoldable pub reader_for :
      Faults → User → Word → ℕ → Accounts → Accounts × Attempt ReaderError User
  reader_for faults fresh subject signed_in st = ended st (
      statement (faults 0)
      >> statement (faults 1)
      >> statement (faults 2)
      >> admitted signed_in (get st.deleted_at (hash subject))
      >> statement (faults 3)
      >> statement (faults 4)
      >> done (mint fresh subject st))

  -- The rows that belong to the reader go with the row, by the foreign keys.
  unfoldable pub delete_reader :
      Faults → ℕ → Word → Accounts → Accounts × Attempt ReaderError (Unit {0})
  unfolding forget
  delete_reader faults now subject st = ended st (
      statement (faults 0)
      >> statement (faults 1)
      >> statement (faults 2)
      >> statement (faults 3)
      >> statement (faults 4)
      >> done (
        record st {
          users = forget st.users subject;
          deleted_at = put st.deleted_at (hash subject) now;
        },
        tt,
      ))
