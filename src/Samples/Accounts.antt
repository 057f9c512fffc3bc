-- ===== src/Samples/Accounts.antt =====
-- A reader who deletes the account, and one who has understood two ayas.
use wird.Prelude.{
  Option, ◌⊎◌, ◌≡◌, refl, ℕ, List, [], ◌∷◌, some, none, nat_eq, list_eq, All, length, get_or,
}
use wird.Prelude.Attempt.{done, fail}
use wird.Prelude.Map.{get, put}
use wird.Text.{Word}
use wird.Text.Ascii.{ascii}
use wird.Sync.Tables.{Tables}
use wird.Store.Readers.{User, Accounts, ReaderError, Faults, reader_for, delete_reader, forget}
use wird.Store.Readers.Gone.{Call, signs_in, after_all, IsStale, deleted_stays_out}
use wird.Sync.Tables.{DbError}
use wird.Store.Progress.{unanswered, Progress, progress, understood_by}
use wird.Store.Progress.Juz.{in_juz, progress_exact}

abbrev amina : Word
amina = ascii "amina"

abbrev row : User
row = record { user_id = ascii "1"; oidc_subject = amina; created_at = 0 }

abbrev before : Accounts
before = record { users = (amina, row) ∷ []; deleted_at = [] }

abbrev same_hash : Word → Word
same_hash w = w

abbrev no_faults : Faults
no_faults n = none

abbrev removed : Accounts
removed = record { users = []; deleted_at = (amina, 5000000000) ∷ [] }

delete_reader-amina : delete_reader same_hash no_faults 5000000000 amina before ≡ (removed, done tt)
unfolding delete_reader forget put
delete_reader-amina = refl

-- A sign-in of another reader, and one of the same with an old token.
abbrev calls : List Call
calls =
    signs_in no_faults (record row { oidc_subject = ascii "bilal" }) (ascii "bilal") 6000000000
    ∷ signs_in no_faults row amina 4000000000
    ∷ []

IsStale-calls : All (IsStale same_hash amina 5000000000) calls
IsStale-calls = ((λ h. cc), ((λ h. refl), tt))

deleted_stays_out_example :
    (get (after_all same_hash calls removed).users amina ≡ none)
    × ((e : ReaderError) × (reader_for same_hash no_faults row amina 4500000000
            (after_all same_hash calls removed)
          ≡ (after_all same_hash calls removed, fail e)))
deleted_stays_out_example =
    deleted_stays_out same_hash amina 5000000000 before removed no_faults calls no_faults row
      4500000000 (λ a b h. h) delete_reader-amina IsStale-calls refl

abbrev tables : Tables
tables = record {
  op_log = [];
  understood =
      record { user = "amina"; ayah_id = 1001; at = 0 }
      ∷ record { user = "amina"; ayah_id = 2142; at = 0 }
      ∷ [];
  kept = [];
  sets = [];
  prayers = [];
  prefs = [];
  positions = [];
  inbox = [];
}

abbrev untroubled : ℕ → Option DbError
untroubled n = none

progress_exact_example :
    ((e : DbError) × (n : ℕ) × (untroubled n ≡ some e)
      × (progress untroubled "amina" tables [] ≡ fail (unanswered e)))
    ⊎ ((p : Progress) × (progress untroubled "amina" tables [] ≡ done p)
        × (p.understood ≡ length (understood_by "amina" tables.understood))
        × ((i : ℕ)
            → get_or p.juz_understood i 0 ≡ in_juz (understood_by "amina" tables.understood) i))
progress_exact_example = progress_exact untroubled "amina" tables []
