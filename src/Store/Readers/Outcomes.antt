-- ===== src/Store/Readers/Outcomes.antt =====
-- What ReaderFor and DeleteReader of server/internal/store/store.go leave of the tables, whichever of
-- their statements fail.
use wird.Prelude.{◌≡◌, refl, ℕ, ◌⊎◌, inl, inr, nat_eq, list_eq}
use wird.Prelude.Attempt.{Attempt, done, fail, ◌>>◌}
use wird.Prelude.Map.{get, put}
use wird.Text.{Word}
use wird.Store.Readers.{
  User, Accounts, ReaderError, Faults, statement, admitted, mint, ended, forget, reader_for,
  delete_reader,
}

module _ (hash : Word → Word) where
  -- A sign-in leaves the tables as they were, or mints its reader.
  pub reader_for_outcome :
      (faults : Faults) (fresh : User) (s : Word) (signed_in : ℕ) (st : Accounts)
      → ((reader_for hash faults fresh s signed_in st).0 ≡ st)
        ⊎ ((reader_for hash faults fresh s signed_in st).0 ≡ (mint fresh s st).0)
  unfolding reader_for
  reader_for_outcome faults fresh s signed_in st = chain (
      statement (faults 0)
      >> statement (faults 1)
      >> statement (faults 2)
      >> admitted signed_in (get st.deleted_at (hash s))
      >> statement (faults 3)
      >> statement (faults 4))
    where
      chain :
          (m : Attempt ReaderError (Unit {0}))
          → ((ended st (m >> done (mint fresh s st))).0 ≡ st)
            ⊎ ((ended st (m >> done (mint fresh s st))).0 ≡ (mint fresh s st).0)
      chain (done x) = inr refl
      chain (fail e) = inl refl

  -- The tables after a deletion at `now`.
  abbrev pub removed : ℕ → Word → Accounts → Accounts
  removed now s st = record st {
    users = forget st.users s;
    deleted_at = put st.deleted_at (hash s) now;
  }

  pub delete_reader_outcome :
      (faults : Faults) (now : ℕ) (s : Word) (st : Accounts)
      → ((delete_reader hash faults now s st).0 ≡ st)
        ⊎ ((delete_reader hash faults now s st).0 ≡ removed now s st)
  unfolding delete_reader
  delete_reader_outcome faults now s st = chain (
      statement (faults 0)
      >> statement (faults 1)
      >> statement (faults 2)
      >> statement (faults 3)
      >> statement (faults 4))
    where
      chain :
          (m : Attempt ReaderError (Unit {0}))
          → ((ended {A = Unit {0}} st (m >> done (removed now s st, tt))).0 ≡ st)
            ⊎ ((ended {A = Unit {0}} st (m >> done (removed now s st, tt))).0 ≡ removed now s st)
      chain (done x) = inr refl
      chain (fail e) = inl refl
