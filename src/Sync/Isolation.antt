-- ===== src/Sync/Isolation.antt =====
-- What one reader writes does not reach another's rows.
use Prim.Native.String.{String}
use wird.Prelude.{ℕ, ◌≡◌, refl, false, List, [], ◌∷◌, keep, ◌==◌, arith, nat_eq}
use wird.Prelude.Attempt.{done}
use wird.Prelude.Texts.{string_eq}
use wird.Sync.Tables.{Op, OpResult, Kept, KeptBody, Prefs, Position, Tables, Formats, Run}
use wird.Sync.Kinds.{upsert_kept, bury_kept, upsert_prefs, upsert_position}
use wird.Sync.Transaction.{attempt}
use wird.Sync.Writes.{
  Writes, nothing, understood, upserted, buried, set, prayed, preferred, moved, reported,
}
use wird.Sync.Once.{Ended, lost, landed, attempt-Ended}

-- The rows of a reader that another write could reach.
abbrev pub kept_of : String → Tables → List Kept
kept_of reader t = keep (λ k. k.user == reader) t.kept

abbrev pub prefs_of : String → Tables → List Prefs
prefs_of reader t = keep (λ q. q.user == reader) t.prefs

abbrev pub positions_of : String → Tables → List Position
positions_of reader t = keep (λ q. q.user == reader) t.positions

abbrev pub SameRows : String → Tables → Tables → Type 0
SameRows reader t t' =
    (kept_of reader t' ≡ kept_of reader t)
    × (prefs_of reader t' ≡ prefs_of reader t)
    × (positions_of reader t' ≡ positions_of reader t)

module _ (reader user : String) (apart : (user == reader) ≡ false) where
  keep-upsert_kept :
      (id : String) (b : KeptBody) (rows : List Kept)
      → keep (λ k. k.user == reader) (upsert_kept user id b rows)
        ≡ keep (λ k. k.user == reader) rows
  unfolding upsert_kept
  keep-upsert_kept id b [] = rw apart refl
  keep-upsert_kept id b (k ∷ rows) =
      ground (arith, keep-upsert_kept id b rows, string_eq.eqb_iff k.user user)

  keep-bury_kept :
      (id : String) (at : ℕ) (rows : List Kept)
      → keep (λ k. k.user == reader) (bury_kept user id at rows) ≡ keep (λ k. k.user == reader) rows
  unfolding bury_kept
  keep-bury_kept id at [] = refl
  keep-bury_kept id at (k ∷ rows) =
      ground (arith, keep-bury_kept id at rows, string_eq.eqb_iff k.user user)

  keep-upsert_prefs :
      (p : Prefs) (rows : List Prefs)
      → p.user ≡ user
      → keep (λ q. q.user == reader) (upsert_prefs p rows) ≡ keep (λ q. q.user == reader) rows
  unfolding upsert_prefs
  keep-upsert_prefs p [] e = rw (e, apart) refl
  keep-upsert_prefs p (q ∷ rows) e =
      ground (arith, keep-upsert_prefs p rows e, string_eq.eqb_iff q.user p.user)

  keep-upsert_position :
      (p : Position) (rows : List Position)
      → p.user ≡ user
      → keep (λ q. q.user == reader) (upsert_position p rows) ≡ keep (λ q. q.user == reader) rows
  unfolding upsert_position
  keep-upsert_position p [] e = rw (e, apart) refl
  keep-upsert_position p (q ∷ rows) e =
      ground (arith, keep-upsert_position p rows e, string_eq.eqb_iff q.user p.user)

  SameRows-Writes : (t t' : Tables) → Writes user t t' → SameRows reader t t'
  SameRows-Writes t t' nothing = (refl, refl, refl)
  SameRows-Writes t t' (understood at ids) = (refl, refl, refl)
  SameRows-Writes t t' (upserted id b) = (keep-upsert_kept id b t.kept, refl, refl)
  SameRows-Writes t t' (buried id at) = (keep-bury_kept id at t.kept, refl, refl)
  SameRows-Writes t t' (set b) = (refl, refl, refl)
  SameRows-Writes t t' (prayed v p w e) = SameRows-Writes t v w
  SameRows-Writes t t' (preferred p e) = (refl, keep-upsert_prefs p t.prefs e, refl)
  SameRows-Writes t t' (moved p e) = (refl, refl, keep-upsert_position p t.positions e)
  SameRows-Writes t t' (reported r) = (refl, refl, refl)

  module _ (f : Formats) (run : Run) (op : Op) (t : Tables) where
    SameRows-Ended : (e : Tables × OpResult) → Ended f run user op t e → SameRows reader t e.0
    SameRows-Ended (_, r) (lost _ p) = (refl, refl, refl)
    SameRows-Ended (after, r) (landed _ _ p new w) = SameRows-Writes _ after w

    -- An op of one reader changes no kept item, no preferences and no position of another reader,
    -- whatever ids it carries.
    pub attempt_isolates :
        (after : Tables) (r : OpResult)
        → attempt f run user op t ≡ done (after, r)
        → SameRows reader t after
    attempt_isolates after r h =
        SameRows-Ended (after, r) (attempt-Ended f run user op t (after, r) h)
