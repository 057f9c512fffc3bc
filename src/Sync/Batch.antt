-- ===== src/Sync/Batch.antt =====
-- server/internal/store/sync.go: a batch of ops, and the count of those that are lost.
use Prim.Native.String.{String}
use wird.Prelude.{◌+◌, Bool, true, false, not, ◌&&◌, List, [], ◌∷◌, ◌==◌, contains, if◌then◌else◌}
use wird.Prelude.Attempt.{Attempt, done, fail, ◌>>=◌}
use wird.Prelude.Texts.{string_eq}
use wird.Sync.Tables.{
  Op, Status, OpResult, DbError, applied, duplicate, refused, failed, Outcome, Tables, Formats, Run,
}
use wird.Sync.Apply.{op_kinds}
use wird.Sync.Transaction.{attempt}

abbrev pub same_status : Status → Status → Bool
same_status applied applied = true
same_status duplicate duplicate = true
same_status refused refused = true
same_status failed failed = true
same_status _ _ = false

-- Only the kinds of the list are counted by name.
unfoldable pub count_outcome : String → Status → List Outcome → List Outcome
count_outcome kind status [] = record { kind = kind; status = status; ops = 1 } ∷ []
count_outcome kind status (o ∷ rows) =
    let rest = count_outcome kind status rows in
    if (o.kind == kind) && same_status o.status status
    then record o { ops = o.ops + 1 } ∷ rows
    else o ∷ rest

abbrev pub counted_as : String → String
counted_as kind = if not (contains op_kinds kind) then "unknown" else kind

pub record Server : Type 0 where
  pub tables : Tables
  pub outcomes : List Outcome

abbrev pub is_lost : Status → Bool
is_lost refused = true
is_lost failed = true
is_lost _ = false

abbrev pub noted : Run → Op → Server → Tables × OpResult → Server × OpResult
noted run op s (after, result) = (
  record {
    tables = after;
    outcomes =
        if is_lost result.status && run.counted
        then count_outcome (counted_as op.kind) result.status s.outcomes
        else s.outcomes;
  },
  result,
)

abbrev pub answer_first :
    OpResult → Server × Attempt DbError (List OpResult) → Server × Attempt DbError (List OpResult)
answer_first r (s, done rs) = (s, done (r ∷ rs))
answer_first r (s, fail e) = (s, fail e)

module _ (f : Formats) (user : String) where
  unfoldable pub apply_one : Run → Op → Server → Attempt DbError (Server × OpResult)
  apply_one run op s = do ended ← attempt f run user op s.tables; done (noted run op s ended)

  -- The batch, one op at a time, each in its own run. What was applied before a transaction could not
  -- begin stays applied.
  unfoldable pub apply : List (Run × Op) → Server → Server × Attempt DbError (List OpResult)
  apply [] s = (s, done [])
  apply ((run, op) ∷ ops) s = elim (apply_one run op s) [
    | fail e ↦ (s, fail e)
    | done (after, result) ↦ answer_first result (apply ops after)
  ]
