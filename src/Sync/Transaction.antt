-- ===== src/Sync/Transaction.antt =====
-- server/internal/store/sync.go: the transaction of an op, and what its errors are answered with.
use Prim.Native.String.{String}
use wird.Prelude.{◌&&◌, ◌||◌, Option, none, some, ◌==◌, nat_eq, pair_eq, if◌then◌else◌}
use wird.Prelude.Attempt.{Attempt, done, fail}
use wird.Prelude.Texts.{string_eq}
use wird.Sync.Tables.{
  Op, Status, Key, OpResult, DbError, OpError, applied, duplicate, refused, failed, bad_body,
  bad_value, not_found, conflict, retry, sqlstate, other, refusal, database, Tables, Formats, Run,
}
use wird.Sync.Apply.{apply_kind, record_op}

abbrev pub answered : Op → Status → Option Key → OpResult
answered op status key = record { client_op_id = op.client_op_id; status = status; key = key }

unfoldable pub refused_by : String → String → Option Key
refused_by class rest =
    if class == "22"
    then some bad_body
    else if (class == "23") && (rest == "503")
    then some not_found
    else if (class == "23") && ((rest == "502") || (rest == "514"))
    then some bad_value
    else if class == "23"
    then some conflict
    else none

-- An op that is not refused is worth sending again.
unfoldable pub classify : Op → OpError → OpResult
classify op (refusal key) = answered op refused (some key)
classify op (database other) = answered op failed (some retry)
classify op (database (sqlstate class rest)) = elim (refused_by class rest) [
  | some key ↦ answered op refused (some key)
  | none ↦ answered op failed (some retry)
]

-- The id is all that the device chose of that statement.
unfoldable pub classify_record : Op → OpError → OpResult
classify_record op (refusal key) = classify op (refusal key)
classify_record op (database other) = classify op (database other)
classify_record op (database (sqlstate class rest)) =
    if class == "22"
    then classify op (refusal bad_value)
    else classify op (database (sqlstate class rest))

-- A transaction that cannot begin is an error of the whole batch.
abbrev pub begun : Option DbError → Tables × OpResult → Attempt DbError (Tables × OpResult)
begun none ended = done ended
begun (some e) ended = fail e

-- `written` is what the transaction sees where the op fails: its id in the log, and what its own
-- statements wrote before the one that failed.
abbrev pub kind_result : Op → Tables → Attempt OpError Tables → Tables × OpResult
kind_result op written (done after) = (after, answered op applied none)
kind_result op written (fail e) = (written, classify op e)

module _ (f : Formats) (run : Run) (user : String) where
  unfoldable pub after_record : Op → Tables → Attempt OpError (Option Tables) → Tables × OpResult
  after_record op t (fail e) = (t, classify_record op e)
  after_record op t (done none) = (t, answered op duplicate none)
  after_record op t (done (some logged)) =
      kind_result op (run.partial logged) (apply_kind f run user op logged)

  -- The tables as the transaction sees them at the end, and the answer.
  unfoldable pub apply_in_tx : Op → Tables → Tables × OpResult
  apply_in_tx op t = elim (run.fails t 0) [
    | some e ↦ (t, classify op (database e))
    | none ↦ after_record op t (record_op f run user op.client_op_id t)
  ]

  -- What is rolled back leaves the tables as they were. A commit that answers with an error may have
  -- landed all the same.
  abbrev pub committed : Op → Tables → Tables × OpResult → Tables × OpResult
  committed op t (after, result) = elim result.status [
    | applied ↦ elim run.commit [
      | none ↦ (after, result)
      | some e ↦ (if run.landed then after else t, classify op (database e))
    ]
    | duplicate ↦ (t, result)
    | refused ↦ (t, result)
    | failed ↦ (t, result)
  ]

  unfoldable pub attempt : Op → Tables → Attempt DbError (Tables × OpResult)
  attempt op t = begun run.begin (committed op t (apply_in_tx op t))
