-- ===== src/Sync/Replay.antt =====
-- A replay of an op: however many batches come between, the second send is no second write.
use Prim.Native.String.{String}
use wird.Prelude.{◌≡◌, ◌≢◌, refl, List, [], ◌∷◌, Has, pair_eq, inl, inr, ◌⊎◌}
use wird.Prelude.Attempt.{Attempt, done, fail}
use wird.Prelude.Texts.{string_eq}
use wird.Sync.Tables.{Op, OpResult, applied, DbError, Tables, Formats, Run}
use wird.Sync.Transaction.{attempt}
use wird.Sync.Batch.{Server, noted, answer_first, apply_one, apply}
use wird.Sync.Once.{attempt_logs, attempt_keeps, attempt_replay}

module _ (f : Formats) (user : String) (x : String × String) where
  attempt_result :
      (run : Run) (op : Op) (t : Tables) (m : Attempt DbError (Tables × OpResult))
      → attempt f run user op t ≡ m
      → ((e : DbError) × (m ≡ fail e)) ⊎ ((after : Tables) × (r : OpResult) × (m ≡ done (after, r)))
  attempt_result run op t (done (after, r)) h = inr (after, r, refl)
  attempt_result run op t (fail e) h = inl (e, refl)

  answer_first_tables :
      (r : OpResult) (s : Server × Attempt DbError (List OpResult))
      → (answer_first r s).0.tables ≡ s.0.tables
  answer_first_tables r (s, done rs) = refl
  answer_first_tables r (s, fail e) = refl

  -- A batch loses no entry of the log.
  pub apply_keeps :
      (ops : List (Run × Op)) (s : Server)
      → Has s.tables.op_log x
      → Has (apply f user ops s).0.tables.op_log x
  unfolding apply apply_one
  apply_keeps [] s m = m
  apply_keeps ((run, op) ∷ ops) s m =
      elim (attempt_result run op s.tables (attempt f run user op s.tables) refl) [
        | inl (e, h) ↦ rw (h, apply, apply_one) m
        | inr (after, r, h) ↦
            rw
              (
                h,
                apply,
                apply_one,
                answer_first_tables r (apply f user ops (noted run op s (after, r)).0),
              )
              (apply_keeps ops (noted run op s (after, r)).0
                (attempt_keeps f run user op s.tables x after r h m))
      ]

module _ (f : Formats) (user : String) (op : Op) where
  -- Once an op has been answered as applied, and any batch of the same reader after it, a further
  -- send of it is not applied and changes no table, whatever the database does meanwhile.
  pub applied_once :
      (run again : Run) (ops : List (Run × Op)) (s : Server) (after : Tables) (r : OpResult)
      → attempt f run user op s.tables ≡ done (after, r)
      → r.status ≡ applied
      → (last : Tables) (q : OpResult)
      → attempt f again user op (apply f user ops (record s { tables = after })).0.tables
        ≡ done (last, q)
      → (q.status ≢ applied) × (last ≡ (apply f user ops (record s { tables = after })).0.tables)
  applied_once run again ops s after r h p last q k =
      attempt_replay f again user op (apply f user ops (record s { tables = after })).0.tables
        (apply_keeps f user (user, f.uuid op.client_op_id) ops (record s { tables = after })
          (attempt_logs f run user op s.tables after r h p))
        last q k
