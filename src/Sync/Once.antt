-- ===== src/Sync/Once.antt =====
-- An op takes effect once, and as a whole: what the transaction of server/internal/store/sync.go and
-- the log of the op ids are for.
use Prim.Native.String.{String}
use wird.Prelude.{
  ◌≡◌, ◌≢◌, ◌⊎◌, true, Bool, if◌then◌else◌, refl, ap, subst, false, ◌∷◌, Option, none, some,
  Bool-cases, inl, inr, Option-cases, ◌==◌, contains, Has, Has-head, pair_eq, arith,
}
use wird.Prelude.Attempt.{Attempt, done, fail}
use wird.Prelude.Texts.{string_eq}
use wird.Sync.Tables.{
  Op, OpError, OpResult, Status, applied, duplicate, refused, failed, DbError, sqlstate, other,
  refusal, database, Tables, Formats, Run,
}
use wird.Sync.Apply.{exec, record_op, apply_kind}
use wird.Sync.Transaction.{
  answered, refused_by, classify, classify_record, kind_result, after_record, apply_in_tx, begun,
  committed, attempt,
}
use wird.Sync.Writes.{
  Writes, nothing, understood, upserted, buried, set, prayed, preferred, moved, reported,
  apply_kind-Writes,
}

-- Applying an op of any kind leaves the log alone.
pub op_log-Writes : (user : String) (t t' : Tables) → Writes user t t' → t'.op_log ≡ t.op_log
op_log-Writes user t t' nothing = refl
op_log-Writes user t t' (understood at ids) = refl
op_log-Writes user t t' (upserted id b) = refl
op_log-Writes user t t' (buried id at) = refl
op_log-Writes user t t' (set b) = refl
op_log-Writes user t t' (prayed v p w e) = op_log-Writes user t v w
op_log-Writes user t t' (preferred p e) = refl
op_log-Writes user t t' (moved p e) = refl
op_log-Writes user t t' (reported r) = refl

-- An error is never reported as a write.
classify_lost : (op : Op) (e : OpError) → (classify op e).status ≢ applied
unfolding classify
classify_lost op (refusal key) h = cc
classify_lost op (database other) h = cc
classify_lost op (database (sqlstate class rest)) h = elim (Option-cases (refused_by class rest)) [
  | inl e ↦ cc (rw (e, classify) at h)
  | inr (k, e) ↦ cc (rw (e, classify) at h)
]

classify_record_lost : (op : Op) (e : OpError) → (classify_record op e).status ≢ applied
unfolding classify_record
classify_record_lost op (refusal key) = classify_lost op (refusal key)
classify_record_lost op (database other) = classify_lost op (database other)
classify_record_lost op (database (sqlstate class rest)) = elim (Bool-cases (class == "22")) [
  | inl e ↦ rw e (classify_lost op (refusal _))
  | inr e ↦ rw e (classify_lost op (database (sqlstate class rest)))
]

begun-eq-done :
    (o : Option DbError) (x : Tables × OpResult) {e : Tables × OpResult}
    → begun o x ≡ done e
    → x ≡ e
begun-eq-done none x h = cc
begun-eq-done (some e) x h = cc

module _ (f : Formats) (run : Run) (user : String) (op : Op) (t : Tables) where
  abbrev pub own : String × String
  own = (user, f.uuid op.client_op_id)

  abbrev pub logged : Tables
  logged = record t { op_log = own ∷ t.op_log }

  -- How a transaction may stand before its commit: with nothing to keep, or with a new entry of the
  -- log and a step of its kind.
  data Pending : Tables × OpResult → Type 0 where
    discarded : (after : Tables) (r : OpResult) → r.status ≢ applied → Pending (after, r)
    ready :
        (after : Tables) (r : OpResult)
        → r.status ≡ applied
        → contains t.op_log own ≡ false
        → Writes user logged after
        → Pending (after, r)

  -- How a run of an op may end: without a trace, or as a new entry of the log and a step of its kind,
  -- which is answered as applied unless the answer of the commit is lost.
  pub data Ended : Tables × OpResult → Type 0 where
    lost : (r : OpResult) → r.status ≢ applied → Ended (t, r)
    landed :
        (after : Tables) (r : OpResult)
        → ((r.status ≡ applied) ⊎ (run.landed ≡ true))
        → contains t.op_log own ≡ false
        → Writes user logged after
        → Ended (after, r)

  rolled_back :
      (s : Status) (after : Tables) (r : OpResult)
      → r.status ≡ s
      → s ≢ applied
      → Ended (committed f run user op t (after, r))
  rolled_back applied after r e p = absurd (p refl)
  rolled_back duplicate after r e p = rw e (lost r (λ q. cc))
  rolled_back refused after r e p = rw e (lost r (λ q. cc))
  rolled_back failed after r e p = rw e (lost r (λ q. cc))

  kind_result-Pending :
      (m : Attempt OpError Tables)
      → ((after : Tables) → m ≡ done after → Writes user logged after)
      → contains t.op_log own ≡ false
      → Pending (kind_result op (run.partial logged) m)
  kind_result-Pending (done after) w new = ready after _ refl new (w after refl)
  kind_result-Pending (fail e) w new = discarded (run.partial logged) _ (classify_lost op e)

  after_record-Pending :
      Pending (after_record f run user op t (record_op f run user op.client_op_id t))
  unfolding after_record record_op
  after_record-Pending = elim (Option-cases (run.fails t 1)) [
    | inr (e, k) ↦ rw (k, record_op, exec) (discarded t _ (classify_record_lost op (database e)))
    | inl k ↦ elim (Bool-cases (contains t.op_log own)) [
      | inl old ↦ rw (k, old, record_op, exec) (discarded t _ (λ p. cc))
      | inr new ↦
          rw (k, new, record_op, exec)
            (kind_result-Pending (apply_kind f run user op logged)
              (λ after. apply_kind-Writes f run user logged after op) new)
    ]
  ]

  apply_in_tx-Pending : Pending (apply_in_tx f run user op t)
  unfolding apply_in_tx
  apply_in_tx-Pending = elim (Option-cases (run.fails t 0)) [
    | inr (e, h) ↦ rw (h, apply_in_tx) (discarded t _ (classify_lost op (database e)))
    | inl h ↦ rw (h, apply_in_tx) after_record-Pending
  ]

  by_landing :
      (after : Tables) (r : OpResult) (b : Bool)
      → run.landed ≡ b
      → r.status ≢ applied
      → contains t.op_log own ≡ false
      → Writes user logged after
      → Ended (if b then after else t, r)
  by_landing after r true l p new w = landed after r (inr l) new w
  by_landing after r false l p new w = lost r p

  by_answer :
      (after : Tables) (r : OpResult)
      → r.status ≡ applied
      → contains t.op_log own ≡ false
      → Writes user logged after
      → (o : Option DbError)
      → Ended (elim o [
        | none ↦ (after, r)
        | some e ↦ (if run.landed then after else t, classify op (database e))
      ])
  by_answer after r p new w none = landed after r (inl p) new w
  by_answer after r p new w (some e) =
      by_landing after _ run.landed refl (classify_lost op (database e)) new w

  committed-Ended :
      (ended : Tables × OpResult) → Pending ended → Ended (committed f run user op t ended)
  committed-Ended (after, r) (ready _ _ p new w) = rw p (by_answer after r p new w run.commit)
  committed-Ended (after, r) (discarded _ _ p) = rolled_back r.status after r refl p

  pub attempt-Ended :
      (ended : Tables × OpResult) → attempt f run user op t ≡ done ended → Ended ended
  unfolding attempt
  attempt-Ended ended h =
      subst Ended (begun-eq-done run.begin _ h) (committed-Ended _ apply_in_tx-Pending)

  not_new :
      (e : Tables × OpResult) → Ended e → Has t.op_log own → (e.1.status ≢ applied) × (e.0 ≡ t)
  not_new (_, r) (lost _ p) old = (p, refl)
  not_new (after, r) (landed _ _ p new w) old = cc

  now_logged : (e : Tables × OpResult) → Ended e → e.1.status ≡ applied → Has e.0.op_log own
  now_logged (_, r) (lost _ p) q = absurd (p q)
  now_logged (after, r) (landed _ _ p new w) q =
      rw (op_log-Writes user logged after w) (Has-head own t.op_log)

  still_logged :
      (x : String × String) (e : Tables × OpResult) → Ended e → Has t.op_log x → Has e.0.op_log x
  still_logged x (_, r) (lost _ p) m = m
  still_logged x (after, r) (landed _ _ p new w) m =
      rw (op_log-Writes user logged after w) (ground (arith, m))

  -- An op whose id is in the log of its reader is not applied again, and changes no table.
  pub attempt_replay :
      Has t.op_log own
      → (after : Tables) (r : OpResult) → attempt f run user op t ≡ done (after, r)
      → (r.status ≢ applied) × (after ≡ t)
  attempt_replay old after r h = not_new (after, r) (attempt-Ended (after, r) h) old

  -- An op that is answered as applied is in the log.
  pub attempt_logs :
      (after : Tables) (r : OpResult)
      → attempt f run user op t ≡ done (after, r)
      → r.status ≡ applied
      → Has after.op_log own
  attempt_logs after r h p = now_logged (after, r) (attempt-Ended (after, r) h) p

  -- No entry of the log is lost.
  pub attempt_keeps :
      (x : String × String) (after : Tables) (r : OpResult)
      → attempt f run user op t ≡ done (after, r)
      → Has t.op_log x
      → Has after.op_log x
  attempt_keeps x after r h m = still_logged x (after, r) (attempt-Ended (after, r) h) m

  -- Where the transaction begins and its first two statements run, a replay is answered as a
  -- duplicate.
  pub attempt_duplicate :
      run.begin ≡ none
      → run.fails t 0 ≡ none
      → run.fails t 1 ≡ none
      → Has t.op_log own
      → attempt f run user op t ≡ done (t, answered op duplicate none)
  unfolding attempt apply_in_tx after_record record_op
  attempt_duplicate b l o m =
      rw (l, o, m, apply_in_tx, record_op, exec)
        (ap (λ x. begun x (t, answered op duplicate none)) b)
