-- ===== src/Sync/Writes.antt =====
-- The steps that an op may take on the tables, as a relation, and that the kinds take no others.
use Prim.Native.String.{String}
use wird.Prelude.{
  ℕ, ◌+◌, ◌/◌, ◌%◌, ltb, nat_beq, any, ◌≡◌, refl, subst, ◌∙◌, Bool, true, false, not, ◌&&◌, ◌||◌,
  List, [], ◌∷◌, ◌++◌, inl, inr, Option-cases, ◌==◌, nat_eq, if◌then◌else◌,
}
use wird.Prelude.Attempt.{Attempt, done, fail, >>=-eq-done, >>-eq-done}
use wird.Prelude.Texts.{string_eq}
use wird.Sync.Tables.{
  refusal, unknown_kind, Op, OpError, KeptBody, SetBody, PrayedBody, Prayer, Prefs, Position,
  Report, Tables, Formats, Run,
}
use wird.Sync.Kinds.{
  is_aya, clock_skew, check_reading_order, derive_set_id, decoded, understand, upsert_kept,
  bury_kept, insert_set, insert_prayer, upsert_prefs, upsert_position, blanked,
}
use wird.Sync.Apply.{
  exec, or_now, require, found_or_refused, has_range, prayer_of, holds_set, apply_ayah_understood,
  apply_kept_upsert, apply_kept_delete, upsert_set, apply_set_recorded, upsert_carried,
  apply_set_prayed, apply_prefs_set, apply_position_moved, apply_report, apply_kind,
}

module _ (user : String) where
  pub data Writes (t : Tables) : Tables → Type 0 where
    nothing : Writes t t
    understood :
        (at : ℕ) (ids : List ℕ)
        → Writes t (record t { understood = understand user at ids t.understood })
    upserted :
        (id : String) (b : KeptBody) → Writes t (record t { kept = upsert_kept user id b t.kept })
    buried : (id : String) (at : ℕ) → Writes t (record t { kept = bury_kept user id at t.kept })
    set : (b : SetBody) → Writes t (record t { sets = insert_set user b t.sets })
    prayed :
        (v : Tables) (p : Prayer)
        → Writes t v
        → p.user ≡ user
        → Writes t (record v { prayers = insert_prayer p v.prayers })
    preferred : (p : Prefs) → p.user ≡ user → Writes t (record t { prefs = upsert_prefs p t.prefs })
    moved :
        (p : Position)
        → p.user ≡ user
        → Writes t (record t { positions = upsert_position p t.positions })
    reported : (r : Report) → Writes t (record t { inbox = t.inbox ++ r ∷ [] })

exec-eq-done :
    (run : Run) (t : Tables) (n : ℕ) (after : Tables) {t' : Tables}
    → exec run t n after ≡ done t'
    → after ≡ t'
exec-eq-done run t n after h = elim (Option-cases (run.fails t n)) [
  | inl e ↦ cc (rw (e, exec) at h)
  | inr (x, e) ↦ cc (rw (e, exec) at h)
]

done_inj : (m : Attempt OpError Tables) {t t' : Tables} → m ≡ done t → m ≡ done t' → t ≡ t'
done_inj m h k = cc

found_or_refused-eq-done :
    (b : Bool) (t : Tables) {t' : Tables} → found_or_refused b t ≡ done t' → t ≡ t'
found_or_refused-eq-done true t h = cc
found_or_refused-eq-done false t h = cc

module _ (f : Formats) (run : Run) (user : String) (t t' : Tables) where
  kept_upsert-Writes :
      (raw : String) → apply_kept_upsert f run user raw t ≡ done t' → Writes user t t'
  unfolding apply_kept_upsert
  kept_upsert-Writes raw h =
      let (b, _, p) = >>=-eq-done (decoded (f.kept_body raw)) _ h in
      subst (Writes user t) (exec-eq-done run t 2 _ p) (upserted (f.uuid b.id) b)

  kept_delete-Writes :
      (raw : String) → apply_kept_delete f run user raw t ≡ done t' → Writes user t t'
  unfolding apply_kept_delete
  kept_delete-Writes raw h =
      let (b, _, p) = >>=-eq-done (decoded (f.delete_body raw)) _ h in
      let (after, q, r) = >>=-eq-done (exec run t 2 _) _ p in
      subst (Writes user t) (exec-eq-done run t 2 _ q ∙ found_or_refused-eq-done _ after r)
        (buried (f.uuid b.id) b.deleted_at)

  understood-Writes :
      (raw : String) → apply_ayah_understood f run user raw t ≡ done t' → Writes user t t'
  unfolding apply_ayah_understood
  understood-Writes raw h =
      let (b, _, p) = >>=-eq-done (decoded (f.understood_body raw)) _ h in
      let q = >>-eq-done (require (any (λ id. true) b.ayah_ids)) _ p in
      let r = >>-eq-done (require (not (any (λ id. not (is_aya id)) b.ayah_ids))) _ q in
      subst (Writes user t) (exec-eq-done run t 2 _ r)
        (understood (or_now run b.understood_at) b.ayah_ids)

  upsert_set-Writes : (b : SetBody) → upsert_set f run user b t ≡ done t' → Writes user t t'
  unfolding upsert_set
  upsert_set-Writes b h =
      let p =
        >>-eq-done
          (require (
            is_aya b.start_ayah_id
            && is_aya b.end_ayah_id
            && not (ltb b.end_ayah_id b.start_ayah_id)))
          _ h in
      let q = >>-eq-done (check_reading_order b.reading_order) _ p in
      let r =
        >>-eq-done (require (derive_set_id f b.reading_order b.start_ayah_id b.end_ayah_id == b.id))
          _ q in
      subst (Writes user t) (exec-eq-done run t 2 _ r) (set (record b { id = f.uuid b.id }))

  set_recorded-Writes :
      (raw : String) → apply_set_recorded f run user raw t ≡ done t' → Writes user t t'
  unfolding apply_set_recorded
  set_recorded-Writes raw h =
      let (b, _, p) = >>=-eq-done (decoded (f.set_body raw)) _ h in
      subst (Writes user t) (exec-eq-done run t 2 _ p) (set (record b { id = f.uuid b.id }))

  prefs_set-Writes : (raw : String) → apply_prefs_set f run user raw t ≡ done t' → Writes user t t'
  unfolding apply_prefs_set
  prefs_set-Writes raw h =
      let (b, _, p) = >>=-eq-done (decoded (f.prefs_body raw)) _ h in
      let q = >>-eq-done (check_reading_order b.reading_order) _ p in
      subst (Writes user t) (exec-eq-done run t 2 _ q) (
        preferred
          (record { user = user; reading_order = b.reading_order; updated_at = b.updated_at }) refl)

  position_moved-Writes :
      (raw : String) → apply_position_moved f run user raw t ≡ done t' → Writes user t t'
  unfolding apply_position_moved
  position_moved-Writes raw h =
      let (b, _, p) = >>=-eq-done (decoded (f.position_body raw)) _ h in
      let q = >>-eq-done (require (not (ltb b.surah_id 1 || ltb 114 b.surah_id))) _ p in
      let r =
        >>-eq-done
          (require (
            nat_beq (b.word_id / 1000000) b.surah_id
            && is_aya (b.word_id / 1000)
            && not (ltb (b.word_id % 1000) 1)))
          _ q in
      let s = >>-eq-done (require (not (nat_beq b.updated_at 0))) _ r in
      let w = >>-eq-done (require (not (ltb (run.now + clock_skew) b.updated_at))) _ s in
      subst (Writes user t) (exec-eq-done run t 2 _ w) (
        moved
          (record {
            user = user;
            surah_id = b.surah_id;
            word_id = b.word_id;
            updated_at = b.updated_at;
          })
          refl)

  report-Writes : (op : Op) → apply_report f run user op t ≡ done t' → Writes user t t'
  unfolding apply_report
  report-Writes op h =
      let (b, _, p) = >>=-eq-done (decoded (f.report_body op.body)) _ h in
      subst (Writes user t) (exec-eq-done run t 2 _ p) (reported (blanked f run.now b))

never_done :
    {P : Type 0} (e : OpError) (m : Attempt OpError Tables) {t' : Tables}
    → m ≡ fail e
    → m ≡ done t'
    → P
never_done e m h k = cc

if-eq-done :
    {P : Type 0} (b : Bool) (m k : Attempt OpError Tables) {t' : Tables}
    → (m ≡ done t' → P)
    → (k ≡ done t' → P)
    → (if b then m else k) ≡ done t'
    → P
if-eq-done true m k f g h = f h
if-eq-done false m k f g h = g h

module _ (f : Formats) (run : Run) (user : String) (t t' : Tables) where
  upsert_carried-Writes :
      (b : PrayedBody) → upsert_carried f run user b t ≡ done t' → Writes user t t'
  upsert_carried-Writes b =
      if-eq-done (has_range b) _ (done t) (upsert_set-Writes f run user t t' _)
        (λ h. subst (Writes user t) (done_inj (done t) refl h) nothing)

module _ (f : Formats) (run : Run) (user : String) (t t' : Tables) where
  set_prayed-Writes : (op : Op) → apply_set_prayed f run user op t ≡ done t' → Writes user t t'
  unfolding apply_set_prayed
  set_prayed-Writes op h =
      let (b, _, p) = >>=-eq-done (decoded (f.prayed_body op.body)) _ h in
      let (with_set, q, r) = >>=-eq-done (upsert_carried f run user b t) _ p in
      let (seen, s, w) = >>=-eq-done (exec run with_set 3 with_set) _ r in
      let (mine, x, y) = >>=-eq-done (found_or_refused (holds_set f run user b seen) seen) _ w in
      subst (Writes user t) (exec-eq-done run mine 4 _ y) (
        prayed mine (prayer_of f run user op b)
          (subst (Writes user t)
            (exec-eq-done run with_set 3 with_set s
              ∙ found_or_refused-eq-done (holds_set f run user b seen) seen x)
            (upsert_carried-Writes f run user t with_set b q))
          refl)

  -- Whatever the kind of an op, applying it takes one of the steps above.
  pub apply_kind-Writes : (op : Op) → apply_kind f run user op t ≡ done t' → Writes user t t'
  unfolding apply_kind
  apply_kind-Writes op = if-eq-done _ _ _ (understood-Writes f run user t t' op.body) (
      if-eq-done _ _ _ (kept_upsert-Writes f run user t t' op.body) (
        if-eq-done _ _ _ (kept_delete-Writes f run user t t' op.body) (
          if-eq-done _ _ _ (set_recorded-Writes f run user t t' op.body) (
            if-eq-done _ _ _ (set_prayed-Writes op) (
              if-eq-done _ _ _ (prefs_set-Writes f run user t t' op.body) (
                if-eq-done _ _ _ (position_moved-Writes f run user t t' op.body) (
                  if-eq-done _ _ _ (report-Writes f run user t t' op)
                    (never_done (refusal unknown_kind) _ refl))))))))
