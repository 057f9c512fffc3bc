-- ===== src/Sync/Apply.antt =====
-- server/internal/store/sync.go: how an op of each kind is applied, in a transaction of its own.
use Prim.Native.String.{String}
use wird.Prelude.{
  ℕ, ◌+◌, ◌/◌, ◌%◌, Bool, true, false, not, ◌&&◌, ◌||◌, List, [], ◌∷◌, ◌++◌, Option, none, some,
  ◌==◌, nat_eq, nat_beq, ltb, any, contains, pair_eq, if◌then◌else◌,
}
use wird.Prelude.Attempt.{Attempt, done, fail, ◌>>=◌, ◌>>◌}
use wird.Prelude.Texts.{string_eq}
use wird.Sync.Tables.{
  Op, OpError, unknown_kind, bad_value, not_found, refusal, database, SetBody, PrayedBody, Prayer,
  Tables, Formats, Run,
}
use wird.Sync.Kinds.{
  is_aya, check_reading_order, derive_set_id, decoded, clock_skew, understand, upsert_kept,
  bury_kept, insert_set, insert_prayer, upsert_prefs, upsert_position, blanked,
}

abbrev pub op_kinds : List String
op_kinds =
    "ayah_understood" ∷ "kept_upsert" ∷ "kept_delete" ∷ "set_recorded" ∷ "set_prayed" ∷ "prefs_set"
    ∷ "position_moved" ∷ "report_written" ∷ []

-- The n-th statement of a transaction, from 0.
abbrev pub exec : Run → Tables → ℕ → Tables → Attempt OpError Tables
exec run t n after = elim (run.fails t n) [ none ↦ done after | some e ↦ fail (database e) ]

abbrev pub require : Bool → Attempt OpError (Unit {0})
require true = done tt
require false = fail (refusal bad_value)

abbrev pub found_or_refused : Bool → Tables → Attempt OpError Tables
found_or_refused true t = done t
found_or_refused false t = fail (refusal not_found)

abbrev pub or_now : Run → ℕ → ℕ
or_now run at = if nat_beq at 0 then run.now else at

abbrev pub has_range : PrayedBody → Bool
has_range b =
    not (nat_beq b.start_ayah_id 0) || not (nat_beq b.end_ayah_id 0) || not (b.reading_order == "")

module _ (f : Formats) (run : Run) (user : String) where
  unfoldable pub apply_ayah_understood : String → Tables → Attempt OpError Tables
  apply_ayah_understood raw t = do
    b ← decoded (f.understood_body raw)
    require (any (λ id. true) b.ayah_ids)
    require (not (any (λ id. not (is_aya id)) b.ayah_ids))
    exec run t 2 (record t {
      understood = understand user (or_now run b.understood_at) b.ayah_ids t.understood;
    })

  unfoldable pub apply_kept_upsert : String → Tables → Attempt OpError Tables
  apply_kept_upsert raw t = do
    b ← decoded (f.kept_body raw)
    exec run t 2 (record t { kept = upsert_kept user (f.uuid b.id) b t.kept })

  unfoldable pub apply_kept_delete : String → Tables → Attempt OpError Tables
  apply_kept_delete raw t = do
    b ← decoded (f.delete_body raw)
    after ← exec run t 2 (record t { kept = bury_kept user (f.uuid b.id) b.deleted_at t.kept })
    found_or_refused (any (λ k. (k.id == f.uuid b.id) && (k.user == user)) t.kept) after

  unfoldable pub upsert_set : SetBody → Tables → Attempt OpError Tables
  upsert_set b t = do
    require
        (is_aya b.start_ayah_id && is_aya b.end_ayah_id && not (ltb b.end_ayah_id b.start_ayah_id))
    check_reading_order b.reading_order
    require (derive_set_id f b.reading_order b.start_ayah_id b.end_ayah_id == b.id)
    exec run t 2 (record t { sets = insert_set user (record b { id = f.uuid b.id }) t.sets })

  unfoldable pub apply_set_recorded : String → Tables → Attempt OpError Tables
  apply_set_recorded raw t = do
    b ← decoded (f.set_body raw)
    exec run t 2 (record t { sets = insert_set user (record b { id = f.uuid b.id }) t.sets })

  -- A body that carries the range brings the set with it.
  abbrev pub upsert_carried : PrayedBody → Tables → Attempt OpError Tables
  upsert_carried b t =
      if has_range b
      then upsert_set
          (record {
            id = b.set_id;
            start_ayah_id = b.start_ayah_id;
            end_ayah_id = b.end_ayah_id;
            reading_order = b.reading_order;
            created_at = b.prayed_at;
          })
          t
      else done t

  -- The id of the op is the prayer's where the device names none.
  abbrev pub prayer_of : Op → PrayedBody → Prayer
  prayer_of op b = record {
    id = f.uuid (if b.id == "" then op.client_op_id else b.id);
    set_id = f.uuid b.set_id;
    user = user;
    prayer_name = b.prayer_name;
    prayed_at = b.prayed_at;
  }

  abbrev pub holds_set : PrayedBody → Tables → Bool
  holds_set b t = any (λ s. (s.id == f.uuid b.set_id) && (s.user == user)) t.sets

  unfoldable pub apply_set_prayed : Op → Tables → Attempt OpError Tables
  apply_set_prayed op t = do
    b ← decoded (f.prayed_body op.body)
    with_set ← upsert_carried b t
    seen ← exec run with_set 3 with_set
    mine ← found_or_refused (holds_set b seen) seen
    exec run mine 4 (record mine { prayers = insert_prayer (prayer_of op b) mine.prayers })

  unfoldable pub apply_prefs_set : String → Tables → Attempt OpError Tables
  apply_prefs_set raw t = do
    b ← decoded (f.prefs_body raw)
    check_reading_order b.reading_order
    exec run t 2 (record t {
      prefs =
          upsert_prefs
            (record { user = user; reading_order = b.reading_order; updated_at = b.updated_at })
            t.prefs;
    })

  unfoldable pub apply_position_moved : String → Tables → Attempt OpError Tables
  apply_position_moved raw t = do
    b ← decoded (f.position_body raw)
    require (not (ltb b.surah_id 1 || ltb 114 b.surah_id))
    require (
        nat_beq (b.word_id / 1000000) b.surah_id
        && is_aya (b.word_id / 1000)
        && not (ltb (b.word_id % 1000) 1))
    require (not (nat_beq b.updated_at 0))
    require (not (ltb (run.now + clock_skew) b.updated_at))
    exec run t 2 (record t {
      positions =
          upsert_position
            (record {
              user = user;
              surah_id = b.surah_id;
              word_id = b.word_id;
              updated_at = b.updated_at;
            })
            t.positions;
    })

  -- The one kind that writes nothing of the reader.
  unfoldable pub apply_report : Op → Tables → Attempt OpError Tables
  apply_report op t = do
    b ← decoded (f.report_body op.body)
    exec run t 2 (record t { inbox = t.inbox ++ blanked f run.now b ∷ [] })

  unfoldable pub apply_kind : Op → Tables → Attempt OpError Tables
  apply_kind op t =
      if op.kind == "ayah_understood"
      then apply_ayah_understood op.body t
      else if op.kind == "kept_upsert"
      then apply_kept_upsert op.body t
      else if op.kind == "kept_delete"
      then apply_kept_delete op.body t
      else if op.kind == "set_recorded"
      then apply_set_recorded op.body t
      else if op.kind == "set_prayed"
      then apply_set_prayed op t
      else if op.kind == "prefs_set"
      then apply_prefs_set op.body t
      else if op.kind == "position_moved"
      then apply_position_moved op.body t
      else if op.kind == "report_written"
      then apply_report op t
      else fail (refusal unknown_kind)

  -- The insert into op_log; `none` if the id was there.
  unfoldable pub record_op : String → Tables → Attempt OpError (Option Tables)
  record_op id t = do
    after ← exec run t 1 (record t { op_log = (user, f.uuid id) ∷ t.op_log })
    done (if contains t.op_log (user, f.uuid id) then none else some after)
