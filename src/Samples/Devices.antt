-- ===== src/Samples/Devices.antt =====
-- Two readers, a kept item, and the op that one of them sends twice.
use wird.Prelude.{◌≡◌, ◌≢◌, refl, true, none, some, [], ◌∷◌, pair_eq}
use wird.Prelude.Attempt.{done}
use wird.Prelude.Texts.{string_eq}
use wird.Sync.Tables.{Op, applied, duplicate, KeptBody, Kept, Tables, Formats, Run}
use wird.Sync.Kinds.{upsert_kept}
use wird.Sync.Apply.{record_op, apply_kind, apply_kept_upsert}
use wird.Sync.Transaction.{answered, attempt, apply_in_tx, after_record}
use wird.Sync.Batch.{apply}
use wird.Sync.Writes.{Writes}
use wird.Prelude.{false, true}
use wird.Sync.Replay.{applied_once}
use wird.Sync.Isolation.{SameRows, attempt_isolates}

abbrev note : KeptBody
note = record {
  id = "k1";
  kind = "note";
  ayah_id = none;
  root_letters = none;
  body = "patience";
  tags = [];
  created_at = 5;
  updated_at = 7;
}

-- Every body is read as that note.
abbrev formats : Formats
formats = record {
  understood_body = λ s. none;
  kept_body = λ s. some note;
  delete_body = λ s. none;
  set_body = λ s. none;
  prayed_body = λ s. none;
  report_body = λ s. none;
  prefs_body = λ s. none;
  position_body = λ s. none;
  uuid = λ s. s;
  new_sha1 = λ namespace name. name;
  range_text = λ order start last. order;
  bytes = λ s. 0;
}

abbrev calm : Run
calm = record {
  now = 9;
  begin = none;
  fails = λ t n. none;
  commit = none;
  landed = false;
  partial = λ t. t;
  counted = true;
}

abbrev keep_note : Op
keep_note = record { client_op_id = "op1"; kind = "kept_upsert"; body = "" }

abbrev strange : Op
strange = record { client_op_id = "op2"; kind = "wish"; body = "" }

abbrev nothing_yet : Tables
nothing_yet = record {
  op_log = [];
  understood = [];
  kept = [];
  sets = [];
  prayers = [];
  prefs = [];
  positions = [];
  inbox = [];
}

abbrev kept_note : Kept
kept_note = record {
  id = "k1";
  user = "amina";
  kind = "note";
  ayah_id = none;
  root_letters = none;
  body = "patience";
  tags = [];
  created_at = 5;
  updated_at = 7;
  deleted_at = none;
}

abbrev with_note : Tables
with_note = record nothing_yet { op_log = ("amina", "op1") ∷ []; kept = kept_note ∷ [] }

first_send :
    attempt formats calm "amina" keep_note nothing_yet
    ≡ done (with_note, answered keep_note applied none)
unfolding attempt apply_in_tx after_record record_op apply_kind apply_kept_upsert upsert_kept
first_send = refl

second_send :
    attempt formats calm "amina" keep_note with_note
    ≡ done (with_note, answered keep_note duplicate none)
unfolding attempt apply_in_tx after_record record_op
second_send = refl

applied_once_example :
    ((answered keep_note duplicate none).status ≢ applied)
    × (with_note
        ≡ (apply formats "amina" [] (record { tables = with_note; outcomes = [] })).0.tables)
unfolding apply
applied_once_example =
    applied_once formats "amina" keep_note calm calm []
      (record { tables = nothing_yet; outcomes = [] }) with_note (answered keep_note applied none)
      first_send refl with_note (answered keep_note duplicate none) second_send

attempt_isolates_example : SameRows "bilal" nothing_yet with_note
attempt_isolates_example =
    attempt_isolates "bilal" "amina" refl formats calm keep_note nothing_yet with_note
      (answered keep_note applied none) first_send
