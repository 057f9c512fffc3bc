-- ===== src/Sync/Tables.antt =====
-- The ops of server/internal/store/sync.go, their bodies, the tables that they write, and what the
-- code takes from the database, the JSON decoder and the clock. An instant is the number of
-- nanoseconds since Go's zero time, and an id of an aya, a word or a sura is a natural number.
use Prim.Native.String.{String}
use wird.Prelude.{ℕ, Bool, List, Option}

pub record Op : Type 0 where
  pub client_op_id : String
  pub kind : String
  pub body : String

pub data Status : Type 0 where
  applied duplicate refused failed : Status

pub data Key : Type 0 where
  unknown_kind bad_body bad_value not_found conflict retry : Key

-- Without the words for a person.
pub record OpResult : Type 0 where
  pub client_op_id : String
  pub status : Status
  pub key : Option Key

-- An error of the driver: a PgError with its SQLSTATE, in its class of two characters and the three
-- that follow, or any other.
pub data DbError : Type 0 where
  sqlstate : String → String → DbError
  other : DbError

pub data OpError : Type 0 where
  refusal : Key → OpError
  database : DbError → OpError

pub record Kept : Type 0 where
  pub id : String
  pub user : String
  pub kind : String
  pub ayah_id : Option ℕ
  pub root_letters : Option String
  pub body : String
  pub tags : List String
  pub created_at : ℕ
  pub updated_at : ℕ
  pub deleted_at : Option ℕ

pub record Understood : Type 0 where
  pub user : String
  pub ayah_id : ℕ
  pub at : ℕ

pub record SetRow : Type 0 where
  pub id : String
  pub user : String
  pub ordinal : ℕ
  pub start_ayah_id : ℕ
  pub end_ayah_id : ℕ
  pub reading_order : String
  pub created_at : ℕ

pub record Prayer : Type 0 where
  pub id : String
  pub set_id : String
  pub user : String
  pub prayer_name : String
  pub prayed_at : ℕ

pub record Prefs : Type 0 where
  pub user : String
  pub reading_order : String
  pub updated_at : ℕ

pub record Position : Type 0 where
  pub user : String
  pub surah_id : ℕ
  pub word_id : ℕ
  pub updated_at : ℕ

-- What a row of the inbox is written from, and the body of a report.
pub record Report : Type 0 where
  pub kind : String
  pub body : String
  pub app_version : String
  pub platform : String
  pub screen : String
  pub corpus_version : ℕ
  pub sense_version : String
  pub locale : String
  pub sense_hash : String
  pub created_at : ℕ

-- A row of sync_outcomes, for one day.
pub record Outcome : Type 0 where
  pub kind : String
  pub status : Status
  pub ops : ℕ

-- The columns `seq` and the ids that the database mints are left out.
pub record Tables : Type 0 where
  pub op_log : List (String × String)
  pub understood : List Understood
  pub kept : List Kept
  pub sets : List SetRow
  pub prayers : List Prayer
  pub prefs : List Prefs
  pub positions : List Position
  pub inbox : List Report

pub record UnderstoodBody : Type 0 where
  pub ayah_ids : List ℕ
  pub understood_at : ℕ

pub record KeptBody : Type 0 where
  pub id : String
  pub kind : String
  pub ayah_id : Option ℕ
  pub root_letters : Option String
  pub body : String
  pub tags : List String
  pub created_at : ℕ
  pub updated_at : ℕ

pub record DeleteBody : Type 0 where
  pub id : String
  pub deleted_at : ℕ

pub record SetBody : Type 0 where
  pub id : String
  pub start_ayah_id : ℕ
  pub end_ayah_id : ℕ
  pub reading_order : String
  pub created_at : ℕ

pub record PrayedBody : Type 0 where
  pub id : String
  pub set_id : String
  pub start_ayah_id : ℕ
  pub end_ayah_id : ℕ
  pub reading_order : String
  pub prayer_name : String
  pub prayed_at : ℕ

pub record PrefsBody : Type 0 where
  pub reading_order : String
  pub updated_at : ℕ

pub record PositionBody : Type 0 where
  pub surah_id : ℕ
  pub word_id : ℕ
  pub updated_at : ℕ

-- How the libraries read: json.Decoder with DisallowUnknownFields for each kind of body, the uuid
-- that the database reads out of a text, uuid.NewSHA1 in a namespace, fmt.Sprintf of "%s:%d:%d", and the
-- length of a text in bytes.
pub record Formats : Type 0 where
  pub understood_body : String → Option UnderstoodBody
  pub kept_body : String → Option KeptBody
  pub delete_body : String → Option DeleteBody
  pub set_body : String → Option SetBody
  pub prayed_body : String → Option PrayedBody
  pub report_body : String → Option Report
  pub prefs_body : String → Option PrefsBody
  pub position_body : String → Option PositionBody
  pub uuid : String → String
  pub new_sha1 : String → String → String
  pub range_text : String → ℕ → ℕ → String
  pub bytes : String → ℕ

-- One run of an op: the clock, and the errors that the database answers to the beginning of the
-- transaction, to each of its statements in turn, and to the commit, whether a commit that answers with
-- an error has landed all the same, what the transaction sees once an op has failed, given what it saw
-- before, and whether the count of the outcomes reaches it.
pub record Run : Type 0 where
  pub now : ℕ
  pub begin : Option DbError
  pub fails : Tables → ℕ → Option DbError
  pub commit : Option DbError
  pub landed : Bool
  pub partial : Tables → Tables
  pub counted : Bool
