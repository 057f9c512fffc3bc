-- ===== src/Sync/Kinds.antt =====
-- The kinds of op of server/internal/store/sync.go: what each checks, and the rows that it writes.
use Prim.Native.String.{String}
use wird.Prelude.{
  ℕ, ◌+◌, ◌/◌, ◌%◌, Bool, not, ◌&&◌, List, [], ◌∷◌, ◌++◌, Option, none, some, ◌==◌, nat_eq, nat_beq,
  ltb, leb, any, contains, if◌then◌else◌,
}
use wird.Prelude.Attempt.{Attempt, done, fail}
use wird.Prelude.Texts.{string_eq}
use wird.Sync.Tables.{
  OpError, bad_body, bad_value, refusal, Understood, Kept, KeptBody, SetRow, SetBody, Prayer, Prefs,
  Position, Report, Formats,
}

unfoldable pub is_aya : ℕ → Bool
is_aya id = leb 1 (id / 1000) && leb (id / 1000) 114 && leb 1 (id % 1000)

abbrev pub reading_orders : List String
reading_orders = "mushaf" ∷ "nuzul" ∷ []

unfoldable pub check_reading_order : String → Attempt OpError (Unit {0})
check_reading_order order =
    if not (contains reading_orders order) then fail (refusal bad_value) else done tt

abbrev pub decoded : {A : Type 0} → Option A → Attempt OpError A
decoded none = fail (refusal bad_body)
decoded (some b) = done b

-- clockSkew, five minutes
abbrev pub clock_skew : ℕ
clock_skew = 300000000000

-- INSERT INTO ayah_understood ... ON CONFLICT (user_id, ayah_id) DO NOTHING
unfoldable pub understand : String → ℕ → List ℕ → List Understood → List Understood
understand user at [] rows = rows
understand user at (id ∷ ids) rows = understand user at ids (
    if any (λ r. (r.user == user) && (r.ayah_id == id)) rows
    then rows
    else rows ++ record { user = user; ayah_id = id; at = at } ∷ [])

abbrev pub set_namespace : String
set_namespace = "302f8902-5d26-53eb-bfc6-b45ac9fff0c5"

unfoldable pub derive_set_id : Formats → String → ℕ → ℕ → String
derive_set_id f reading_order start_ayah_id end_ayah_id =
    f.new_sha1 set_namespace (f.range_text reading_order start_ayah_id end_ayah_id)

-- The update of the conflict clause, last write wins.
abbrev pub rewritten : KeptBody → Kept → Kept
rewritten b k = record k {
  kind = b.kind;
  ayah_id = b.ayah_id;
  root_letters = b.root_letters;
  body = b.body;
  tags = b.tags;
  updated_at = b.updated_at;
}

-- INSERT INTO kept_items ... ON CONFLICT (id) DO UPDATE
unfoldable pub upsert_kept : String → String → KeptBody → List Kept → List Kept
upsert_kept user id b [] =
    record {
      id = id;
      user = user;
      kind = b.kind;
      ayah_id = b.ayah_id;
      root_letters = b.root_letters;
      body = b.body;
      tags = b.tags;
      created_at = b.created_at;
      updated_at = b.updated_at;
      deleted_at = none;
    }
    ∷ []
upsert_kept user id b (k ∷ rows) =
    let rest = upsert_kept user id b rows in
    if k.id == id
    then (if (k.user == user) && ltb k.updated_at b.updated_at then rewritten b k else k) ∷ rows
    else k ∷ rest

abbrev pub coalesce : Option ℕ → ℕ → Option ℕ
coalesce none at = some at
coalesce (some d) at = some d

abbrev pub with_tombstone : ℕ → Kept → Kept
with_tombstone at k = record k {
  deleted_at = coalesce k.deleted_at at;
  updated_at = if ltb k.updated_at at then at else k.updated_at;
}

-- UPDATE kept_items SET deleted_at ... WHERE id = $2 AND user_id = $1
unfoldable pub bury_kept : String → String → ℕ → List Kept → List Kept
bury_kept user id at [] = []
bury_kept user id at (k ∷ rows) =
    (if (k.id == id) && (k.user == user) then with_tombstone at k else k)
    ∷ bury_kept user id at rows

-- COALESCE(MAX(ordinal), 0) over the sets of a reader
unfoldable pub last_ordinal : String → List SetRow → ℕ
last_ordinal user [] = 0
last_ordinal user (s ∷ rows) =
    let rest = last_ordinal user rows in
    if (s.user == user) && ltb rest s.ordinal then s.ordinal else rest

-- INSERT INTO sets ... ON CONFLICT (user_id, id) DO NOTHING
unfoldable pub insert_set : String → SetBody → List SetRow → List SetRow
insert_set user b rows =
    if any (λ s. (s.user == user) && (s.id == b.id)) rows
    then rows
    else rows
      ++ record {
        id = b.id;
        user = user;
        ordinal = last_ordinal user rows + 1;
        start_ayah_id = b.start_ayah_id;
        end_ayah_id = b.end_ayah_id;
        reading_order = b.reading_order;
        created_at = b.created_at;
      }
        ∷ []

-- INSERT INTO set_prayers ... ON CONFLICT (id) DO NOTHING
unfoldable pub insert_prayer : Prayer → List Prayer → List Prayer
insert_prayer p rows = if any (λ q. q.id == p.id) rows then rows else rows ++ p ∷ []

-- INSERT INTO user_prefs ... ON CONFLICT (user_id) DO UPDATE
unfoldable pub upsert_prefs : Prefs → List Prefs → List Prefs
upsert_prefs p [] = p ∷ []
upsert_prefs p (q ∷ rows) =
    let rest = upsert_prefs p rows in
    if q.user == p.user then (if ltb q.updated_at p.updated_at then p else q) ∷ rows else q ∷ rest

-- INSERT INTO reading_positions ... ON CONFLICT (user_id, surah_id) DO UPDATE
unfoldable pub upsert_position : Position → List Position → List Position
upsert_position p [] = p ∷ []
upsert_position p (q ∷ rows) =
    let rest = upsert_position p rows in
    if (q.user == p.user) && (q.surah_id == p.surah_id)
    then (if ltb q.updated_at p.updated_at then p else q) ∷ rows
    else q ∷ rest

-- What a report says that is not one of the server's own words is blanked.
unfoldable pub blanked : Formats → ℕ → Report → Report
blanked f now b = record b {
  created_at = if nat_beq b.created_at 0 then now else b.created_at;
  sense_version = if ltb 64 (f.bytes b.sense_version) then "" else b.sense_version;
  locale = if not (b.locale == "en") && not (b.locale == "fr") then "" else b.locale;
  sense_hash = if ltb 64 (f.bytes b.sense_hash) then "" else b.sense_hash;
}
