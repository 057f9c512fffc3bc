-- ===== src/Sync/Reports.antt =====
-- The reports that readers send: SweepReports of server/internal/store/sync.go, and Reports and
-- TriageReport of server/internal/store/admin.go.
pub mod Triage
use Prim.Native.String.{String}
use Prim.Native.Nat.{min}
use wird.Prelude.{
  ℕ, zero, suc, ◌+◌, ◌/◌, Bool, true, false, not, ◌&&◌, ◌||◌, List, [], ◌∷◌, ◌++◌, map, Option,
  none, some, length, take, keep, any, ltb, nat_beq, ◌==◌, if◌then◌else◌,
}
use wird.Prelude.Texts.{string_eq}
use wird.Prelude.Attempt.{Attempt, done, fail}
use wird.Prelude.Sort.{sort}
use wird.Sync.Tables.{DbError, Report}

-- A row of `reports`. The instant of `sent` counts as its day: the column is a date.
pub record HeldReport : Type 0 where
  pub id : String
  pub sent : Report
  pub category : Option String
  pub status : String
  pub issue_url : Option String
  pub verdict_root : Option String

-- What the database gives: the order of ids, the ids that it mints, and the root that a report is a
-- verdict on, among the roots served now.
pub record ReportSql : Type 0 where
  pub id_leb : String → String → Bool
  pub new_id : ℕ → String
  pub verdict_of : Report → Option String

module _ (sql : ReportSql) where
  abbrev pub arrived : ℕ → Report → HeldReport
  arrived n r = record {
    id = sql.new_id n;
    sent = r;
    category = none;
    status = "new";
    issue_url = none;
    verdict_root = sql.verdict_of r;
  }

  abbrev pub arrivals : ℕ → List Report → List HeldReport
  arrivals n [] = []
  arrivals n (r ∷ inbox) = arrived n r ∷ arrivals (suc n) inbox

  abbrev pub by_id : HeldReport → HeldReport → Bool
  by_id a b = sql.id_leb a.id b.id

  -- The inbox and the reports, after the one statement of a sweep.
  unfoldable pub sweep_reports : List Report → List HeldReport → List Report × List HeldReport
  sweep_reports inbox held = ([], sort by_id (arrivals 0 inbox ++ held))

pub record ReportFilter : Type 0 where
  pub status : String
  pub exclude_verdicts : Bool
  pub limit : ℕ

abbrev pub report_page : ℕ
report_page = 200

abbrev pub report_export : ℕ
report_export = 5000

abbrev pub is_verdict : Option String → Bool
is_verdict none = false
is_verdict (some root) = true

-- WHERE
unfoldable pub matches : ReportFilter → HeldReport → Bool
matches f r =
    ((f.status == "") || (r.status == f.status))
    && not (f.exclude_verdicts && is_verdict r.verdict_root)

-- The day of an instant in nanoseconds.
abbrev pub written_on : HeldReport → ℕ
written_on r = r.sent.created_at / 86400000000000

-- ORDER BY written_on DESC, id
unfoldable pub newest_first : ReportSql → HeldReport → HeldReport → Bool
newest_first sql a b =
    ltb (written_on b) (written_on a)
    || (nat_beq (written_on a) (written_on b) && sql.id_leb a.id b.id)

abbrev pub capped : ℕ → ℕ
capped limit = min (if nat_beq limit 0 then report_page else limit) report_export

-- One row past the limit tells a full page from one that is cut short.
abbrev pub cut_short : ℕ → List HeldReport → List HeldReport × Bool
cut_short limit out = if ltb limit (length out) then (take limit out, true) else (out, false)

-- Reports, where the query does not fail.
unfoldable pub reports : ReportSql → List HeldReport → ReportFilter → List HeldReport × Bool
reports sql held f =
    cut_short (capped f.limit)
      (take (suc (capped f.limit)) (sort (newest_first sql) (keep (matches f) held)))

pub data TriageError : Type 0 where
  report_not_found : TriageError
  triage_failed : DbError → TriageError

-- nullif(x, '')
abbrev pub null_if_empty : String → Option String
null_if_empty s = if s == "" then none else some s

abbrev pub has_report : String → List HeldReport → Bool
has_report id held = any (λ (r : HeldReport). r.id == id) held

module _ (id category status issue_url : String) where
  abbrev pub triaged : HeldReport → HeldReport
  triaged r =
      if r.id == id
      then record r {
        category = null_if_empty category;
        status = status;
        issue_url = null_if_empty issue_url;
      }
      else r

  -- The loop of TriageReport, over the statements that are left. `raced n` says that the statement
  -- queued behind a sweep, and so finds no row; `fails n` is its error.
  unfoldable pub triage_loop :
      (ℕ → Bool)
      → (ℕ → Option DbError)
      → ℕ
      → List HeldReport
      → List HeldReport × Attempt TriageError (Unit {0})
  triage_loop raced fails zero held = (held, fail report_not_found)
  triage_loop raced fails (suc n) held =
      let rest = triage_loop raced fails n held in
      elim (fails n) [
        | some e ↦ (held, fail (triage_failed e))
        | none ↦ if raced n || not (has_report id held) then rest else (map triaged held, done tt)
      ]

  unfoldable pub triage_report :
      (ℕ → Bool)
      → (ℕ → Option DbError)
      → List HeldReport
      → List HeldReport × Attempt TriageError (Unit {0})
  triage_report raced fails held = triage_loop raced fails 2 held
