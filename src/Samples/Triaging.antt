-- ===== src/Samples/Triaging.antt =====
-- One report that is held and one in the inbox.
use wird.Prelude.{ℕ, ◌+◌, ◌≡◌, All, Bool, true, List, [], ◌∷◌, map, none, ltb}
use wird.Prelude.Weights.{total}
use wird.Sync.Tables.{Report}
use wird.Sync.Reports.{HeldReport, ReportSql, ReportFilter, sweep_reports}
use wird.Sync.Reports.Triage.{IsUntouched, sweep_reports-total}

abbrev bug : Report
bug = record {
  kind = "bug";
  body = "it stops";
  app_version = "1.2";
  platform = "android";
  screen = "reader";
  corpus_version = 3;
  sense_version = "";
  locale = "en";
  sense_hash = "";
  created_at = 86400000000000;
}

abbrev held : List HeldReport
held =
    record {
      id = "7f";
      sent = bug;
      category = none;
      status = "new";
      issue_url = none;
      verdict_root = none;
    }
    ∷ []

abbrev sql : ReportSql
sql = record { id_leb = λ a b. true; new_id = λ n. "8e"; verdict_of = λ r. none }

abbrev all_new : ReportFilter
all_new = record { status = "new"; exclude_verdicts = true; limit = 1 }

-- A sweep overtakes the first statement.
abbrev overtaken : ℕ → Bool
overtaken n = ltb 0 n

sweep_reports-total_example :
    (news : List HeldReport) × (map (λ (r : HeldReport). r.sent) news ≡ bug ∷ [])
    × All (IsUntouched sql) news
    × ((sweep_reports sql (bug ∷ []) held).0 ≡ [])
    × ((f : HeldReport → ℕ)
        → total f (sweep_reports sql (bug ∷ []) held).1 ≡ total f news + total f held)
sweep_reports-total_example = sweep_reports-total sql (bug ∷ []) held
