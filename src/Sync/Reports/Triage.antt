-- ===== src/Sync/Reports/Triage.antt =====
-- A sweep loses no report, a list is cut where it says, and a triage survives a sweep.
use Prim.Native.String.{String}
use wird.Prelude.{
  ◌≡◌, refl, sym, ap, ◌∙◌, ℕ, suc, ◌+◌, Bool, true, false, Bool-cases, inl, inr, arith, All, ◌∷◌,
  List, [], ◌++◌, map, Option, none, length, take, keep, ltb, length-take, take_all, take-take,
  not-ltb→le,
}
use wird.Prelude.Attempt.{Attempt, done, fail}
use wird.Prelude.Sort.{sort, length-sort}
use wird.Prelude.Weights.{total, total-append, total-sort}
use wird.Sync.Tables.{DbError, Report}
use wird.Sync.Reports.{
  HeldReport, ReportSql, arrivals, by_id, sweep_reports, ReportFilter, matches, newest_first,
  capped, cut_short, reports, TriageError, report_not_found, triaged,
}

-- A report that no operator has seen: it awaits triage, with no issue, and says what root it is a
-- verdict on.
pub record IsUntouched (sql : ReportSql) (r : HeldReport) : Type 0 where
  pub uncategorised : r.category ≡ none
  pub waiting : r.status ≡ "new"
  pub no_issue : r.issue_url ≡ none
  pub root_judged : r.verdict_root ≡ sql.verdict_of r.sent

arrivals-sent :
    (sql : ReportSql) (n : ℕ) (inbox : List Report)
    → map (λ (r : HeldReport). r.sent) (arrivals sql n inbox) ≡ inbox
arrivals-sent sql n [] = refl
arrivals-sent sql n (r ∷ inbox) = ap (λ l. r ∷ l) (arrivals-sent sql (suc n) inbox)

arrivals-IsUntouched :
    (sql : ReportSql) (n : ℕ) (inbox : List Report) → All (IsUntouched sql) (arrivals sql n inbox)
arrivals-IsUntouched sql n [] = tt
arrivals-IsUntouched sql n (r ∷ inbox) = (
  record { uncategorised = refl; waiting = refl; no_issue = refl; root_judged = refl },
  arrivals-IsUntouched sql (suc n) inbox,
)

-- A sweep empties the inbox, and there are as many reports of any kind after it as there were, and
-- among new ones: these are the reports of the inbox, in its order, none with a category or an issue,
-- each of status "new" and with the root that it is a verdict on.
pub sweep_reports-total :
    (sql : ReportSql) (inbox : List Report) (held : List HeldReport)
    → (news : List HeldReport) × (map (λ (r : HeldReport). r.sent) news ≡ inbox)
      × All (IsUntouched sql) news
      × ((sweep_reports sql inbox held).0 ≡ [])
      × ((f : HeldReport → ℕ)
          → total f (sweep_reports sql inbox held).1 ≡ total f news + total f held)
unfolding sweep_reports
sweep_reports-total sql inbox held = (
  arrivals sql 0 inbox,
  arrivals-sent sql 0 inbox,
  arrivals-IsUntouched sql 0 inbox,
  refl,
  λ f.
      total-sort f (by_id sql) (arrivals sql 0 inbox ++ held)
      ∙ total-append f (arrivals sql 0 inbox) held,
)

module _ (id category status issue_url : String) (raced : ℕ → Bool) (fails : ℕ → Option DbError)
    (held : List HeldReport) where
  abbrev landed : List HeldReport × Attempt TriageError (Unit {0})
  landed = (map (triaged id category status issue_url) held, done tt)

  abbrev not_found : List HeldReport × Attempt TriageError (Unit {0})
  not_found = (held, fail report_not_found)

cut_short_exact :
    (n : ℕ) (xs : List HeldReport) → cut_short n (take (suc n) xs) ≡ (take n xs, ltb n (length xs))
cut_short_exact n xs = elim (Bool-cases (ltb n (length xs))) [
  | inl more ↦
      let longer : ltb n (length (take (suc n) xs)) ≡ true =
        ground (arith, more, length-take (suc n) xs) in
      rw (longer, more) (ap (λ l. (l, true)) (take-take n xs))
  | inr all ↦
      let whole : take (suc n) xs ≡ xs =
        take_all (suc n) xs (omega (arith, not-ltb→le n (length xs) all)) in
      rw (whole, all) (ap (λ l. (l, false)) (sym (take_all n xs (not-ltb→le n (length xs) all))))
]

-- What Reports lists is the start of all the reports that match, the newest first, as many as the
-- limit, and it says that there are more exactly if there are.
pub reports_exact :
    (sql : ReportSql) (held : List HeldReport) (f : ReportFilter)
    → reports sql held f ≡ (
      take (capped f.limit) (sort (newest_first sql) (keep (matches f) held)),
      ltb (capped f.limit) (length (keep (matches f) held)),
    )
unfolding reports
reports_exact sql held f =
    let all = sort (newest_first sql) (keep (matches f) held) in
    cut_short_exact (capped f.limit) all
    ∙ ap (λ n. (take (capped f.limit) all, ltb (capped f.limit) n))
        (length-sort (newest_first sql) (keep (matches f) held))
