-- ===== src/Reports/Registry.antt =====
-- All reports and their owners (src/ccreport/reports.py): finding, creating and listing them. The tables
-- are lists; a new report gets the session's next id.
pub mod Laws
pub mod Listing
mod Tests
use ccreport.Prelude.{
  ℕ, ◌+◌, Bool, true, false, not, ◌&&◌, ◌||◌, Option, none, some, List, [], ◌∷◌, ◌++◌,
  if◌then◌else◌, ◌==◌, ltb, leb, keep, find, map,
}
use ccreport.Prelude.Texts.{Text, codes, text_eq, normalised}
use ccreport.Errors.{Result, ok, err, report_not_found, insufficient_role, ◌>>=◌, ◌>>◌, raise_if}
use ccreport.Audit.{AuditLog, Subject, audit}
use ccreport.Access.{User, admin, role_eq}
use ccreport.Period.{parse_period, format_period, clamp_period}
use ccreport.Reports.Model.{Report, draft}
use ccreport.Reports.Lifecycle.{is_draft}

pub record Registry : Type 0 where
  pub reports : List Report
  pub log : List AuditLog
  pub next_id : ℕ

unfoldable pub is_report_of : ℕ → ℕ × ℕ → Report → Bool
is_report_of user_id (year, month) r =
    (r.user_id == user_id) && (r.period_year == year) && (r.period_month == month)

unfoldable pub find_report : List Report → ℕ → Text → Result (Option Report)
find_report reports user_id period = do
  month ← parse_period period
  ok (find (is_report_of user_id month) reports)

unfoldable pub get_report : List Report → ℕ → Text → Result Report
get_report reports user_id period = do
  found ← find_report reports user_id period
  elim found [ none ↦ err report_not_found | some r ↦ ok r ]

-- `title or f"Receipts — {period_label(year, month)}"`; the label is an argument
abbrev pub title_or : Text → Option Text → Text
title_or label (some (c ∷ s)) = c ∷ s
title_or label _ = label

unfoldable pub new_report : ℕ → ℕ → ℕ × ℕ → Text → Report
new_report id user_id (year, month) title = record {
  id = id;
  user_id = user_id;
  period_year = year;
  period_month = month;
  title = title;
  status = draft;
  notes = none;
  submitted_at = none;
  items = [];
}

-- the registry with one more report
unfoldable pub add_report : Text → Registry → Report → Registry
add_report upn w r = record w {
  reports = w.reports ++ r ∷ [];
  log = audit (some upn) "report.create" (Subject.report r.id) w.log;
  next_id = w.next_id + 1;
}

unfoldable pub create_report :
    (ℕ × ℕ → Text) → Registry → User → Text → Option Text → ℕ → ℕ × ℕ → Result (Report × Registry)
create_report label w user period title month_window now = do
  month ← clamp_period period month_window now
  existing ← find_report w.reports user.id (format_period month.0 month.1)
  elim existing [
    | some r ↦ ok (r, w)
    | none ↦
        let r = new_report w.next_id user.id month (title_or (label month) title) in
        ok (r, add_report user.upn w r)
  ]

-- `select(User, Report).join(...)`: each report with its owner
unfoldable pub with_owner : List User → Report → List (User × Report)
with_owner users r = map (λ u. (u, r)) (keep (λ u. u.id == r.user_id) users)

unfoldable pub joined : List User → List Report → List (User × Report)
joined users [] = []
joined users (r ∷ reports) = with_owner users r ++ joined users reports

-- `if upn: stmt.where(User.upn == upn.strip().lower())`
unfoldable pub of_upn : Option Text → User × Report → Bool
of_upn (some (c ∷ s)) (u, r) = text_eq u.upn (normalised (c ∷ s))
of_upn _ row = true

unfoldable pub of_month : Option (ℕ × ℕ) → User × Report → Bool
of_month none row = true
of_month (some (year, month)) (u, r) = (r.period_year == year) && (r.period_month == month)

-- `if period: year, month = parse_period(period)`
unfoldable pub chosen_month : Option Text → Result (Option (ℕ × ℕ))
chosen_month (some (c ∷ s)) = do month ← parse_period (c ∷ s); ok (some month)
chosen_month _ = ok none

-- The order of the rows, which is by month and upn, is left out.
unfoldable pub admin_list_reports :
    List User
    → List Report
    → User
    → Option Text
    → Option Text
    → Bool
    → Result (List (User × Report))
admin_list_reports users reports actor upn period include_drafts = do
  raise_if (not (role_eq actor.role admin)) insufficient_role
  month ← chosen_month period
  ok (
      keep (λ row. (include_drafts || not (is_draft row.1)) && of_upn upn row && of_month month row)
        (joined users reports))

-- the order by year and month, the newest first
unfoldable pub is_newer : Report → Report → Bool
is_newer a b =
    ltb b.period_year a.period_year
    || ((a.period_year == b.period_year) && leb b.period_month a.period_month)

unfoldable pub insert_report : Report → List Report → List Report
insert_report r [] = r ∷ []
insert_report r (s ∷ reports) =
    let rest = insert_report r reports in if is_newer r s then r ∷ s ∷ reports else s ∷ rest

unfoldable pub newest_first : List Report → List Report
newest_first [] = []
newest_first (r ∷ reports) = insert_report r (newest_first reports)

unfoldable pub list_reports : List Report → ℕ → List Report
list_reports reports user_id = newest_first (keep (λ r. r.user_id == user_id) reports)
