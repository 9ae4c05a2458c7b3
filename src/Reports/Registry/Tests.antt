-- ===== src/Reports/Registry/Tests.antt =====
-- Runs of the registry, and each theorem at a concrete input.
use ccreport.Prelude.{ℕ, ◌≡◌, refl, true, false, Option, none, some, [], ◌∷◌, All}
use ccreport.Prelude.Texts.{
  Text, codes, lower, lower_code, strip, lstrip, rstrip, push_unless_blank, is_space,
}
use ccreport.Errors.{ok, err, insufficient_role}
use ccreport.Access.{User, faculty, admin, role_eq}
use ccreport.Period.{
  is_digit, match_period, check_month, parse_period, decimal_from, decimal, zero_padded,
  format_period, previous_month, periods_from, available_periods, clamp_period,
}
use ccreport.Reports.Model.{Report, draft, submitted}
use ccreport.Reports.Registry.{
  is_newer, insert_report, newest_first, list_reports, Registry, is_report_of, find_report,
  new_report, add_report, create_report, with_owner, joined, of_upn, of_month, chosen_month,
  admin_list_reports,
}
use ccreport.Reports.Registry.Listing.{IsShown, admin_list_reports_lem}

program : Unit {0}
unfolding lower lower_code strip lstrip rstrip push_unless_blank is_space is_digit match_period
    check_month parse_period decimal_from decimal zero_padded format_period previous_month
    periods_from available_periods clamp_period role_eq is_report_of find_report new_report
    add_report create_report with_owner joined of_upn of_month chosen_month admin_list_reports
    is_newer insert_report newest_first list_reports
program = tt

abbrev ada : User
ada = record { id = 5; upn = codes "ada"; display_name = none; role = faculty; last_seen_at = none }

abbrev boss : User
boss = record { id = 6; upn = codes "boss"; display_name = none; role = admin; last_seen_at = none }

abbrev july : Report
july = record {
  id = 1;
  user_id = 5;
  period_year = 2026;
  period_month = 7;
  title = codes "July";
  status = submitted;
  notes = none;
  submitted_at = some 9;
  items = [];
}

abbrev june : Report
june = record july { id = 2; period_month = 6; status = draft }

abbrev registry : Registry
registry = record { reports = july ∷ []; log = []; next_id = 2 }

abbrev label : ℕ × ℕ → Text
label month = codes "Receipts"

refuses_faculty :
    admin_list_reports (ada ∷ []) (july ∷ []) ada none none false ≡ err insufficient_role
unfolding program
refuses_faculty = refl

admin_list_reports_lem_example :
    (role_eq boss.role admin ≡ true)
    × (month : Option (ℕ × ℕ)) × (chosen_month (some (codes "2026-07")) ≡ ok month)
    × All (IsShown (some (codes "ADA")) month false) ((ada, july) ∷ [])
unfolding program
admin_list_reports_lem_example =
    admin_list_reports_lem (boss ∷ ada ∷ []) (june ∷ july ∷ []) boss (some (codes "ADA"))
      (some (codes "2026-07")) false ((ada, july) ∷ []) refl

lists_newest_first : list_reports (june ∷ july ∷ []) 5 ≡ july ∷ june ∷ []
unfolding program
lists_newest_first = refl
