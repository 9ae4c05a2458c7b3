-- ===== src/Reports/Registry/Laws.antt =====
-- What finding, creating and listing reports gives (src/ccreport/reports.py).
use ccreport.Prelude.{ℕ, ◌≡◌, false, Option, none, some, List, [], ◌∷◌, All}
use ccreport.Prelude.Texts.{Text}
use ccreport.Access.{User}
use ccreport.Reports.Model.{Report}
use ccreport.Reports.Registry.{Registry, is_report_of, new_report, add_report, title_or}

-- No two reports are of the same person and month.
abbrev pub OneEach : List Report → Type 0
OneEach [] = Unit
OneEach (r ∷ reports) =
    All (λ s. is_report_of r.user_id (r.period_year, r.period_month) s ≡ false) reports
    × OneEach reports

-- what `create_report` returns for a month that is allowed
created :
    (label : ℕ × ℕ → Text) (w : Registry) (user : User) (title : Option Text) (month : ℕ × ℕ)
    → Option Report
    → Report × Registry
created label w user title month (some r) = (r, w)
created label w user title month none =
    let r = new_report w.next_id user.id month (title_or (label month) title) in
    (r, add_report user.upn w r)
