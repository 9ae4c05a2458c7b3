-- ===== src/Reports/Registry/Listing.antt =====
-- What `admin_list_reports` (src/ccreport/reports.py) shows, and to whom.
use mathlib.Core.Path.{subst}
use ccreport.Prelude.{
  ℕ, ◌≡◌, refl, sym, ◌∙◌, Bool, true, false, not, ◌&&◌, ◌||◌, Option, List, [], ◌∷◌, ◌++◌, arith,
  ◌==◌, ==_iff, keep, keep-All, map, All, All-map, All-keep, Bool-cases, inl, inr,
}
use ccreport.Prelude.Texts.{Text}
use ccreport.Errors.{Result-cases, ok, err, insufficient_role}
use ccreport.Access.{User, admin, role_eq}
use ccreport.Reports.Model.{Report}
use ccreport.Reports.Lifecycle.{is_draft}
use ccreport.Reports.Registry.{
  with_owner, joined, of_upn, of_month, chosen_month, admin_list_reports,
}

abbrev Row : Type 0
Row = User × Report

abbrev IsOwned : Row → Type 0
IsOwned row = row.0.id ≡ row.1.user_id

IsOwned-pairs :
    (r : Report) (users : List User)
    → All (λ u. (u.id == r.user_id) ≡ true) users
    → All IsOwned (map (λ u. (u, r)) users)
IsOwned-pairs r [] h = tt
IsOwned-pairs r (u ∷ users) h = ((==_iff u.id r.user_id).0 h.0, IsOwned-pairs r users h.1)

append-All : (xs ys : List Row) → All IsOwned xs → All IsOwned ys → All IsOwned (xs ++ ys)
append-All [] ys h k = k
append-All (x ∷ xs) ys h k = (h.0, append-All xs ys h.1 k)

joined-All : (users : List User) (reports : List Report) → All IsOwned (joined users reports)
unfolding joined with_owner
joined-All users [] = tt
joined-All users (r ∷ reports) =
    append-All (with_owner users r) (joined users reports)
      (IsOwned-pairs r (keep (λ u. u.id == r.user_id) users)
        (keep-All (λ u. u.id == r.user_id) users))
      (joined-All users reports)

All-both :
    (P Q : Row → Type 0) (rows : List Row)
    → All P rows
    → All Q rows
    → All (λ row. P row × Q row) rows
All-both P Q [] h k = tt
All-both P Q (row ∷ rows) h k = ((h.0, k.0), All-both P Q rows h.1 k.1)

-- A row that may be shown: a report with its owner, submitted unless drafts are asked for, of the
-- person and of the month that are asked for.
pub record IsShown (upn : Option Text) (month : Option (ℕ × ℕ)) (include_drafts : Bool) (row : Row)
    : Type 0 where
  pub owner : row.0.id ≡ row.1.user_id
  pub submitted : include_drafts ≡ false → is_draft row.1 ≡ false
  pub person : of_upn upn row ≡ true
  pub time : of_month month row ≡ true

shown :
    (upn : Option Text) (month : Option (ℕ × ℕ)) (include_drafts : Bool) (row : Row)
    → IsOwned row
      × (((include_drafts || not (is_draft row.1)) && of_upn upn row && of_month month row) ≡ true)
    → IsShown upn month include_drafts row
shown upn month include_drafts row h = record {
  owner = h.0;
  submitted = λ off. ground arith;
  person = ground arith;
  time = ground arith;
}

-- Only an administrator gets a list of reports; unless drafts are asked for, nobody's draft is in it;
-- every report stands beside its owner, and only those of the person and month asked for are there.
pub admin_list_reports_lem :
    (users : List User) (reports : List Report) (actor : User) (upn period : Option Text)
    (include_drafts : Bool) (rows : List (User × Report))
    → admin_list_reports users reports actor upn period include_drafts ≡ ok rows
    → (role_eq actor.role admin ≡ true)
      × (month : Option (ℕ × ℕ)) × (chosen_month period ≡ ok month)
      × All (IsShown upn month include_drafts) rows
unfolding admin_list_reports
admin_list_reports_lem users reports actor upn period include_drafts rows h =
    elim (Bool-cases (role_eq actor.role admin)) [
      | inr plain ↦
          let refused : admin_list_reports users reports actor upn period include_drafts
              ≡ err insufficient_role =
            rw (plain, admin_list_reports) refl in
          absurd (ground (arith, refused, h))
      | inl allowed ↦ elim (Result-cases (chosen_month period)) [
        | inl (e, raised) ↦
            let refused : admin_list_reports users reports actor upn period include_drafts ≡ err e =
              rw (allowed, raised, admin_list_reports) refl in
            absurd (ground (arith, refused, h))
        | inr (month, chosen) ↦
            let test : Row → Bool = λ row.
              (include_drafts || not (is_draft row.1)) && of_upn upn row && of_month month row in
            let all = joined users reports in
            let given : admin_list_reports users reports actor upn period include_drafts
                ≡ ok (keep test all) =
              rw (allowed, chosen, admin_list_reports) refl in
            let both : ok (keep test all) ≡ ok rows = sym given ∙ h in
            let same : keep test all ≡ rows = cc in
            let fits =
              All-both IsOwned (λ row. test row ≡ true) (keep test all)
                (All-keep IsOwned test all (joined-All users reports)) (keep-All test all) in
            (
              allowed,
              month,
              chosen,
              subst (All (IsShown upn month include_drafts)) same
                  (All-map _ _ (shown upn month include_drafts) (keep test all) fits),
            )
      ]
    ]
