-- ===== src/Reports/Ready.antt =====
-- When `submit_report` (src/ccreport/reports.py) refuses before it changes anything.
use ccreport.Prelude.{
  ℕ, zero, suc, ◌≡◌, refl, ap, ◌∙◌, Bool, true, false, ◌&&◌, List, [], ◌∷◌, arith, any, get_elem?,
  some, Bool-cases, inl, inr, All,
}
use ccreport.Prelude.Texts.{Text, strip}
use ccreport.Errors.{ok, err, report_state_error}
use ccreport.Connectors.{or_empty}
use ccreport.Reports.Model.{ReportItem, Report, MailAccount, World, sorted_items}
use ccreport.Reports.Lifecycle.{is_draft, is_blank}
use ccreport.Reports.Order.{sorted_items-Numbered}
use ccreport.Reports.Lookup.{In}
use ccreport.Reports.Drafts.{IsSound}
use ccreport.Reports.Edits.{require_draft_ok, require_draft_err}
use ccreport.Reports.Submission.Steps.{Services}
use ccreport.Reports.Submission.{submit_report, check_ready, some_unjustified, is_none_left}

-- The item has a justification that is not blank.
abbrev pub IsJustified : ReportItem → Type 0
IsJustified i = is_blank (strip (or_empty i.justification)) ≡ false

any_none :
    (p : ReportItem → Bool) (items : List ReportItem)
    → any p items ≡ false
    → All (λ i. p i ≡ false) items
any_none p [] h = tt
any_none p (i ∷ items) h = elim (Bool-cases (p i)) [
  | inl hit ↦ absurd (ground arith)
  | inr miss ↦ (miss, any_none p items (ground arith))
]

pub IsJustified-of_none :
    (items : List ReportItem) → some_unjustified items ≡ false → All IsJustified items
unfolding some_unjustified
IsJustified-of_none items h = any_none (λ i. is_blank (strip (or_empty i.justification))) items h

pub and_false : (a b : Bool) → a ≡ true → (a && b) ≡ false → b ≡ false
and_false a b h k = ground arith

any_In :
    (p : ReportItem → Bool) (items : List ReportItem) (k : ℕ) {i : ReportItem}
    → get_elem? items k ≡ some i
    → p i ≡ true
    → any p items ≡ true
any_In p [] k e h = cc
any_In p (j ∷ items) zero {i} e h = let same : j ≡ i = cc in rw (ap p same ∙ h) refl
any_In p (j ∷ items) (suc k) {i} e h = ground (arith, any_In p items k {i = i} e h)

check_ready_locked :
    (strict : Bool) (r : Report)
    → is_draft r ≡ false
    → check_ready strict r ≡ err report_state_error
unfolding check_ready
check_ready_locked strict r locked = rw (require_draft_err r locked, check_ready) refl

check_ready_bare :
    (strict : Bool) (r : Report)
    → is_draft r ≡ true
    → is_none_left (sorted_items r.items) ≡ true
    → check_ready strict r ≡ err report_state_error
unfolding check_ready
check_ready_bare strict r unlocked bare = rw (require_draft_ok r unlocked, bare, check_ready) refl

check_ready_missing :
    (strict : Bool) (r : Report)
    → is_draft r ≡ true
    → is_none_left (sorted_items r.items) ≡ false
    → (strict && some_unjustified (sorted_items r.items)) ≡ true
    → check_ready strict r ≡ err report_state_error
unfolding check_ready
check_ready_missing strict r unlocked filled missing =
    rw (require_draft_ok r unlocked, filled, missing, check_ready) refl

pub check_ready_ok :
    (strict : Bool) (r : Report)
    → check_ready strict r ≡ ok tt
    → (is_draft r ≡ true)
      × (is_none_left (sorted_items r.items) ≡ false)
      × ((strict && some_unjustified (sorted_items r.items)) ≡ false)
unfolding check_ready
check_ready_ok strict r h = elim (Bool-cases (is_draft r)) [
  | inr locked ↦ absurd (ground (arith, check_ready_locked strict r locked))
  | inl unlocked ↦ elim (Bool-cases (is_none_left (sorted_items r.items))) [
    | inl bare ↦ absurd (ground (arith, check_ready_bare strict r unlocked bare))
    | inr filled ↦ elim (Bool-cases (strict && some_unjustified (sorted_items r.items))) [
      | inl missing ↦ absurd (ground (arith, check_ready_missing strict r unlocked filled missing))
      | inr complete ↦ (unlocked, filled, complete)
    ]
  ]
]

-- Why a report is not ready: it is no draft, or it has no items, or, where justifications are
-- required, some item has none but space.
pub data Unready (strict : Bool) (r : Report) : Type 0 where
  locked : is_draft r ≡ false → Unready strict r
  bare : r.items ≡ [] → Unready strict r
  unjustified :
      (i : ReportItem)
      → strict ≡ true
      → In i r.items
      → is_blank (strip (or_empty i.justification)) ≡ true
      → Unready strict r

unjustified_In :
    (r : Report) (i : ReportItem)
    → In i r.items
    → is_blank (strip (or_empty i.justification)) ≡ true
    → some_unjustified r.items ≡ true
unfolding some_unjustified
unjustified_In r i place blank = any_In _ r.items place.0 {i = i} place.1 blank

check_ready_refuses :
    (strict : Bool) (w : World)
    → IsSound w
    → Unready strict w.report
    → check_ready strict w.report ≡ err report_state_error
check_ready_refuses strict w h (locked frozen) = check_ready_locked strict w.report frozen
check_ready_refuses strict w h (bare empty) = elim (Bool-cases (is_draft w.report)) [
  | inr frozen ↦ check_ready_locked strict w.report frozen
  | inl unlocked ↦
      check_ready_bare strict w.report unlocked
        (ap is_none_left (sorted_items-Numbered 1 w.report.items h.numbered ∙ empty))
]
check_ready_refuses strict w h (unjustified i on place blank) =
    let sorted = sorted_items-Numbered 1 w.report.items h.numbered in
    let missing : (strict && some_unjustified (sorted_items w.report.items)) ≡ true =
      rw (on, sorted) (unjustified_In w.report i place blank) in
    elim (Bool-cases (is_draft w.report)) [
      | inr frozen ↦ check_ready_locked strict w.report frozen
      | inl unlocked ↦ elim (Bool-cases (is_none_left (sorted_items w.report.items))) [
        | inl empty ↦ check_ready_bare strict w.report unlocked empty
        | inr filled ↦ check_ready_missing strict w.report unlocked filled missing
      ]
    ]

-- In a sound world, a report that is no draft, or has no items, or, where justifications are
-- required, has an item without one, is refused with the error for a wrong state before anything
-- is changed: no row, no file, no entry of the log.
pub submit_report_refused :
    (services : Services) (upn : Text) (strict : Bool) (accounts : List MailAccount) (now : ℕ)
    (w : World)
    → IsSound w
    → Unready strict w.report
    → submit_report services upn strict accounts now w ≡ (w, err report_state_error)
unfolding submit_report
submit_report_refused services upn strict accounts now w h why =
    rw (check_ready_refuses strict w h why, submit_report) refl
