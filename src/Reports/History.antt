-- ===== src/Reports/History.antt =====
-- Any sequence of calls that change a draft, and the report once it is frozen
-- (src/ccreport/reports.py).
use ccreport.Prelude.{
  ℕ, ◌≡◌, arith, refl, ap, ◌∙◌, Bool, false, List, [], ◌∷◌, Bool-cases, inl, inr,
}
use ccreport.Prelude.Texts.{Text}
use ccreport.Errors.{ok, err, report_state_error}
use ccreport.Connectors.{MessageHeader}
use ccreport.Reports.Model.{submitted, Report, MailAccount, World}
use ccreport.Reports.Lifecycle.{is_draft, add_item, Reference, justify_item, remove_item}
use ccreport.Reports.Drafts.{IsSound}
use ccreport.Reports.Submission.Steps.{Services}
use ccreport.Reports.Submission.{submit_report, check_ready}
use ccreport.Reports.Frozen.{submit_report_ok}
use ccreport.Reports.Edits.{
  after, require_draft_err, select-IsSound, justify-IsSound, remove-IsSound,
}

-- A call that changes a draft.
pub data Edit : Type 0 where
  select : MailAccount → MessageHeader → ℕ → Edit
  justify : Reference → Text → Edit
  remove : Reference → Edit

unfoldable pub edit : Text → World → Edit → World
edit upn w (select account header now) = after w (add_item upn w account header now)
edit upn w (justify reference text) = after w (justify_item upn w reference text)
edit upn w (remove reference) = after w (remove_item upn w reference)

unfoldable pub edit_all : Text → World → List Edit → World
edit_all upn w [] = w
edit_all upn w (e ∷ edits) = edit_all upn (edit upn w e) edits

-- A report that is no draft refuses every change.
pub frozen :
    (upn : Text) (w : World)
    → is_draft w.report ≡ false
    → ((account : MailAccount) (header : MessageHeader) (now : ℕ)
        → add_item upn w account header now ≡ err report_state_error)
      × ((reference : Reference) (text : Text)
          → justify_item upn w reference text ≡ err report_state_error)
      × ((reference : Reference) → remove_item upn w reference ≡ err report_state_error)
unfolding add_item justify_item remove_item
frozen upn w h = (
  λ account header now. rw (require_draft_err w.report h) refl,
  λ reference text. rw (require_draft_err w.report h) refl,
  λ reference. rw (require_draft_err w.report h) refl,
)

edit-IsSound : (upn : Text) (w : World) (e : Edit) → IsSound w → IsSound (edit upn w e)
unfolding edit
edit-IsSound upn w (select account header now) h = elim (Bool-cases (is_draft w.report)) [
  | inl unlocked ↦ select-IsSound upn w account header now h unlocked
  | inr locked ↦ rw ((frozen upn w locked).0 account header now) h
]
edit-IsSound upn w (justify reference text) h = elim (Bool-cases (is_draft w.report)) [
  | inl unlocked ↦ justify-IsSound upn w reference text h unlocked
  | inr locked ↦ rw ((frozen upn w locked).1 reference text) h
]
edit-IsSound upn w (remove reference) h = elim (Bool-cases (is_draft w.report)) [
  | inl unlocked ↦ remove-IsSound upn w reference h unlocked
  | inr locked ↦ rw ((frozen upn w locked).2 reference) h
]

-- Starting from a sound world, whatever is selected, justified and removed, in whatever order and
-- with calls that fail between, the items stay numbered from 1 in their order, no message is in
-- the report twice, no two items share an id, and the next id stays new.
pub edit_all-IsSound :
    (upn : Text) (w : World) (edits : List Edit) → IsSound w → IsSound (edit_all upn w edits)
unfolding edit_all
edit_all-IsSound upn w [] h = h
edit_all-IsSound upn w (e ∷ edits) h =
    edit_all-IsSound upn (edit upn w e) edits (edit-IsSound upn w e h)

frozen-edit : (upn : Text) (w : World) (e : Edit) → is_draft w.report ≡ false → edit upn w e ≡ w
unfolding edit
frozen-edit upn w (select account header now) h = rw ((frozen upn w h).0 account header now) refl
frozen-edit upn w (justify reference text) h = rw ((frozen upn w h).1 reference text) refl
frozen-edit upn w (remove reference) h = rw ((frozen upn w h).2 reference) refl

frozen-edit_all :
    (upn : Text) (w : World) (edits : List Edit)
    → is_draft w.report ≡ false
    → edit_all upn w edits ≡ w
unfolding edit_all
frozen-edit_all upn w [] h = refl
frozen-edit_all upn w (e ∷ edits) h =
    ap (λ v. edit_all upn v edits) (frozen-edit upn w e h) ∙ frozen-edit_all upn w edits h

submitted-locked : (r : Report) → r.status ≡ submitted → is_draft r ≡ false
submitted-locked r h = ground (arith, h)

module _ (services : Services) where
  submit_report_locked :
      (upn : Text) (strict : Bool) (accounts : List MailAccount) (now : ℕ) (w : World)
      → is_draft w.report ≡ false
      → submit_report services upn strict accounts now w ≡ (w, err report_state_error)
  unfolding submit_report check_ready
  submit_report_locked upn strict accounts now w h =
      let unready : check_ready strict w.report ≡ err report_state_error =
        rw (require_draft_err w.report h, check_ready) refl in
      rw (unready, submit_report) refl

  -- Submission is final. In a sound world, once `submit_report` has returned, whatever is then
  -- selected, justified and removed, in any order and by any person, leaves the whole world as it is,
  -- and submitting after that is refused with the error for a wrong state and changes nothing either.
  pub submit_report_final :
      (upn other : Text) (strict again : Bool) (accounts : List MailAccount) (now later : ℕ)
      (w : World) (edits : List Edit)
      → IsSound w
      → (submit_report services upn strict accounts now w).1 ≡ ok tt
      → let done = (submit_report services upn strict accounts now w).0 in
        (edit_all other done edits ≡ done)
        × (submit_report services other again accounts later (edit_all other done edits)
            ≡ (done, err report_state_error))
  submit_report_final upn other strict again accounts now later w edits h returned =
      let done = (submit_report services upn strict accounts now w).0 in
      let closed : is_draft done.report ≡ false =
        submitted-locked done.report
          (submit_report_ok services upn strict accounts now w h returned).status in
      let unchanged = frozen-edit_all other done edits closed in
      (
        unchanged,
        ap (submit_report services other again accounts later) unchanged
            ∙ submit_report_locked other again accounts later done closed,
      )
