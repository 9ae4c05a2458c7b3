-- ===== src/Reports/Frozen.antt =====
-- What `submit_report` (src/ccreport/reports.py) has done when it returns, and when it raises.
use mathlib.Core.Path.{subst}
use ccreport.Prelude.{
  ℕ, ◌≡◌, refl, sym, ap, ◌∙◌, Bool, true, false, List, [], ◌∷◌, ◌++◌, arith, map, Bool-cases, inl,
  inr, All, All-map,
}
use ccreport.Prelude.Texts.{Text}
use ccreport.Errors.{Error, Result, ok, err, Result-cases}
use ccreport.Connectors.{MailConnector}
use ccreport.Reports.Model.{
  submitted, ReportItem, MailAccount, BlobPath, Artifact, World, sorted_items,
}
use ccreport.Reports.Lifecycle.{is_draft}
use ccreport.Reports.Order.{sorted_items-Numbered}
use ccreport.Reports.Drafts.{IsSound}
use ccreport.Reports.Submission.Steps.{Services}
use ccreport.Reports.Submission.Materialize.{materialize_item}
use ccreport.Reports.Submission.{
  Connectors, connector_for, submit_items, submit_report, finish, freeze, check_ready,
  some_unjustified, is_none_left, is_handled,
}
use ccreport.Reports.Ready.{IsJustified, IsJustified-of_none, and_false, check_ready_ok}
use ccreport.Reports.Progress.{Grows, Grows-refl, Grows-trans, Grows-Stored, but_kind, but_kinds}
use ccreport.Reports.Produced.{SomeStored, Produced, materialize_item_lem}

SomeStored-of_Produced :
    (services : Services) (i : ReportItem) (w : World) (artifacts : List Artifact)
    → Produced services i w artifacts
    → SomeStored i w
SomeStored-of_Produced services i w [] h = absurd h
SomeStored-of_Produced services i w (a ∷ artifacts) h = (a, h.0)

-- A report that was submitted: it was a draft with at least one item, now it is submitted with the
-- same items in the same order, of which only the kinds of artifact may differ; every item was
-- justified if that is required; every item has an artifact whose file lies in the store.
pub record IsFrozen (strict : Bool) (w w' : World) : Type 0 where
  pub was_draft : is_draft w.report ≡ true
  pub filled : is_none_left w.report.items ≡ false
  pub status : w'.report.status ≡ submitted
  pub items : map but_kind w'.report.items ≡ map but_kind w.report.items
  pub justified : strict ≡ true → All IsJustified w.report.items
  pub stored : All (λ i. SomeStored i w') w.report.items

module _ (services : Services) where
  submit_items_next :
      (accounts : List MailAccount) (connectors opened : Connectors) (written : List BlobPath)
      (i : ReportItem) (items : List ReportItem) (w : World) (connector : MailConnector)
      (artifacts : List Artifact)
      → connector_for services accounts connectors i.source_account_id ≡ ok (connector, opened)
      → (materialize_item services i connector w).1 ≡ ok artifacts
      → submit_items services accounts connectors written (i ∷ items) w
        ≡ submit_items services accounts opened
            (written ++ map (λ a. a.blob_path) artifacts)
            items
            (materialize_item services i connector w).0
  unfolding submit_items
  submit_items_next accounts connectors opened written i items w connector artifacts found
        returned =
      rw (found, returned, submit_items) refl

  -- From this world the loop kept what was stored, and if it came to its end, every item has
  -- something stored.
  abbrev Submits : World → List ReportItem → World × List BlobPath × Result (Unit {0}) → Type 0
  Submits w items r = Grows w r.0 × (r.2 ≡ ok tt → All (λ i. SomeStored i r.0) items)

  submit_items_lem :
      (accounts : List MailAccount) (connectors : Connectors) (written : List BlobPath)
      (items : List ReportItem) (w : World)
      → Submits w items (submit_items services accounts connectors written items w)
  unfolding submit_items
  submit_items_lem accounts connectors written [] w = (Grows-refl w, λ e. tt)
  submit_items_lem accounts connectors written (i ∷ items) w =
      elim (Result-cases (connector_for services accounts connectors i.source_account_id)) [
        | inl (e, raised) ↦ rw (raised, submit_items) (Grows-refl w, λ bad. absurd (ground arith))
        | inr ((connector, opened), found) ↦
            let step = materialize_item_lem services i connector w in
            let v = (materialize_item services i connector w).0 in
            elim (Result-cases ((materialize_item services i connector w).1)) [
              | inl (e, raised) ↦
                  rw (found, raised, submit_items) (step.0, λ bad. absurd (ground arith))
              | inr (artifacts, returned) ↦
                  let now_written = written ++ map (λ a. a.blob_path) artifacts in
                  let rest = submit_items_lem accounts opened now_written items v in
                  let first =
                    SomeStored-of_Produced services i v artifacts (step.1 artifacts returned) in
                  subst (Submits w (i ∷ items))
                    (sym (
                      submit_items_next accounts connectors opened written i items w connector
                        artifacts found returned))
                    (
                      Grows-trans w v _ step.0 rest.0,
                      λ fine. (
                        (first.0, (Grows-Stored v _ first.0 rest.0 first.1.0, first.1.1)),
                        rest.1 fine,
                      ),
                    )
            ]
      ]

  submit_report_ready :
      (upn : Text) (strict : Bool) (accounts : List MailAccount) (now : ℕ) (w : World)
      → check_ready strict w.report ≡ ok tt
      → submit_report services upn strict accounts now w
        ≡ finish services upn now
            (submit_items services accounts [] [] (sorted_items w.report.items) w)
  unfolding submit_report
  submit_report_ready upn strict accounts now w h = rw (h, submit_report) refl

  submit_report_unready :
      (upn : Text) (strict : Bool) (accounts : List MailAccount) (now : ℕ) (w : World) (e : Error)
      → check_ready strict w.report ≡ err e
      → submit_report services upn strict accounts now w ≡ (w, err e)
  unfolding submit_report
  submit_report_unready upn strict accounts now w e h = rw (h, submit_report) refl

  finish_ok :
      (upn : Text) (now : ℕ) (w : World) (written : List BlobPath) (r : Result (Unit {0}))
      → (finish services upn now (w, written, r)).1 ≡ ok tt
      → (r ≡ ok tt) × ((finish services upn now (w, written, r)).0 ≡ freeze services upn now w)
  unfolding finish
  finish_ok upn now w written (err e) h = absurd (ground arith)
  finish_ok upn now w written (ok done) h = (refl, refl)

  finish_err :
      (upn : Text) (now : ℕ) (w : World) (written : List BlobPath) (r : Result (Unit {0}))
      (e : Error)
      → (finish services upn now (w, written, r)).1 ≡ err e
      → (finish services upn now (w, written, r)).0.report ≡ w.report
  unfolding finish
  finish_err upn now w written (err f) e h = elim (Bool-cases (is_handled services f)) [
    | inl caught ↦ rw caught refl
    | inr passed ↦ rw passed refl
  ]
  finish_err upn now w written (ok done) e h = absurd (ground arith)

  freeze-SomeStored :
      (upn : Text) (now : ℕ) (w : World) (items : List ReportItem)
      → All (λ i. SomeStored i w) items
      → All (λ i. SomeStored i (freeze services upn now w)) items
  unfolding freeze
  freeze-SomeStored upn now w items h =
      All-map _ _
        (λ i s. (s.0, (record { row = s.1.0.row; old = s.1.0.old; file = s.1.0.file }, s.1.1)))
        items h

  freeze-IsFrozen :
      (upn : Text) (strict : Bool) (now : ℕ) (v w : World)
      → IsSound w
      → check_ready strict w.report ≡ ok tt
      → Grows w v
      → All (λ i. SomeStored i v) (sorted_items w.report.items)
      → IsFrozen strict w (freeze services upn now v)
  freeze-IsFrozen upn strict now v w h ready g s =
      let sorted = sorted_items-Numbered 1 w.report.items h.numbered in
      let checked = check_ready_ok strict w.report ready in
      record {
        was_draft = checked.0;
        filled = rw (sym sorted) checked.1;
        status = unfold freeze in refl;
        items = unfold freeze in ap (λ r. r.items) g.report;
        justified = λ on. IsJustified-of_none w.report.items (
            subst (λ items. some_unjustified items ≡ false) sorted
              (and_false strict _ on checked.2));
        stored =
            freeze-SomeStored upn now v w.report.items
              (subst (λ items. All (λ i. SomeStored i v) items) sorted s);
      }

  -- In a sound world (items numbered from 1, no message and no id twice, the next id new): if
  -- `submit_report` returns, the report was a draft with at least one item, now it is submitted
  -- with the same items in the same order, of which only the kinds of artifact may differ, every
  -- item was justified if that is required, and every item has an artifact whose file lies in the
  -- store with the size that its row says.
  pub submit_report_ok :
      (upn : Text) (strict : Bool) (accounts : List MailAccount) (now : ℕ) (w : World)
      → IsSound w
      → (submit_report services upn strict accounts now w).1 ≡ ok tt
      → IsFrozen strict w (submit_report services upn strict accounts now w).0
  submit_report_ok upn strict accounts now w h returned =
      elim (Result-cases (check_ready strict w.report)) [
        | inl (e, unready) ↦
            let raised =
              ap (λ t. t.1) (submit_report_unready upn strict accounts now w e unready) in
            absurd (ground (arith, raised, returned))
        | inr (done, ready) ↦
            let run = submit_items services accounts [] [] (sorted_items w.report.items) w in
            let kept = submit_items_lem accounts [] [] (sorted_items w.report.items) w in
            let whole = submit_report_ready upn strict accounts now w ready in
            let ended =
              finish_ok upn now run.0 run.1 run.2 (sym (ap (λ t. t.1) whole) ∙ returned) in
            subst (IsFrozen strict w) (sym (ap (λ t. t.0) whole ∙ ended.1))
              (freeze-IsFrozen upn strict now run.0 w h ready kept.0 (kept.1 ended.0))
      ]

  -- If `submit_report` raises, the report is as it was in every column, but for the kinds of its items'
  -- artifacts: a draft stays a draft.
  pub submit_report_err :
      (upn : Text) (strict : Bool) (accounts : List MailAccount) (now : ℕ) (w : World) (e : Error)
      → (submit_report services upn strict accounts now w).1 ≡ err e
      → but_kinds (submit_report services upn strict accounts now w).0.report ≡ but_kinds w.report
  submit_report_err upn strict accounts now w e raised =
      elim (Result-cases (check_ready strict w.report)) [
        | inl (f, unready) ↦ rw (submit_report_unready upn strict accounts now w f unready) refl
        | inr (done, ready) ↦
            let run = submit_items services accounts [] [] (sorted_items w.report.items) w in
            let kept = (submit_items_lem accounts [] [] (sorted_items w.report.items) w).0 in
            let whole = submit_report_ready upn strict accounts now w ready in
            let left =
              finish_err upn now run.0 run.1 run.2 e (sym (ap (λ t. t.1) whole) ∙ raised) in
            ap (λ t. but_kinds t.0.report) whole ∙ ap but_kinds left ∙ kept.report
      ]
