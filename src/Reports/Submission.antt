-- ===== src/Reports/Submission.antt =====
-- Submitting a report (src/ccreport/reports.py): every selected message becomes stored files, then
-- the report is frozen.
pub mod Steps
pub mod Materialize
use native.Mathlib.Decide.{ℕ_discrete}
use ccreport.Prelude.{
  ℕ, Bool, true, false, not, ◌&&◌, ◌||◌, Option, none, some, List, [], ◌∷◌, ◌++◌, if◌then◌else◌,
  ◌==◌, length, find, any, map, is_some,
}
use ccreport.Prelude.Texts.{Text, strip}
use ccreport.OrderedDict.{lookup, assign, delete}
use ccreport.Errors.{
  Error, Result, ok, err, report_state_error, is_ccreport_error, is_value_error, ◌>>=◌, ◌>>◌,
  raise_if,
}
use ccreport.Audit.{Subject, audit}
use ccreport.Connectors.{MailConnector, or_empty}
use ccreport.Render.{Content}
use ccreport.Reports.Model.{
  Status, submitted, ReportItem, Report, MailAccount, BlobPath, Artifact, World, sorted_items,
}
use ccreport.Reports.Lifecycle.{require_draft, is_blank}
use ccreport.Reports.Submission.Steps.{Services, BlobPath-discrete}
use ccreport.Reports.Submission.Materialize.{materialize_item}

-- `connectors`: the mailboxes that are open, by the account's id
abbrev pub Connectors : Type 0
Connectors = List (ℕ × MailConnector)

-- `[i.position for i in items if not (i.justification or "").strip()]` has an entry
unfoldable pub some_unjustified : List ReportItem → Bool
some_unjustified items = any (λ i. is_blank (strip (or_empty i.justification))) items

abbrev pub is_none_left : List ReportItem → Bool
is_none_left [] = true
is_none_left (i ∷ items) = false

-- the checks that come before anything is changed
unfoldable pub check_ready : Bool → Report → Result (Unit {0})
check_ready require_justifications report = do
  require_draft report
  raise_if (is_none_left (sorted_items report.items)) report_state_error
  raise_if (require_justifications && some_unjustified (sorted_items report.items))
      report_state_error

module _ (services : Services) where
  unfoldable pub open_account : Connectors → MailAccount → Result (MailConnector × Connectors)
  open_account connectors account = elim (lookup ℕ_discrete account.id connectors) [
    | some connector ↦ ok (connector, connectors)
    | none ↦ do
      connector ← services.open_connector account
      ok (connector, assign ℕ_discrete account.id connector connectors)
  ]

  -- the connector of an item's mailbox, opened at its first use
  unfoldable pub connector_for :
      List MailAccount → Connectors → Option ℕ → Result (MailConnector × Connectors)
  connector_for accounts connectors none = err report_state_error
  connector_for accounts connectors (some id) = elim (find (λ a. a.id == id) accounts) [
    | none ↦ err report_state_error
    | some account ↦ open_account connectors account
  ]

  -- The loop of `submit_report`: the world, the paths in `written`, and how it ended.
  unfoldable pub submit_items :
      List MailAccount
      → Connectors
      → List BlobPath
      → List ReportItem
      → World
      → World × List BlobPath × Result (Unit {0})
  submit_items accounts connectors written [] w = (w, written, ok tt)
  submit_items accounts connectors written (item ∷ items) w =
      elim (connector_for accounts connectors item.source_account_id) [
        | err e ↦ (w, written, err e)
        | ok (connector, opened) ↦
            let (w', r) = materialize_item services item connector w in
            elim r [
              | err e ↦ (w', written, err e)
              | ok artifacts ↦
                  submit_items accounts opened (written ++ map (λ a. a.blob_path) artifacts) items
                    w'
            ]
      ]

  -- Deleting what was written: a delete that raises is passed over.
  unfoldable pub clean_up : List BlobPath → List (BlobPath × Content) → List (BlobPath × Content)
  clean_up [] blobs = blobs
  clean_up (path ∷ written) blobs = clean_up written (elim (services.delete_blob path) [
    | err e ↦ blobs
    | ok there ↦ delete BlobPath-discrete path blobs
  ])

  -- an exception that `except (RenderError, CCReportError, ValueError)` catches
  abbrev pub is_handled : Error → Bool
  is_handled e = is_ccreport_error e || is_value_error e

  unfoldable pub freeze : Text → ℕ → World → World
  freeze upn now w = record w {
    report = record (w.report) { status = submitted; submitted_at = some now };
    log = audit (some upn) "report.submit" (Subject.report w.report.id) w.log;
  }

  unfoldable pub finish :
      Text → ℕ → World × List BlobPath × Result (Unit {0}) → World × Result (Unit {0})
  finish upn now (w, written, err e) =
      (if is_handled e then record w { blobs = clean_up written w.blobs } else w, err e)
  finish upn now (w, written, ok done) = (freeze upn now w, ok tt)

  unfoldable pub submit_report :
      Text → Bool → List MailAccount → ℕ → World → World × Result (Unit {0})
  submit_report upn require_justifications accounts now w =
      elim (check_ready require_justifications w.report) [
        | err e ↦ (w, err e)
        | ok ready ↦ finish upn now (submit_items accounts [] [] (sorted_items w.report.items) w)
      ]
