-- ===== src/Reports/Lifecycle.antt =====
-- Selecting, justifying and removing items of a draft (src/ccreport/reports.py). Every function
-- raises before it changes anything. The user is given by his upn; a new row gets the session's
-- next id and the time `now`.
use ccreport.Prelude.{
  ℕ, zero, suc, ◌+◌, Bool, true, false, not, Option, none, some, List, [], ◌∷◌, ◌++◌, if◌then◌else◌,
  ◌==◌, get_elem?, find, keep, map,
}
use ccreport.Prelude.Int.{ℤ, pos, negsuc}
use ccreport.Prelude.Texts.{Text, strip}
use ccreport.Errors.{Result, ok, err, report_state_error, item_not_found, ◌>>=◌, ◌>>◌, raise_if}
use ccreport.Audit.{Subject, audit}
use ccreport.Connectors.{MessageHeader, receipt_media_refs}
use ccreport.Reports.Model.{
  draft, submitted, ArtifactKind, attachment, message_pdf, ReportItem, Report, MailAccount, World,
  sorted_items, max_position,
}

abbrev pub is_draft : Report → Bool
is_draft report = elim (report.status) [ draft ↦ true | submitted ↦ false ]

unfoldable pub require_draft : Report → Result (Unit {0})
require_draft report = raise_if (not (is_draft report)) report_state_error

-- `header.subject or None`
unfoldable pub or_none : Text → Option Text
or_none [] = none
or_none (c ∷ s) = some (c ∷ s)

abbrev pub kind_of_refs : MessageHeader → ArtifactKind
kind_of_refs header = elim (receipt_media_refs header.attachment_refs) [
  | [] ↦ message_pdf
  | ref ∷ refs ↦ attachment
]

unfoldable pub new_item : ℕ → ℕ → ℕ → MailAccount → MessageHeader → ReportItem
new_item id now position account header = record {
  id = id;
  source_account_id = some account.id;
  position = position;
  provider = account.provider;
  provider_message_id = header.id;
  source_address = some account.address;
  message_subject = or_none header.subject;
  message_from = header.from_address;
  message_from_name = header.from_name;
  message_date = header.received_at;
  justification = none;
  vendor_hint = header.vendor_hint;
  amount_hint_cents = header.amount_hint_cents;
  currency_hint = header.currency_hint;
  receipt_score = header.receipt_score;
  artifact_kind = kind_of_refs header;
  created_at = now;
}

-- `session.add(item)`, then `session.refresh(report)`, which reads the items back in order
unfoldable pub append_item : World → ReportItem → World
append_item w item = record w {
  report = record (w.report) { items = sorted_items (w.report.items ++ item ∷ []) };
  next_id = w.next_id + 1;
}

-- the item that `select ... where provider_message_id = header.id` finds
unfoldable pub existing_item : Report → ℕ → Option ReportItem
existing_item report message_id = find (λ i. i.provider_message_id == message_id) report.items

unfoldable pub add_item :
    Text → World → MailAccount → MessageHeader → ℕ → Result (ReportItem × World)
add_item upn w account header now = do
  require_draft w.report
  elim (existing_item w.report header.id) [
    | some existing ↦ ok (existing, w)
    | none ↦
        let item = new_item w.next_id now (1 + max_position w.report.items) account header in
        ok (
          item,
          record (append_item w item) {
            log = audit (some upn) "report.add_item" (Subject.report_item item.id) w.log;
          },
        )
  ]

-- a reference that is a number, or a text of digits, is an index; any other text is an id
pub data Reference : Type 0 where
  index : ℤ → Reference
  item_id : ℕ → Reference

-- `if 1 <= index <= len(items): return items[index - 1]`
unfoldable pub item_at : List ReportItem → ℤ → Result ReportItem
item_at items (negsuc n) = err item_not_found
item_at items (pos zero) = err item_not_found
item_at items (pos (suc n)) = elim (get_elem? items n) [ none ↦ err item_not_found | some i ↦ ok i ]

unfoldable pub get_item : Report → Reference → Result ReportItem
get_item report (index i) = item_at (sorted_items report.items) i
get_item report (item_id id) = elim (find (λ i. i.id == id) (sorted_items report.items)) [
  | none ↦ err item_not_found
  | some i ↦ ok i
]

-- a change of the row with this id
unfoldable pub update_item : ℕ → (ReportItem → ReportItem) → List ReportItem → List ReportItem
update_item id change items = map (λ i. if i.id == id then change i else i) items

abbrev pub is_blank : Text → Bool
is_blank [] = true
is_blank (c ∷ s) = false

unfoldable pub justify_item : Text → World → Reference → Text → Result (ReportItem × World)
justify_item upn w reference text = do
  require_draft w.report
  raise_if (is_blank (strip text)) report_state_error
  item ← get_item w.report reference
  ok (
    record item { justification = some (strip text) },
    record w {
      report = record (w.report) {
        items =
            update_item item.id (λ i. record i { justification = some (strip text) })
              w.report.items;
      };
      log = audit (some upn) "report.justify" (Subject.report_item item.id) w.log;
    },
  )

-- `for position, remaining in enumerate(..., 1): remaining.position = position`
unfoldable pub renumber : ℕ → List ReportItem → List ReportItem
renumber n [] = []
renumber n (i ∷ items) = record i { position = n } ∷ renumber (n + 1) items

-- Deleting an item deletes its artifacts' rows too.
unfoldable pub remove_item : Text → World → Reference → Result (ℕ × World)
remove_item upn w reference = do
  require_draft w.report
  item ← get_item w.report reference
  let remaining = keep (λ i. not (i.id == item.id)) w.report.items
  ok (
    item.id,
    record w {
      report = record (w.report) { items = renumber 1 (sorted_items (sorted_items remaining)) };
      artifacts = keep (λ a. not (a.item_id == item.id)) w.artifacts;
      log = audit (some upn) "report.remove_item" (Subject.report_item item.id) w.log;
    },
  )
