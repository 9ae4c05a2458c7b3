-- ===== src/Reports/Tests.antt =====
-- Runs of the report functions on a small draft, and each theorem at a concrete input.
use native.Mathlib.Decide.{ℕ_discrete}
use ccreport.Prelude.{
  ℕ, ◌+◌, ◌≡◌, ◌↔◌, refl, true, false, not, List, [], ◌∷◌, length, get_elem?, keep, map, Option,
  none, some, ◌==◌, ◌≢◌,
}
use ccreport.Prelude.Int.{pos}
use ccreport.Prelude.Texts.{
  Text, codes, strip, lstrip, rstrip, push_unless_blank, is_space, lower, starts_with, ends_with,
  lower_code,
}
use ccreport.OrderedDict.{lookup, assign, delete}
use ccreport.Errors.{Error, ok, err, report_state_error, is_value_error, is_ccreport_error}
use ccreport.Audit.{audit}
use ccreport.Connectors.{
  AttachmentRef, MessageHeader, MailConnector, is_probably_receipt_media, receipt_media_refs,
}
use ccreport.Storage.{
  safe_filename, safe_of_parts, dash_runs, is_safe, lstrip_dashes, rstrip_dashes, push_unless_dash,
  split_slash, push_char, path_parts, last_part, path_name, from_last_dot, suffix_of_name,
  path_suffix, slash_of_backslash,
}
use ccreport.Render.{is_too_large, convert_by_type, normalize_attachment}
use ccreport.Reports.Model.{
  ArtifactKind, draft, attachment, message_pdf, ReportItem, Report, MailAccount, World, item_le,
  insert_item, sorted_items, max_position,
}
use ccreport.Reports.Lifecycle.{
  require_draft, or_none, new_item, append_item, existing_item, add_item, index, item_id, item_at,
  get_item, update_item, justify_item, renumber, remove_item,
}
use ccreport.Reports.Order.{Numbered}
use ccreport.Reports.Drafts.{IsSound}
use ccreport.Reports.Edits.{selected, with_item, add_item_lem}
use ccreport.Reports.History.{Edit, edit, edit_all, submit_report_final, edit_all-IsSound}
use ccreport.Reports.Lookup.{In, RefersTo, get_item_iff}
use ccreport.Reports.Items.{add_item_again, remove_item_lem, unplaced, but_items}
use ccreport.Reports.Justify.{but_text, justify_item_lem}
use ccreport.Reports.Submission.Steps.{Services, BlobPath-discrete, ◌>>=◌}
use ccreport.Reports.Submission.Materialize.{
  header_for_render, set_artifact_kind, new_artifact, store_artifact, materialize_ref,
  materialize_refs, materialize_message, materialize_item,
}
use ccreport.Reports.Submission.{
  some_unjustified, check_ready, open_account, connector_for, submit_items, clean_up, freeze,
  finish, submit_report,
}
use ccreport.Reports.Progress.{but_kinds, Ensures}
use ccreport.Reports.Produced.{Produced, materialize_item_lem}
use ccreport.Reports.Ready.{Unready, submit_report_refused}
use ccreport.Reports.Frozen.{IsFrozen, submit_report_ok, submit_report_err}

program : Unit {0}
unfolding require_draft or_none new_item append_item existing_item add_item item_at get_item
    update_item justify_item renumber remove_item item_le insert_item sorted_items max_position
    strip lstrip rstrip push_unless_blank is_space lower lower_code starts_with ends_with lookup
    assign delete ℕ_discrete BlobPath-discrete is_probably_receipt_media receipt_media_refs audit
    is_value_error is_ccreport_error selected edit edit_all
program = tt

submission : Unit {0}
unfolding program safe_filename safe_of_parts dash_runs is_safe lstrip_dashes rstrip_dashes
    push_unless_dash split_slash push_char path_parts last_part path_name from_last_dot
    suffix_of_name path_suffix slash_of_backslash is_too_large convert_by_type normalize_attachment
    ◌>>=◌ header_for_render set_artifact_kind new_artifact store_artifact materialize_ref
    materialize_refs materialize_message materialize_item some_unjustified check_ready open_account
    connector_for submit_items clean_up freeze finish submit_report
submission = tt

abbrev upn : Text
upn = codes "ada@example.edu"

abbrev inbox : MailAccount
inbox = record { id = 3; provider = codes "imap"; address = codes "ada@mail.example" }

abbrev pdf : AttachmentRef
pdf = record {
  id = 70;
  filename = codes "a b.pdf";
  content_type = some (codes "application/pdf");
  size_bytes = some 2;
  inline = false;
  content_id = none;
}

abbrev header : ℕ → List AttachmentRef → MessageHeader
header id refs = record {
  id = id;
  account_id = none;
  folder_id = none;
  subject = codes "Receipt";
  from_name = none;
  from_address = none;
  to = [];
  received_at = none;
  has_attachments = true;
  attachment_refs = refs;
  snippet = [];
  web_link = none;
  receipt_score = pos 5;
  likely_receipt = true;
  amount_hint_cents = none;
  currency_hint = none;
  vendor_hint = none;
  matched_signals = [];
}

abbrev empty_report : Report
empty_report = record {
  id = 1;
  user_id = 1;
  period_year = 2026;
  period_month = 7;
  title = codes "July";
  status = draft;
  notes = none;
  submitted_at = none;
  items = [];
}

abbrev empty : World
empty = record { report = empty_report; artifacts = []; blobs = []; log = []; next_id = 10 }

abbrev empty-IsSound : IsSound empty
empty-IsSound = record { numbered = tt; messages = tt; ids = tt; fresh = tt }

abbrev edits : List Edit
edits =
    Edit.select inbox (header 50 (pdf ∷ [])) 100
    ∷ Edit.select inbox (header 51 []) 101
    ∷ Edit.select inbox (header 50 (pdf ∷ [])) 102
    ∷ Edit.justify (index (pos 1)) (codes " lunch ")
    ∷ Edit.justify (index (pos 2)) (codes "taxi")
    ∷ Edit.remove (index (pos 7))
    ∷ []

-- two items, both justified
abbrev two : World
two = edit_all upn empty edits

runs_edits : map (λ i. i.provider_message_id) two.report.items ≡ 50 ∷ 51 ∷ []
unfolding program
runs_edits = refl

abbrev two-IsSound : IsSound two
two-IsSound = edit_all-IsSound upn empty edits empty-IsSound

edit_all-IsSound_example : IsSound (edit_all upn empty edits)
edit_all-IsSound_example = edit_all-IsSound upn empty edits empty-IsSound

abbrev item : ℕ → ℕ → ℕ → Option Text → ArtifactKind → ReportItem
item id place message justification kind = record {
  id = id;
  source_account_id = some 3;
  position = place;
  provider = codes "imap";
  provider_message_id = message;
  source_address = some (codes "ada@mail.example");
  message_subject = some (codes "Receipt");
  message_from = none;
  message_from_name = none;
  message_date = none;
  justification = justification;
  vendor_hint = none;
  amount_hint_cents = none;
  currency_hint = none;
  receipt_score = pos 5;
  artifact_kind = kind;
  created_at = message + 50;
}

abbrev lunch : ReportItem
lunch = item 10 1 50 (some (codes "lunch")) attachment

abbrev taxi : ReportItem
taxi = item 11 2 51 (some (codes "taxi")) message_pdf

gives_items : two.report.items ≡ lunch ∷ taxi ∷ []
unfolding program
gives_items = refl

get_item_iff_example :
    (get_item two.report (index (pos 2)) ≡ ok taxi)
    ↔ (In taxi two.report.items × RefersTo (index (pos 2)) taxi)
get_item_iff_example = get_item_iff two.report two.next_id (index (pos 2)) taxi two-IsSound

add_item_lem_example :
    add_item upn empty inbox (header 50 []) 7
    ≡ ok (
      selected empty 0 inbox (header 50 []) 7,
      with_item upn empty (selected empty 0 inbox (header 50 []) 7),
    )
unfolding program
add_item_lem_example = add_item_lem upn empty inbox (header 50 []) 7 empty-IsSound refl

add_item_again_example :
    (w' : World) × (i : ReportItem) × (add_item upn two inbox (header 52 []) 7 ≡ ok (i, w'))
    × (add_item upn w' inbox (header 52 []) 9 ≡ ok (i, w'))
unfolding program
add_item_again_example = add_item_again upn two inbox inbox (header 52 []) 7 9 two-IsSound refl

remove_item_lem_example :
    (w' : World) × (remove_item upn two (index (pos 1)) ≡ ok (lunch.id, w'))
    × (length w'.report.items + 1 ≡ length two.report.items)
    × Numbered 1 w'.report.items
    × (map unplaced w'.report.items
        ≡ map unplaced (keep (λ j. not (j.id == lunch.id)) two.report.items))
    × (but_items w'.report ≡ but_items two.report)
    × (w'.artifacts ≡ keep (λ a. not (a.item_id == lunch.id)) two.artifacts)
    × (w'.blobs ≡ two.blobs)
unfolding program
remove_item_lem_example = remove_item_lem upn two (index (pos 1)) lunch two-IsSound refl refl

justify_item_lem_example :
    (w' : World) × (i' : ReportItem) × (justify_item upn two (item_id 11) (codes "bus ")
      ≡ ok (i', w'))
    × (i'.justification ≡ some (strip (codes "bus ")))
    × (get_item w'.report (item_id 11) ≡ ok i')
    × ((k : ℕ) (j : ReportItem)
        → get_elem? two.report.items k ≡ some j
        → j.id ≢ taxi.id
        → get_elem? w'.report.items k ≡ some j)
    × (map but_text w'.report.items ≡ map but_text two.report.items)
    × (but_items w'.report ≡ but_items two.report)
    × (w'.artifacts ≡ two.artifacts)
    × (w'.blobs ≡ two.blobs)
unfolding program
justify_item_lem_example =
    justify_item_lem upn two (item_id 11) (codes "bus ") taxi two-IsSound refl refl refl

-- a mailbox in which message 50 has one attachment and message 51 has none
abbrev mailbox : MailConnector
mailbox = record {
  attachment_refs = λ message. ok (elim (message == 50) [ true ↦ pdf ∷ [] | false ↦ [] ]);
  fetch_body =
      λ message. ok (record { id = message; html = none; text = some (codes "hi"); mime = none });
  fetch_attachment = λ message id. ok (record { ref = pdf; content = 1 ∷ 2 ∷ [] });
}

abbrev services : Services
services = record {
  put = λ path content. ok tt;
  delete_blob = λ path. ok true;
  nfkd = λ text. text;
  max_attachment_mb = 25;
  convert_image = λ content filename suffix. err Error.foreign;
  render_message = λ body h account. ok (9 ∷ 9 ∷ 9 ∷ []);
  open_connector = λ account. ok mailbox;
}

materialize_item_lem_example :
    Ensures (materialize_item services lunch mailbox) two (Produced services lunch)
materialize_item_lem_example = materialize_item_lem services lunch mailbox two

submit_report_ok_example :
    IsFrozen true two (submit_report services upn true (inbox ∷ []) 200 two).0
unfolding submission
submit_report_ok_example = submit_report_ok services upn true (inbox ∷ []) 200 two two-IsSound refl

submit_report_err_example :
    but_kinds (submit_report services upn true [] 200 two).0.report ≡ but_kinds two.report
unfolding submission
submit_report_err_example = submit_report_err services upn true [] 200 two report_state_error refl

submit_report_refused_example :
    submit_report services upn true (inbox ∷ []) 200 empty ≡ (empty, err report_state_error)
submit_report_refused_example =
    submit_report_refused services upn true (inbox ∷ []) 200 empty empty-IsSound (Unready.bare refl)

-- what the report is once it is submitted
abbrev closed : World
closed = (submit_report services upn true (inbox ∷ []) 200 two).0

submit_report_final_example :
    (edit_all upn closed edits ≡ closed)
    × (submit_report services upn false (inbox ∷ []) 300 (edit_all upn closed edits)
        ≡ (closed, err report_state_error))
unfolding submission
submit_report_final_example =
    submit_report_final services upn upn true false (inbox ∷ []) 200 300 two edits two-IsSound refl

-- the names of the files that a submission stores
stores_files :
    map (λ a. a.filename) (submit_report services upn true (inbox ∷ []) 200 two).0.artifacts
    ≡ codes "a-b.pdf" ∷ codes "Receipt.pdf" ∷ []
unfolding submission
stores_files = refl
