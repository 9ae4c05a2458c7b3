-- ===== src/Bundle/Tests.antt =====
-- Runs of the bundle functions on a small report, and each theorem at a concrete input.
use native.Mathlib.Decide.{ℕ_discrete}
use ccreport.Prelude.{true, ℕ, ◌≡◌, refl, List, [], ◌∷◌, map, none, some, any, Bool, arith}
use ccreport.Prelude.Distinct.{Distinct}
use ccreport.Prelude.Int.{pos, negsuc}
use ccreport.Prelude.Texts.{
  Text, codes, contains, strip, lstrip, rstrip, push_unless_blank, is_space, lower, lower_code,
  upper, upper_code,
}
use ccreport.OrderedDict.{lookup, assign}
use ccreport.Errors.{ok, err, storage_error}
use ccreport.Period.{decimal, decimal_from, zero_padded}
use ccreport.Storage.{
  safe_filename, safe_of_parts, dash_runs, is_safe, lstrip_dashes, rstrip_dashes, push_unless_dash,
  split_slash, push_char, path_parts, last_part, path_name, from_last_dot, suffix_of_name,
  path_suffix, slash_of_backslash,
}
use ccreport.Reports.Model.{
  attachment, draft, ReportItem, Report, BlobPath, original_attachment, item_le, insert_item,
  sorted_items,
}
use ccreport.Bundle.{
  print_cents, format_amount, is_slug_char, slug_runs, lstrip_dash, push_unless_last_dash,
  rstrip_dash, slugify, before_at, bundle_filename, StoredArtifact, BundleEntry, candidate,
  unused_name, entry_name, BundleServices, insert_artifact, sorted_artifacts, new_entry,
  collect_item, collect_items, collect_entries,
}
use ccreport.Bundle.Names.{entry_names, IsFirstUnused, entry_name_lem}
use ccreport.Bundle.Collected.{wanted, Collects, collect_entries_lem}
use ccreport.Bundle.Manifest.{
  Manifest, group_by_item, total_cents, used_currencies, single_currency, manifest_items, totals_of,
  build_manifest, receipts_of, build_apply_json,
}
use ccreport.Bundle.Summary.{
  is_special, join_files, doubled, write_field, write_row, write_rows, build_summary_csv, read_from,
  read_rows, summary_rows,
}
use ccreport.Bundle.Applied.{receipt_for, apply_json_lem}
use ccreport.Bundle.Totals.{IsPrinted, sum_of, totals_lem}

program : Unit {0}
unfolding strip lstrip rstrip push_unless_blank is_space lower lower_code upper upper_code lookup
    assign ℕ_discrete decimal decimal_from zero_padded safe_filename safe_of_parts dash_runs is_safe
    lstrip_dashes rstrip_dashes push_unless_dash split_slash push_char path_parts last_part
    path_name from_last_dot suffix_of_name path_suffix slash_of_backslash item_le insert_item
    sorted_items print_cents format_amount is_slug_char slug_runs lstrip_dash push_unless_last_dash
    rstrip_dash slugify before_at bundle_filename candidate unused_name entry_name insert_artifact
    sorted_artifacts new_entry collect_item collect_items collect_entries group_by_item total_cents
    used_currencies single_currency manifest_items totals_of build_manifest receipts_of
    build_apply_json join_files doubled write_field write_row write_rows build_summary_csv read_from
    read_rows
program = tt

yen_amount : format_amount (some (negsuc 1199)) (some (codes "jpy")) ≡ some (codes "-1200")
unfolding program
yen_amount = refl

dollar_amount : format_amount (some (negsuc 1204)) (some (codes "USD")) ≡ some (codes "-12.05")
unfolding program
dollar_amount = refl

slug : slugify (codes "  Jammin' Crepes & Co. ") (codes "receipt") ≡ codes "jammin-crepes-co"
unfolding program
slug = refl

archive_name :
    bundle_filename (codes "Ada.L@example.edu") (codes "2026-07")
    ≡ codes "ccreport-ada-l-2026-07.zip"
unfolding program
archive_name = refl

abbrev blank_item : ReportItem
blank_item = record {
  id = 20;
  source_account_id = some 3;
  position = 1;
  provider = codes "imap";
  provider_message_id = 5;
  source_address = some (codes "ada@mail.example");
  message_subject = some (codes "Receipt");
  message_from = none;
  message_from_name = none;
  message_date = some 0;
  justification = some (codes "team \"lunch\", July");
  vendor_hint = some (codes "Jammin Crepes");
  amount_hint_cents = some (pos 1250);
  currency_hint = some (codes "USD");
  receipt_score = pos 5;
  artifact_kind = attachment;
  created_at = 0;
}

abbrev second_item : ReportItem
second_item = record blank_item { id = 21; position = 2; vendor_hint = none; currency_hint = none }

abbrev july : Report
july = record {
  id = 1;
  user_id = 9;
  period_year = 2026;
  period_month = 7;
  title = codes "July";
  status = draft;
  notes = none;
  submitted_at = none;
  items = second_item ∷ blank_item ∷ [];
}

abbrev path_of : ℕ → BlobPath
path_of id = record { report_id = 1; artifact_id = id; filename = codes "a.pdf" }

abbrev row : ℕ → ℕ → StoredArtifact
row id item_id = record {
  artifact = record {
    id = id;
    item_id = item_id;
    blob_path = path_of id;
    filename = codes "a.pdf";
    content_type = codes "application/pdf";
    size_bytes = 2;
    kind = original_attachment;
  };
  created_at = id;
  renderer = none;
}

abbrev rows : List StoredArtifact
rows = row 31 20 ∷ row 30 20 ∷ row 32 21 ∷ []

abbrev services : BundleServices
services = record {
  nfkd = λ s. s;
  sha256_hex = λ content. codes "0f";
  read = λ path. ok (path.artifact_id ∷ 7 ∷ []);
}

abbrev lost : BundleServices
lost = record services { read = λ path. err storage_error }

abbrev isoformat : ℕ → Text
isoformat time = codes "2026-07-03T12:00:00"

abbrev entry : ReportItem → ℕ → ℕ → Text → BundleEntry
entry item index id path = record {
  item = item;
  index = index;
  path = path;
  content = id ∷ 7 ∷ [];
  content_type = codes "application/pdf";
  sha256 = codes "0f";
  kind = original_attachment;
  renderer = none;
  original_filename = codes "a.pdf";
}

abbrev entries : List BundleEntry
entries =
    entry blank_item 1 30 (codes "receipts/001-jammin-crepes.pdf")
    ∷ entry blank_item 1 31 (codes "receipts/001-jammin-crepes-2.pdf")
    ∷ entry second_item 2 32 (codes "receipts/002-receipt.pdf")
    ∷ []

collected : collect_entries services july rows ≡ ok entries
unfolding program
collected = refl

unreadable : collect_entries lost july rows ≡ err storage_error
unfolding program
unreadable = refl

abbrev manifest : Manifest
manifest = build_manifest isoformat july (codes "ada@example.edu") none entries 0

-- a writer that quotes what it must
abbrev minimal : Text → Bool
minimal s = any is_special s

read_back : read_rows (build_summary_csv minimal manifest) ≡ summary_rows manifest
unfolding program
read_back = refl

Distinct-ids : Distinct (λ i. i.id) july.items
Distinct-ids = ((λ e. absurd (omega (arith, e)), tt), (tt, tt))

abbrev taken : List Text
taken = codes "receipts/001-jammin-crepes.pdf" ∷ []

entry_name_lem_example :
    (unused_name (entry_names services 1 blank_item (codes "a.pdf") taken) taken 5 0
      ≡ entry_name services 1 blank_item (codes "a.pdf") taken)
    × IsFirstUnused
        (entry_names services 1 blank_item (codes "a.pdf") taken)
        taken
        0
        (entry_name services 1 blank_item (codes "a.pdf") taken)
entry_name_lem_example = entry_name_lem services 1 blank_item (codes "a.pdf") taken 5 (omega arith)

collect_entries_lem_example :
    Collects services
      (wanted rows 1 (sorted_items july.items))
      []
      (collect_entries services july rows)
collect_entries_lem_example = collect_entries_lem services july rows

-- A carriage return alone ends a row to a reader, and the writer does not quote it.
splits_row :
    read_rows (write_row minimal (codes "a\rb" ∷ [])) ≡ (codes "a" ∷ []) ∷ (codes "b" ∷ []) ∷ []
unfolding program
splits_row = refl

-- In quotes it is an ordinary character.
keeps_row : read_rows (write_row (λ s. true) (codes "a\rb" ∷ [])) ≡ (codes "a\rb" ∷ []) ∷ []
unfolding program
keeps_row = refl

ends_rows : read_rows (codes "a,b\r\nc\r\n") ≡ (codes "a" ∷ codes "b" ∷ []) ∷ (codes "c" ∷ []) ∷ []
unfolding program
ends_rows = refl

apply_json_lem_example :
    (build_apply_json
      (build_manifest isoformat july (codes "ada@example.edu") none entries 0)).receipts
    ≡ map (receipt_for services isoformat) entries
apply_json_lem_example =
    apply_json_lem services isoformat july rows (codes "ada@example.edu") none 0 entries
      Distinct-ids collected

totals_lem_example :
    let totals = totals_of july.items entries in
    (totals.items ≡ 2)
    × (totals.artifacts ≡ 3)
    × (totals.amount_cents ≡ sum_of july.items)
    × ((code : Text) → contains code totals.currencies ≡ contains code (used_currencies july.items))
    × IsPrinted july.items totals.currency totals.amount
totals_lem_example = totals_lem july.items entries
