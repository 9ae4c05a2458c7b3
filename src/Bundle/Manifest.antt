-- ===== src/Bundle/Manifest.antt =====
-- The documents in a bundle (src/ccreport/bundle.py): the manifest and the file for
-- `ccworks report apply-json` as records, and the summary as comma-separated text. The printed forms
-- of a point of time and of the month are arguments or left out.
use native.Mathlib.Decide.{ℕ_discrete}
use ccreport.Prelude.{ℕ, ◌+◌, Option, none, some, List, [], ◌∷◌, ◌++◌, map, if◌then◌else◌, length}
use ccreport.Prelude.Int.{ℤ, pos, ◌+ℤ◌}
use ccreport.Prelude.Texts.{Text, codes, upper}
use ccreport.OrderedDict.{lookup, assign}
use ccreport.Access.Seeding.{sorted_set}
use ccreport.Connectors.{or_empty}
use ccreport.Period.{format_period}
use ccreport.Storage.{take, is_empty}
use ccreport.Reports.Model.{Status, ArtifactKind, Kind, ReportItem, Report, sorted_items}
use ccreport.Bundle.{BundleEntry, format_amount, or_default}

pub record ManifestArtifact : Type 0 where
  pub file : Text
  pub original_filename : Text
  pub content_type : Text
  pub bytes : ℕ
  pub sha256 : Text
  pub kind : Kind
  pub renderer : Option Text

pub record ManifestItem : Type 0 where
  pub index : ℕ
  pub vendor : Option Text
  pub amount : Option Text
  pub amount_cents : Option ℤ
  pub currency : Option Text
  pub date : Option Text
  pub subject : Option Text
  pub sender : Option Text
  pub from_name : Option Text
  pub justification : Option Text
  pub receipt_score : ℤ
  pub artifact_kind : ArtifactKind
  pub provider : Text
  pub account : Option Text
  pub message_id : ℕ
  pub artifacts : List ManifestArtifact

pub record Totals : Type 0 where
  pub items : ℕ
  pub artifacts : ℕ
  pub amount_cents : ℤ
  pub amount : Option Text
  pub currency : Option Text
  pub currencies : List Text

pub record Manifest : Type 0 where
  pub generated_at : Text
  pub upn : Text
  pub display_name : Option Text
  pub period : Text
  pub items : List ManifestItem
  pub report_id : ℕ
  pub title : Text
  pub status : Status
  pub notes : Option Text
  pub submitted_at : Option Text
  pub totals : Totals

-- `f(x) if x is not None else None`
abbrev pub map_some {ℓ κ} : {A : Type ℓ} {B : Type κ} → (A → B) → Option A → Option B
map_some f none = none
map_some f (some a) = some (f a)

abbrev pub ByItem : Type 0
ByItem = List (ℕ × List BundleEntry)

-- `by_item.get(id, [])`
abbrev pub entries_or_none : ByItem → ℕ → List BundleEntry
entries_or_none by_item id = elim (lookup ℕ_discrete id by_item) [ none ↦ [] | some es ↦ es ]

-- `by_item.setdefault(entry.item.id, []).append(entry)` for each entry
unfoldable pub group_by_item : ByItem → List BundleEntry → ByItem
group_by_item by_item [] = by_item
group_by_item by_item (e ∷ entries) =
    group_by_item
      (assign ℕ_discrete e.item.id (entries_or_none by_item e.item.id ++ e ∷ []) by_item) entries

abbrev pub manifest_artifact : BundleEntry → ManifestArtifact
manifest_artifact e = record {
  file = e.path;
  original_filename = e.original_filename;
  content_type = e.content_type;
  bytes = length e.content;
  sha256 = e.sha256;
  kind = e.kind;
  renderer = e.renderer;
}

-- what an item adds to `total_cents`
abbrev pub cents_of : ReportItem → ℤ
cents_of item = elim item.amount_hint_cents [ none ↦ pos 0 | some cents ↦ cents ]

-- what an item adds to `currencies`
abbrev pub currency_of : ReportItem → List Text
currency_of item = elim item.amount_hint_cents [
  | none ↦ []
  | some cents ↦ upper (or_default (or_empty item.currency_hint) (codes "USD")) ∷ []
]

unfoldable pub total_cents : ℤ → List ReportItem → ℤ
total_cents total [] = total
total_cents total (item ∷ items) = total_cents (total +ℤ cents_of item) items

unfoldable pub used_currencies : List ReportItem → List Text
used_currencies [] = []
used_currencies (item ∷ items) = currency_of item ++ used_currencies items

-- `currencies.copy().pop() if len(currencies) == 1 else None`, for a set without repetitions
unfoldable pub single_currency : List Text → Option Text
single_currency (code ∷ []) = some code
single_currency _ = none

unfoldable pub totals_of : List ReportItem → List BundleEntry → Totals
totals_of items entries =
    let total = total_cents (pos 0) items in
    let currencies = sorted_set (used_currencies items) in
    let single = single_currency currencies in
    record {
      items = length items;
      artifacts = length entries;
      amount_cents = total;
      amount = elim single [ none ↦ none | some code ↦ format_amount (some total) (some code) ];
      currency = single;
      currencies = currencies;
    }

module _ (isoformat : ℕ → Text) where
  abbrev pub manifest_item : ByItem → ℕ → ReportItem → ManifestItem
  manifest_item by_item position item = record {
    index = position;
    vendor = item.vendor_hint;
    amount = format_amount item.amount_hint_cents item.currency_hint;
    amount_cents = item.amount_hint_cents;
    currency = item.currency_hint;
    date = map_some isoformat item.message_date;
    subject = item.message_subject;
    sender = item.message_from;
    from_name = item.message_from_name;
    justification = item.justification;
    receipt_score = item.receipt_score;
    artifact_kind = item.artifact_kind;
    provider = item.provider;
    account = item.source_address;
    message_id = item.provider_message_id;
    artifacts = map manifest_artifact (entries_or_none by_item item.id);
  }

  -- `enumerate(sorted(...), 1)`
  unfoldable pub manifest_items : ByItem → ℕ → List ReportItem → List ManifestItem
  manifest_items by_item position [] = []
  manifest_items by_item position (item ∷ items) =
      manifest_item by_item position item ∷ manifest_items by_item (position + 1) items

  unfoldable pub build_manifest : Report → Text → Option Text → List BundleEntry → ℕ → Manifest
  build_manifest report upn display_name entries generated_at =
      let items = sorted_items report.items in
      record {
        generated_at = isoformat generated_at;
        upn = upn;
        display_name = display_name;
        period = format_period report.period_year report.period_month;
        items = manifest_items (group_by_item [] entries) 1 items;
        report_id = report.id;
        title = report.title;
        status = report.status;
        notes = report.notes;
        submitted_at = map_some isoformat report.submitted_at;
        totals = totals_of items entries;
      }

pub record ApplyReceipt : Type 0 where
  pub file : Text
  pub vendor : Option Text
  pub amount : Option Text
  pub currency : Option Text
  pub date : Option Text
  pub justification : Option Text
  pub sha256 : Text

pub record ApplyJson : Type 0 where
  pub period : Text
  pub user : Text
  pub receipts : List ApplyReceipt

-- `(date or "")[:10]`
abbrev pub short_date : Option Text → Text
short_date date = take 10 (or_empty date)

-- `s or None`
abbrev pub non_empty : Text → Option Text
non_empty s = if is_empty s then none else some s

abbrev pub apply_receipt : ManifestItem → ManifestArtifact → ApplyReceipt
apply_receipt item artifact = record {
  file = artifact.file;
  vendor = item.vendor;
  amount = item.amount;
  currency = item.currency;
  date = non_empty (short_date item.date);
  justification = item.justification;
  sha256 = artifact.sha256;
}

unfoldable pub receipts_of : List ManifestItem → List ApplyReceipt
receipts_of [] = []
receipts_of (item ∷ items) = map (apply_receipt item) item.artifacts ++ receipts_of items

unfoldable pub build_apply_json : Manifest → ApplyJson
build_apply_json manifest = record {
  period = manifest.period;
  user = manifest.upn;
  receipts = receipts_of manifest.items;
}
