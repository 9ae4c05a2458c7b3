-- ===== src/Reports/Model.antt =====
-- The rows that a report consists of (src/ccreport/models.py), and the order of its items.
use ccreport.Prelude.{ℕ, Bool, ◌&&◌, ◌||◌, Option, List, [], ◌∷◌, if◌then◌else◌, ltb, leb, ◌==◌}
use ccreport.Prelude.Int.{ℤ}
use ccreport.Prelude.Texts.{Text}
use ccreport.Audit.{AuditLog}

pub data Status : Type 0 where
  draft submitted : Status

pub data ArtifactKind : Type 0 where
  attachment message_pdf : ArtifactKind

pub record ReportItem : Type 0 where
  pub id : ℕ
  pub source_account_id : Option ℕ
  pub position : ℕ
  pub provider : Text
  pub provider_message_id : ℕ
  pub source_address : Option Text
  pub message_subject : Option Text
  pub message_from : Option Text
  pub message_from_name : Option Text
  pub message_date : Option ℕ
  pub justification : Option Text
  pub vendor_hint : Option Text
  pub amount_hint_cents : Option ℤ
  pub currency_hint : Option Text
  pub receipt_score : ℤ
  pub artifact_kind : ArtifactKind
  pub created_at : ℕ

pub record Report : Type 0 where
  pub id : ℕ
  pub user_id : ℕ
  pub period_year : ℕ
  pub period_month : ℕ
  pub title : Text
  pub status : Status
  pub notes : Option Text
  pub submitted_at : Option ℕ
  pub items : List ReportItem

-- the columns of `MailAccount` that reports read
pub record MailAccount : Type 0 where
  pub id : ℕ
  pub provider : Text
  pub address : Text

-- where a stored file lies: `reports/<report>/<artifact>/<filename>`
pub record BlobPath : Type 0 where
  pub report_id : ℕ
  pub artifact_id : ℕ
  pub filename : Text

pub data Kind : Type 0 where
  original_attachment rendered_message converted_image : Kind

pub record Artifact : Type 0 where
  pub id : ℕ
  pub item_id : ℕ
  pub blob_path : BlobPath
  pub filename : Text
  pub content_type : Text
  pub size_bytes : ℕ
  pub kind : Kind

-- What one session sees: the report with its items, the artifacts of the report, the files in the
-- artifact store, the audit log, and the id that the next new row gets.
pub record World : Type 0 where
  pub report : Report
  pub artifacts : List Artifact
  pub blobs : List (BlobPath × List ℕ)
  pub log : List AuditLog
  pub next_id : ℕ

-- the key `(i.position, i.created_at)`
unfoldable pub item_le : ReportItem → ReportItem → Bool
item_le a b =
    ltb a.position b.position || ((a.position == b.position) && leb a.created_at b.created_at)

unfoldable pub insert_item : ReportItem → List ReportItem → List ReportItem
insert_item x [] = x ∷ []
insert_item x (y ∷ ys) = let rest = insert_item x ys in if item_le x y then x ∷ y ∷ ys else y ∷ rest

-- `sorted(report.items, key=lambda i: (i.position, i.created_at))`
unfoldable pub sorted_items : List ReportItem → List ReportItem
sorted_items [] = []
sorted_items (x ∷ xs) = insert_item x (sorted_items xs)

-- `max((i.position for i in report.items), default=0)`
unfoldable pub max_position : List ReportItem → ℕ
max_position [] = 0
max_position (x ∷ xs) =
    let rest = max_position xs in if ltb rest x.position then x.position else rest
