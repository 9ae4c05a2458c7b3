-- ===== src/Reports/Submission/Materialize.antt =====
-- Turning one selected message into stored files: `_store_artifact` and `materialize_item` of
-- src/ccreport/reports.py.
use ccreport.Prelude.{ℕ, ◌+◌, false, Option, none, some, List, [], ◌∷◌, ◌++◌, if◌then◌else◌, length}
use ccreport.Prelude.Texts.{Text, codes, text_eq}
use ccreport.OrderedDict.{assign}
use ccreport.Errors.{ok, err, is_value_error}
use ccreport.Connectors.{AttachmentRef, receipt_media_refs, MessageHeader, MailConnector, or_empty}
use ccreport.Storage.{safe_filename}
use ccreport.Render.{Content, normalize_attachment}
use ccreport.Reports.Model.{
  ArtifactKind, attachment, message_pdf, ReportItem, Kind, original_attachment, rendered_message,
  converted_image, Artifact, World,
}
use ccreport.Reports.Lifecycle.{update_item}
use ccreport.Reports.Submission.Steps.{Step, Services, BlobPath-discrete, return, ask, ◌>>=◌, ◌>>◌}

unfoldable pub header_for_render : ReportItem → MessageHeader
header_for_render item = record {
  id = item.provider_message_id;
  account_id = item.source_address;
  folder_id = none;
  subject = or_empty item.message_subject;
  from_name = item.message_from_name;
  from_address = item.message_from;
  to = [];
  received_at = item.message_date;
  has_attachments = false;
  attachment_refs = [];
  snippet = [];
  web_link = none;
  receipt_score = item.receipt_score;
  likely_receipt = false;
  amount_hint_cents = item.amount_hint_cents;
  currency_hint = item.currency_hint;
  vendor_hint = item.vendor_hint;
  matched_signals = [];
}

-- `item.artifact_kind = kind`
unfoldable pub set_artifact_kind : ℕ → ArtifactKind → Step (Unit {0})
set_artifact_kind id kind w = (
  record w {
    report = record (w.report) {
      items = update_item id (λ i. record i { artifact_kind = kind }) w.report.items;
    };
  },
  ok tt,
)

-- `item.message_subject or 'message'`
abbrev pub pdf_name : Option Text → Text
pdf_name none = codes "message.pdf"
pdf_name (some []) = codes "message.pdf"
pdf_name (some (c ∷ s)) = (c ∷ s) ++ codes ".pdf"

module _ (services : Services) where
  -- the row that `_store_artifact` writes
  unfoldable pub new_artifact : World → ReportItem → Content → Text → Text → Kind → Artifact
  new_artifact w item content filename content_type kind =
      let name = safe_filename services.nfkd filename in
      record {
        id = w.next_id;
        item_id = item.id;
        blob_path = record {
          report_id = w.report.id;
          artifact_id = w.next_id;
          filename = safe_filename services.nfkd name;
        };
        filename = name;
        content_type = content_type;
        size_bytes = length content;
        kind = kind;
      }

  -- The row is there before the file is written, and stays when writing raises.
  unfoldable pub store_artifact : ReportItem → Content → Text → Text → Kind → Step Artifact
  store_artifact item content filename content_type kind w =
      let artifact = new_artifact w item content filename content_type kind in
      let w' = record w { artifacts = w.artifacts ++ artifact ∷ []; next_id = w.next_id + 1 } in
      elim (services.put artifact.blob_path content) [
        | err e ↦ (w', err e)
        | ok done ↦ (
          record w' { blobs = assign BlobPath-discrete artifact.blob_path content w.blobs },
          ok artifact,
        )
      ]

  -- one attachment: downloaded, converted and stored, or left out if it cannot be converted
  unfoldable pub materialize_ref : ReportItem → MailConnector → AttachmentRef → Step (List Artifact)
  materialize_ref item connector ref = do
    downloaded ← ask (connector.fetch_attachment item.provider_message_id ref.id)
    elim (normalize_attachment services.max_attachment_mb services.convert_image downloaded) [
      | err e ↦ if is_value_error e then return [] else ask (err e)
      | ok (content, filename, content_type) ↦ do
        artifact ←
            store_artifact item content filename content_type
              (if text_eq filename ref.filename then original_attachment else converted_image)
        return (artifact ∷ [])
    ]

  unfoldable pub materialize_refs :
      ReportItem → MailConnector → List AttachmentRef → Step (List Artifact)
  materialize_refs item connector [] = return []
  materialize_refs item connector (ref ∷ refs) = do
    first ← materialize_ref item connector ref
    rest ← materialize_refs item connector refs
    return (first ++ rest)

  -- where nothing attached can be stored: the message itself as a PDF
  unfoldable pub materialize_message : ReportItem → MailConnector → Step (List Artifact)
  materialize_message item connector = do
    body ← ask (connector.fetch_body item.provider_message_id)
    content ← ask (services.render_message body (header_for_render item) item.source_address)
    set_artifact_kind item.id message_pdf
    artifact ←
        store_artifact item content (pdf_name item.message_subject) (codes "application/pdf")
          rendered_message
    return (artifact ∷ [])

  unfoldable pub materialize_item : ReportItem → MailConnector → Step (List Artifact)
  materialize_item item connector = do
    refs ← ask (connector.attachment_refs item.provider_message_id)
    produced ← materialize_refs item connector (receipt_media_refs refs)
    elim produced [
      | [] ↦ materialize_message item connector
      | artifact ∷ artifacts ↦ do
        set_artifact_kind item.id attachment
        return (artifact ∷ artifacts)
    ]
