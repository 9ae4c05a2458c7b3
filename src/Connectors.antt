-- ===== src/Connectors.antt =====
-- src/ccreport/connectors/base.py: what every mail connector hands out, and the read-only interface
-- of a connector. The providers behind it are not modelled: a connector is any record of this type.
use ccreport.Prelude.{
  ℕ, Bool, true, false, ◌||◌, Option, none, some, List, [], ◌∷◌, keep, if◌then◌else◌, any,
}
use ccreport.Prelude.Int.{ℤ}
use ccreport.Prelude.Texts.{Text, codes, text_eq, lower, starts_with, ends_with}
use ccreport.Errors.{Result}

-- An attachment that is known to exist.
pub record AttachmentRef : Type 0 where
  pub id : ℕ
  pub filename : Text
  pub content_type : Option Text
  pub size_bytes : Option ℕ
  pub inline : Bool
  pub content_id : Option Text

abbrev pub media_suffixes : List Text
media_suffixes =
    codes ".pdf"
    ∷ codes ".jpg"
    ∷ codes ".jpeg"
    ∷ codes ".png"
    ∷ codes ".heic"
    ∷ codes ".heif"
    ∷ codes ".webp"
    ∷ codes ".tif"
    ∷ codes ".tiff"
    ∷ []

-- `value or ""`
abbrev pub or_empty : Option Text → Text
or_empty none = []
or_empty (some s) = s

unfoldable pub is_probably_receipt_media : AttachmentRef → Bool
is_probably_receipt_media ref =
    let ctype = lower (or_empty ref.content_type) in
    let name = lower ref.filename in
    if ref.inline
    then false
    else (if starts_with ctype (codes "image/") || text_eq ctype (codes "application/pdf")
        then true
        else any (ends_with name) media_suffixes)

-- A downloaded attachment; the content is a list of bytes.
pub record Attachment : Type 0 where
  pub ref : AttachmentRef
  pub content : List ℕ

pub record MessageHeader : Type 0 where
  pub id : ℕ
  pub account_id : Option Text
  pub folder_id : Option Text
  pub subject : Text
  pub from_name : Option Text
  pub from_address : Option Text
  pub to : List Text
  pub received_at : Option ℕ
  pub has_attachments : Bool
  pub attachment_refs : List AttachmentRef
  pub snippet : Text
  pub web_link : Option Text
  pub receipt_score : ℤ
  pub likely_receipt : Bool
  pub amount_hint_cents : Option ℤ
  pub currency_hint : Option Text
  pub vendor_hint : Option Text
  pub matched_signals : List Text

unfoldable pub receipt_media_refs : List AttachmentRef → List AttachmentRef
receipt_media_refs refs = keep is_probably_receipt_media refs

pub record MessageBody : Type 0 where
  pub id : ℕ
  pub html : Option Text
  pub text : Option Text
  pub mime : Option (List ℕ)

-- The methods of `MailConnector` that submission uses; each asks the provider and may raise.
pub record MailConnector : Type 0 where
  pub attachment_refs : ℕ → Result (List AttachmentRef)
  pub fetch_body : ℕ → Result MessageBody
  pub fetch_attachment : ℕ → ℕ → Result Attachment
