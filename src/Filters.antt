-- ===== src/Filters.antt =====
-- src/ccreport/filters.py: which browsed messages are likely receipts. Filters.Amounts finds amounts,
-- Filters.Vendors names the vendor; here are the search for words and the score.
pub mod Amounts
pub mod Words
pub mod Known
pub mod Senders
pub mod Numbers
pub mod Lines
pub mod Vendors
pub mod Scoring
pub mod Largest
pub mod Digits
pub mod Bounds
pub mod Printed
mod Tests
use ccreport.Prelude.{
  ℕ, ◌+◌, ◌*◌, ◌-◌, ◌≡◌, Bool, true, false, not, ◌&&◌, ◌||◌, Option, none, some, List, [], ◌∷◌,
  ◌++◌, map, if◌then◌else◌, ltb, leb, ◌==◌, length, keep, any, is_some,
}
use ccreport.Prelude.Int.{ℤ, pos, negsuc, ◌+ℤ◌, ltb_ℤ}
use ccreport.Prelude.Texts.{Text, codes, lower, is_space, Text-discrete}
use ccreport.OrderedDict.{assign}
use ccreport.Regex.{
  Regex, seq, alt, all_of, one_of, word, literal, star, plus, one, char, word_edge, search,
  not_behind, not_ahead, is_word, caseless, optional,
}
use ccreport.Connectors.{AttachmentRef, MessageHeader, is_probably_receipt_media, or_empty}
use ccreport.Storage.{is_empty}
use ccreport.Filters.Words.{keyword_hits, marketing_re, calendar_re}
use ccreport.Filters.Amounts.{extract_amount}
use ccreport.Filters.Known.{known_vendors}
use ccreport.Filters.Vendors.{
  VendorMap, is_in, match_known_vendor, extract_vendor, sender_of, joined,
}

abbrev pub receipt_media_weight : ℤ
receipt_media_weight = pos 3

abbrev pub keyword_weight : ℕ
keyword_weight = 2

abbrev pub keyword_score_cap : ℕ
keyword_score_cap = 4

abbrev pub amount_weight : ℤ
amount_weight = pos 2

abbrev pub vendor_weight : ℤ
vendor_weight = pos 2

-- -2
abbrev pub marketing_weight : ℤ
marketing_weight = negsuc 1

abbrev pub calendar_weight : ℤ
calendar_weight = negsuc 1

abbrev pub receipt_threshold : ℤ
receipt_threshold = pos 3

-- `vendor_map.update({k.lower(): v for ...})`
unfoldable pub with_vendors : VendorMap → List (Text × Text) → VendorMap
with_vendors vendors [] = vendors
with_vendors vendors ((key, name) ∷ more) =
    with_vendors (assign Text-discrete (lower key) name vendors) more

-- What `score_message` finds in a message.
pub record Signals : Type 0 where
  pub media : Bool
  pub keywords : List Text
  pub amount : Option (ℤ × Text)
  pub vendor : Option Text
  pub marketing : Bool
  pub calendar : Bool

-- the texts that are searched
abbrev pub subject_and_snippet : MessageHeader → Text
subject_and_snippet header = header.subject ++ codes " " ++ header.snippet

abbrev pub haystack : MessageHeader → Option Text → Text
haystack header body = joined (some header.subject ∷ some header.snippet ∷ body ∷ [])

abbrev pub marketing_text : MessageHeader → Option Text → Text
marketing_text header body =
    sender_of header
    ++ codes " "
    ++ header.subject
    ++ codes " "
    ++ header.snippet
    ++ codes " "
    ++ or_empty body

-- An empty text counts as none.
abbrev pub truthy : Option Text → Option Text
truthy none = none
truthy (some []) = none
truthy (some (c ∷ s)) = some (c ∷ s)

unfoldable pub signals_of : List (Text × Text) → Option Text → MessageHeader → Signals
signals_of vendors body header = record {
  media = any is_probably_receipt_media header.attachment_refs;
  keywords = keyword_hits (subject_and_snippet header);
  amount = extract_amount (haystack header body);
  vendor = truthy (match_known_vendor header (with_vendors known_vendors vendors));
  marketing = search marketing_re (marketing_text header body);
  calendar = search calendar_re (subject_and_snippet header);
}

abbrev pub min : ℕ → ℕ → ℕ
min a b = if leb a b then a else b

abbrev pub weighted : Bool → ℤ → ℤ
weighted found weight = if found then weight else pos 0

unfoldable pub score_of : Signals → ℤ
score_of s =
    pos 0
    +ℤ weighted s.media receipt_media_weight
    +ℤ pos (min (length s.keywords * keyword_weight) keyword_score_cap)
    +ℤ weighted (is_some s.amount) amount_weight
    +ℤ weighted (is_some s.vendor) vendor_weight
    +ℤ weighted s.marketing marketing_weight
    +ℤ weighted s.calendar calendar_weight

abbrev pub note_if : Bool → Text → List Text
note_if found text = if found then text ∷ [] else []

abbrev pub prefixed : Text → Option Text → List Text
prefixed label none = []
prefixed label (some text) = (label ++ text) ∷ []

abbrev pub amount_code : Option (ℤ × Text) → Option Text
amount_code none = none
amount_code (some (cents, code)) = some code

abbrev pub amount_cents : Option (ℤ × Text) → Option ℤ
amount_cents none = none
amount_cents (some (cents, code)) = some cents

unfoldable pub notes_of : Signals → List Text
notes_of s =
    note_if s.media (codes "receipt-media")
    ++ map (λ hit. codes "keyword:" ++ hit) s.keywords
    ++ prefixed (codes "amount:") (amount_code s.amount)
    ++ prefixed (codes "vendor:") s.vendor
    ++ note_if s.marketing (codes "marketing")
    ++ note_if s.calendar (codes "calendar")

-- `vendor or extract_vendor(header)`
abbrev pub vendor_or : MessageHeader → Option Text → Option Text
vendor_or header none = extract_vendor header
vendor_or header (some vendor) = some vendor

unfoldable pub score_message : List (Text × Text) → Option Text → MessageHeader → MessageHeader
score_message vendors body header =
    let s = signals_of vendors body header in
    let score = score_of s in
    record header {
      amount_hint_cents = amount_cents s.amount;
      currency_hint = amount_code s.amount;
      vendor_hint = vendor_or header s.vendor;
      receipt_score = score;
      likely_receipt = not (ltb_ℤ score receipt_threshold);
      matched_signals = notes_of s;
    }

-- an empty or missing condition is no condition
abbrev pub met_by : Option Text → Text → Bool
met_by none text = true
met_by (some []) text = true
met_by (some (c ∷ s)) text = is_in (lower (c ∷ s)) (lower text)

unfoldable pub header_matches : Option Text → Option Text → MessageHeader → Bool
header_matches subject_contains from_contains header =
    met_by subject_contains header.subject && met_by from_contains (sender_of header)
