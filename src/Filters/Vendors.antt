-- ===== src/Filters/Vendors.antt =====
-- Who sold: the vendor of a message in src/ccreport/filters.py.
use ccreport.Prelude.{
  ℕ, Bool, not, ◌&&◌, ◌||◌, Option, none, some, List, [], ◌∷◌, ◌++◌, if◌then◌else◌, leb, ◌==◌, any,
}
use ccreport.Prelude.Texts.{Text, lower, strip, starts_with}
use ccreport.Regex.{literal, all_of, search, not_behind, not_ahead}
use ccreport.Connectors.{MessageHeader}
use ccreport.Storage.{is_empty}
use ccreport.Filters.Known.{known_vendors}
use ccreport.Filters.Senders.{clean_sender_name, registrable_domain, title_domain}

abbrev pub VendorMap : Type 0
VendorMap = List (Text × Text)

-- `needle in text`
unfoldable pub is_in : Text → Text → Bool
is_in needle [] = is_empty needle
is_in needle (c ∷ s) = starts_with (c ∷ s) needle || is_in needle s

-- `" ".join(filter(None, texts))`
unfoldable pub joined : List (Option Text) → Text
joined [] = []
joined (none ∷ texts) = joined texts
joined (some [] ∷ texts) = joined texts
joined (some (c ∷ s) ∷ texts) = elim (joined texts) [
  | [] ↦ c ∷ s
  | d ∷ t ↦ (c ∷ s) ++ b' ' ∷ (d ∷ t)
]

abbrev pub sender_of : MessageHeader → Text
sender_of header = joined (header.from_name ∷ header.from_address ∷ [])

abbrev pub is_lower_or_digit : ℕ → Bool
is_lower_or_digit c = (leb b'a' c && leb c b'z') || (leb b'0' c && leb c b'9')

unfoldable pub contains_vendor_key : Text → Text → Bool
contains_vendor_key text key =
    if any (λ c. (c == b'.') || (c == b'@') || (c == b'&')) key
    then is_in key text
    else search
        (all_of (not_behind is_lower_or_digit ∷ literal key ∷ not_ahead is_lower_or_digit ∷ []))
        text

-- the test in the loop of `_match_known_vendor`
abbrev pub names_vendor : MessageHeader → Text → Bool
names_vendor header needle =
    let key = strip (lower needle) in
    not (is_empty key)
    && (contains_vendor_key (lower (sender_of header)) key
        || contains_vendor_key (lower header.subject) key)

unfoldable pub match_known_vendor : MessageHeader → VendorMap → Option Text
match_known_vendor header [] = none
match_known_vendor header ((needle, name) ∷ vendors) =
    let rest = match_known_vendor header vendors in
    if names_vendor header needle then some name else rest

unfoldable pub extract_vendor : MessageHeader → Option Text
extract_vendor header = elim (match_known_vendor header known_vendors) [
  | some (c ∷ s) ↦ some (c ∷ s)
  | _ ↦ elim (clean_sender_name header.from_name) [
    | some name ↦ some name
    | none ↦ elim (registrable_domain header.from_address) [
      | none ↦ none
      | some domain ↦ some (title_domain domain)
    ]
  ]
]
