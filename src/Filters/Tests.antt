-- ===== src/Filters/Tests.antt =====
-- Runs of the filters on small texts, and each theorem at a concrete input.
use native.Mathlib.Decide.{ℕ_discrete}
use ccreport.Prelude.{◌↔◌, is_some, ◌≡◌, refl, true, false, List, [], ◌∷◌, none, some}
use ccreport.Prelude.Int.{pos, negsuc, ◌≤ℤ◌}
use ccreport.Prelude.Texts.{
  Text, codes, strip, lstrip, rstrip, push_unless_blank, is_space, lower, lower_code, upper,
  upper_code, starts_with, ends_with, Text-discrete,
}
use ccreport.OrderedDict.{lookup, assign}
use ccreport.Connectors.{MessageHeader}
use ccreport.Bundle.{print_cents}
use ccreport.Regex.{
  find_matches, repeat, run_one, run, first_match, match_here, search_from, matches_from,
  substitute_from, group_of, is_word,
}
use ccreport.Filters.Printed.{parse-print_cents}
use ccreport.Filters.Largest.{IsFirstLargest}
use ccreport.Filters.Bounds.{IsAmount, extract_amount_bounds}
use ccreport.Filters.Scoring.{score_message_bounds}
use ccreport.Filters.{score_message, signals_of}
use ccreport.Filters.Amounts.{
  amount_re, code_of_symbol, currency_code, reject_number, candidate_of, candidates_of,
  largest_from, largest, extract_amount,
}
use ccreport.Filters.Numbers.{rpartition, decimal_separator, number_parts, parse_number}
use ccreport.Filters.Vendors.{
  is_in, joined, contains_vendor_key, match_known_vendor, extract_vendor,
}
use ccreport.Filters.Senders.{
  cleaned, clean_sender_name, parse_address, push_to_first, split_on, last_of, registrable,
  domain_of, registrable_domain, title_from, title_domain,
}

program : Unit {0}
unfolding strip lstrip rstrip push_unless_blank is_space lower lower_code upper upper_code
    starts_with ends_with lookup assign Text-discrete ℕ_discrete repeat run_one run first_match
    match_here search_from matches_from substitute_from group_of is_word code_of_symbol
    currency_code reject_number rpartition decimal_separator number_parts parse_number candidate_of
    candidates_of largest_from largest extract_amount is_in joined contains_vendor_key
    match_known_vendor cleaned clean_sender_name parse_address push_to_first split_on last_of
    registrable domain_of registrable_domain title_from title_domain extract_vendor
program = tt

usd_capital : upper (codes "USD") ≡ codes "USD"
unfolding program
usd_capital = refl

amount_found : extract_amount (codes "$12.05") ≡ some (pos 1205, codes "USD")
unfolding program
amount_found = refl

sender_cleaned : clean_sender_name (some (codes "Ada via Team")) ≡ some (codes "Ada")
unfolding program
sender_cleaned = refl

domain_found : registrable_domain (some (codes "A <x@mail.shop.co.uk>")) ≡ some (codes "shop.co.uk")
unfolding program
domain_found = refl

largest_found :
    extract_amount (codes "Order 4411, fee -$3, total USD 1,250.00 (5% off)")
    ≡ some (pos 125000, codes "USD")
unfolding program
largest_found = refl

year_is_no_amount : extract_amount (codes "$2026 plan") ≡ none
unfolding program
year_is_no_amount = refl

abbrev receipt : MessageHeader
receipt = record {
  id = 1;
  account_id = none;
  folder_id = none;
  subject = codes "Your receipt";
  from_name = some (codes "Cafe");
  from_address = some (codes "pay@cafe.com");
  to = [];
  received_at = some 0;
  has_attachments = false;
  attachment_refs = [];
  snippet = codes "$9";
  web_link = none;
  receipt_score = pos 0;
  likely_receipt = false;
  amount_hint_cents = none;
  currency_hint = none;
  vendor_hint = none;
  matched_signals = [];
}

abbrev own_vendors : List (Text × Text)
own_vendors = (codes "cafe", codes "Cafe") ∷ []

parse-print_cents_example :
    parse_number (print_cents (pos 1205) (some (codes "USD"))) (codes "USD") ≡ some 1205
parse-print_cents_example = parse-print_cents 1205 (codes "USD") usd_capital

extract_amount_bounds_example :
    IsFirstLargest (candidates_of (find_matches amount_re (codes "$12.05"))) (pos 1205, codes "USD")
    × IsAmount (pos 1205, codes "USD")
extract_amount_bounds_example =
    extract_amount_bounds (codes "$12.05") (pos 1205, codes "USD") amount_found

score_message_bounds_example :
    let scored = score_message own_vendors none receipt in
    let s = signals_of own_vendors none receipt in
    (negsuc 3 ≤ℤ scored.receipt_score)
    × (scored.receipt_score ≤ℤ pos 11)
    × ((scored.likely_receipt ≡ true) ↔ (pos 3 ≤ℤ scored.receipt_score))
    × (s.media ≡ true → s.marketing ≡ false → s.calendar ≡ false → scored.likely_receipt ≡ true)
    × (s.media ≡ false
        → s.keywords ≡ []
        → scored.likely_receipt ≡ true
        → (is_some s.amount ≡ true) × (is_some s.vendor ≡ true))
score_message_bounds_example = score_message_bounds own_vendors none receipt
