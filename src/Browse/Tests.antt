-- ===== src/Browse/Tests.antt =====
-- Runs of browsing with a small provider, and each theorem at a concrete input.
use native.Mathlib.Decide.{ℕ_discrete}
use ccreport.Prelude.{ℕ, ◌≡◌, refl, true, false, [], ◌∷◌, Option, none, some, arith}
use ccreport.Prelude.Int.{pos}
use ccreport.Prelude.Texts.{codes, strip, lstrip, rstrip, push_unless_blank, is_space}
use ccreport.Errors.{Result, ok, err, connector_error, invalid_period}
use ccreport.Connectors.{MessageHeader}
use ccreport.OrderedDict.{lookup, assign, delete, move_to_end}
use ccreport.Cache.{HeaderCache, CacheKey-discrete, init, enabled, get_entry, get, evict, put, len}
use ccreport.Cache.History.{init-IsValid}
use ccreport.Period.{
  is_digit, match_period, check_month, parse_period, decimal_from, decimal, zero_padded,
  format_period, previous_month, periods_from, available_periods, clamp_period,
}
use ccreport.Period.Calendar.{
  is_leap, days_in_month, make_datetime, next_midnight, add_microsecond, month_bounds,
  first_instant, earlier,
}
use ccreport.Browse.{
  Headers, MessageQuery, Request, Settings, BrowseResult, insert_header, newest_first, check_query,
  query_of, result_of, scored, fetch, answer, month_of, browse_in, browse, find_header, Caches,
  in_use,
}
use ccreport.Browse.Views.{changed, shown, browse_again}
use ccreport.Browse.Sorted.{IsFetch, fetch_lem}

program : Unit {0}
unfolding strip lstrip rstrip push_unless_blank is_space is_digit match_period check_month
    parse_period decimal_from decimal zero_padded format_period previous_month periods_from
    available_periods clamp_period is_leap days_in_month make_datetime next_midnight add_microsecond
    month_bounds earlier lookup assign delete move_to_end CacheKey-discrete ℕ_discrete init
    get_entry get evict put len insert_header newest_first check_query result_of fetch answer
    month_of browse_in browse find_header
program = tt

abbrev header : ℕ → Option ℕ → MessageHeader
header id time = record {
  id = id;
  account_id = none;
  folder_id = none;
  subject = codes "Your receipt";
  from_name = some (codes "Cafe");
  from_address = some (codes "pay@cafe.com");
  to = [];
  received_at = time;
  has_attachments = false;
  attachment_refs = [];
  snippet = codes "$9";
  web_link = none;
  receipt_score = pos 0;
  likely_receipt = false;
  amount_hint_cents = none;
  currency_hint = none;
  vendor_hint = none;
  matched_signals = [];
}

sorted :
    newest_first 0 (header 1 (some 5) ∷ header 2 none ∷ header 3 (some 9) ∷ header 4 (some 5) ∷ [])
    ≡ header 3 (some 9) ∷ header 1 (some 5) ∷ header 4 (some 5) ∷ header 2 none ∷ []
unfolding program
sorted = refl

abbrev request : Request
request = record {
  user_id = 9;
  account = record { id = 3; provider = codes "imap"; address = codes "ada@mail.example" };
  period = codes "2026-07";
  folder_ids = [];
  subject_contains = none;
  from_contains = none;
  receipts_only = false;
  has_attachments_only = false;
  limit = 500;
}

abbrev settings : Settings
settings = record {
  search = λ query. ok (header 1 (some 5) ∷ []);
  vendors = [];
  month_window = 3;
  now = (2026, 8);
  instant = λ time. time.year;
}

-- a provider that cannot be reached
abbrev broken : MessageQuery → Result Headers
broken query = err connector_error

abbrev cache : HeaderCache Headers
cache = init (pos 300) (pos 4)

-- an empty cache is handed in, so that of the process serves
abbrev caches : Caches
caches = record { given = some (init (pos 60) (pos 2)); process_wide = cache }

abbrev first : BrowseResult
first =
    result_of request (codes "2026-07") (scored settings request 2026 (header 1 (some 5) ∷ []))
      false

outside_window :
    (browse settings (record request { period = codes "2025-07" }) 10 11 caches).1
    ≡ err invalid_period
unfolding program
outside_window = refl

switched_on : enabled (in_use caches) ≡ true
unfolding program
switched_on = refl

first_found : (browse settings request 10 11 caches).1 ≡ ok first
unfolding program
first_found = refl

first_fetched : first.from_cache ≡ false
unfolding program
first_fetched = refl

cache_ttl : (in_use caches).ttl ≡ 300
unfolding program
cache_ttl = refl

-- the cache that was handed in stays empty
stays_empty : (browse settings request 10 11 caches).0.given ≡ some (init (pos 60) (pos 2))
unfolding program
stays_empty = refl

in_order : earlier (first_instant 2026 7) (first_instant 2026 8) ≡ true
unfolding program
in_order = refl

browse_again_example :
    (headers : Headers) × (first ≡ result_of request first.period headers false)
    × ((browse
          (changed settings broken)
          (shown true request)
          200
          201
          (browse settings request 10 11 caches).0).1
        ≡ ok (result_of (shown true request) first.period headers true))
unfolding len init
browse_again_example =
    browse_again settings broken request true 10 11 200 201 caches first
      (init-IsValid (pos 300) (pos 4)) switched_on first_found first_fetched
      (omega (arith, cache_ttl))

fetch_lem_example :
    IsFetch settings request 2026
      (settings.search (query_of request (first_instant 2026 7) (first_instant 2026 8)))
      (fetch settings request (first_instant 2026 7) (first_instant 2026 8))
fetch_lem_example =
    fetch_lem settings request (first_instant 2026 7) (first_instant 2026 8) in_order
