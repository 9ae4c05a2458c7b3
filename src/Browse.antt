-- ===== src/Browse.antt =====
-- src/ccreport/browse.py: browsing a month of a mailbox, through the header cache. The connector's
-- search is an argument, and so are the readings of the clocks.
pub mod Views
pub mod Sorted
mod Tests
use ccreport.Prelude.{
  ℕ, ◌==◌, Bool, true, false, not, Option, none, some, List, [], ◌∷◌, map, if◌then◌else◌, leb,
  length, keep, find,
}
use ccreport.Prelude.Texts.{Text}
use ccreport.Errors.{Error, Result, ok, err, value_error, ◌>>=◌, ◌>>◌, raise_if}
use ccreport.Connectors.{MessageHeader}
use ccreport.Cache.{CacheKey, HeaderCache, get, put, len}
use ccreport.Period.{clamp_period, format_period}
use ccreport.Period.Calendar.{DateTime, month_bounds, earlier}
use ccreport.Reports.Model.{MailAccount}
use ccreport.Filters.{header_matches, score_message}

pub record MessageQuery : Type 0 where
  pub start : DateTime
  pub end : DateTime
  pub folder_ids : List ℕ
  pub subject_contains : Option Text
  pub from_contains : Option Text
  pub has_attachments_only : Bool
  pub limit : ℕ

-- `MessageQuery.__post_init__`; all times are in UTC
unfoldable pub check_query : MessageQuery → Result MessageQuery
check_query query = do raise_if (not (earlier query.start query.end)) value_error; ok query

-- The arguments of `browse` that say what is asked for.
pub record Request : Type 0 where
  pub user_id : ℕ
  pub account : MailAccount
  pub period : Text
  pub folder_ids : List ℕ
  pub subject_contains : Option Text
  pub from_contains : Option Text
  pub receipts_only : Bool
  pub has_attachments_only : Bool
  pub limit : ℕ

-- What `browse` uses besides: the connector, the vendors of the settings, the window of months, the
-- current month, and the place of a `datetime` on the line of time.
pub record Settings : Type 0 where
  pub search : MessageQuery → Result (List MessageHeader)
  pub vendors : List (Text × Text)
  pub month_window : ℕ
  pub now : ℕ × ℕ
  pub instant : DateTime → ℕ

pub record BrowseResult : Type 0 where
  pub account_id : ℕ
  pub address : Text
  pub provider : Text
  pub period : Text
  pub headers : List MessageHeader
  pub total : ℕ
  pub likely_receipts : ℕ
  pub from_cache : Bool
  pub folder_ids : List ℕ

abbrev pub Headers : Type 0
Headers = List MessageHeader

-- `h.received_at or start`
abbrev pub time_of : ℕ → MessageHeader → ℕ
time_of start h = elim h.received_at [ none ↦ start | some time ↦ time ]

unfoldable pub insert_header : ℕ → MessageHeader → Headers → Headers
insert_header start x [] = x ∷ []
insert_header start x (y ∷ ys) =
    let rest = insert_header start x ys in
    if leb (time_of start y) (time_of start x) then x ∷ y ∷ ys else y ∷ rest

-- `headers.sort(key=..., reverse=True)`: the newest first, and equal ones in their order
unfoldable pub newest_first : ℕ → Headers → Headers
newest_first start [] = []
newest_first start (x ∷ xs) = insert_header start x (newest_first start xs)

abbrev pub is_likely : MessageHeader → Bool
is_likely h = h.likely_receipt

abbrev pub key_of : Request → ℕ → ℕ → CacheKey
key_of request year month = record {
  user_id = request.user_id;
  account_id = request.account.id;
  period = format_period year month;
  folder_ids = request.folder_ids;
  subject_contains = request.subject_contains;
  from_contains = request.from_contains;
  has_attachments_only = request.has_attachments_only;
}

abbrev pub query_of : Request → DateTime → DateTime → MessageQuery
query_of request start end = record {
  start = start;
  end = end;
  folder_ids = request.folder_ids;
  subject_contains = request.subject_contains;
  from_contains = request.from_contains;
  has_attachments_only = request.has_attachments_only;
  limit = request.limit;
}

unfoldable pub result_of : Request → Text → Headers → Bool → BrowseResult
result_of request period headers from_cache = record {
  account_id = request.account.id;
  address = request.account.address;
  provider = request.account.provider;
  period = period;
  headers = if request.receipts_only then keep is_likely headers else headers;
  total = length headers;
  likely_receipts = length (keep is_likely headers);
  from_cache = from_cache;
  folder_ids = request.folder_ids;
}

-- The cache that the caller hands in, if there is one, and the one of the process. To hand in that of
-- the process is to hand in none.
pub record Caches : Type 0 where
  pub given : Option (HeaderCache Headers)
  pub process_wide : HeaderCache Headers

-- `cache or get_header_cache(settings)`: a cache is as true as its number of entries is not 0
abbrev pub in_use : Caches → HeaderCache Headers
in_use caches = elim caches.given [
  | none ↦ caches.process_wide
  | some cache ↦ if len cache == 0 then caches.process_wide else cache
]

-- The cache in use is the same object afterwards, in a new state.
abbrev pub put_back : Caches → HeaderCache Headers → Caches
put_back caches after = elim caches.given [
  | none ↦ record caches { process_wide = after }
  | some cache ↦
      if len cache == 0
      then record caches { process_wide = after }
      else record caches { given = some after }
]

module _ (settings : Settings) where
  -- the found headers that match, scored and sorted
  unfoldable pub scored : Request → ℕ → Headers → Headers
  scored request start found = newest_first start (
      map (score_message settings.vendors none)
        (keep (header_matches request.subject_contains request.from_contains) found))

  -- the headers from the provider
  unfoldable pub fetch : Request → DateTime → DateTime → Result Headers
  fetch request start end = do
    query ← check_query (query_of request start end)
    found ← settings.search query
    ok (scored request (settings.instant start) found)

  -- the branches after the cache was asked; `later` is the clock when the headers are put into it
  unfoldable pub answer :
      Request
      → ℕ
      → CacheKey
      → Result Headers
      → HeaderCache Headers
      → Option Headers
      → HeaderCache Headers × Result BrowseResult
  answer request later key fetched cache (some headers) =
      (cache, ok (result_of request key.period headers true))
  answer request later key fetched cache none = elim fetched [
    | err e ↦ (cache, err e)
    | ok headers ↦ (put cache key headers later, ok (result_of request key.period headers false))
  ]

  -- the month that is asked for, and its bounds
  unfoldable pub month_of : Request → Result (ℕ × ℕ × DateTime × DateTime)
  month_of request = do
    (year, month) ← clamp_period request.period settings.month_window settings.now
    (start, end) ← month_bounds year month
    ok (year, month, start, end)

  -- `browse` with the cache that is in use, and the two readings of the cache's clock
  unfoldable pub browse_in :
      Request → ℕ → ℕ → HeaderCache Headers → HeaderCache Headers × Result BrowseResult
  browse_in request asked later cache = elim (month_of request) [
    | err e ↦ (cache, err e)
    | ok (year, month, start, end) ↦
        let key = key_of request year month in
        let (cache', hit) = get cache key asked in
        answer request later key (fetch request start end) cache' hit
  ]

  -- `browse`: what it does to the caches, and what it returns or raises
  unfoldable pub browse : Request → ℕ → ℕ → Caches → Caches × Result BrowseResult
  browse request asked later caches =
      let (cache, r) = browse_in request asked later (in_use caches) in (put_back caches cache, r)

  -- `find_header`: a browse without any condition, and the first header with this id
  unfoldable pub find_header :
      ℕ → MailAccount → Text → ℕ → ℕ → ℕ → Caches → Caches × Result (Option MessageHeader)
  find_header user_id account period message_id asked later caches =
      let (caches', r) =
        browse
          (record {
            user_id = user_id;
            account = account;
            period = period;
            folder_ids = [];
            subject_contains = none;
            from_contains = none;
            receipts_only = false;
            has_attachments_only = false;
            limit = 500;
          })
          asked later caches in
      (
        caches',
        elim r [ err e ↦ err e | ok result ↦ ok (find (λ h. h.id == message_id) result.headers) ],
      )
