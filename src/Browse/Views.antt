-- ===== src/Browse/Views.antt =====
-- Browsing again, and showing less (src/ccreport/browse.py).
use ccreport.Prelude.{
  ℕ, ◌+◌, ◌<◌, ◌≡◌, refl, sym, ap, ◌∙◌, Bool, true, false, Option, none, some, arith, ltb, lt→ltb,
  inl, inr, ◌==◌, Bool-cases, List, length, [], ◌∷◌,
}
use ccreport.Errors.{Error, Result, ok, err, Result-cases}
use ccreport.OrderedDict.{lookup}
use ccreport.Cache.{CacheKey, HeaderCache, enabled, get, put, get_entry, len}
use ccreport.Cache.Invariant.{IsValid, get-IsValid}
use ccreport.Cache.Recency.{get-put_self}
use ccreport.Period.{format_period}
use ccreport.Period.Calendar.{DateTime}
use ccreport.Browse.{
  Headers, MessageQuery, Request, Settings, BrowseResult, key_of, result_of, fetch, answer,
  month_of, browse_in, browse, Caches, in_use, put_back,
}

get-settings :
    (c : HeaderCache Headers) (k : CacheKey) (now : ℕ)
    → ((get c k now).0.ttl ≡ c.ttl) × (enabled (get c k now).0 ≡ enabled c)
unfolding get get_entry
get-settings c k now = ground arith

-- An answer that is not from the cache is put into it.
answer_missed :
    (settings : Settings) (request : Request) (later : ℕ) (key : CacheKey)
    (fetched : Result Headers) (c : HeaderCache Headers) (hit : Option Headers)
    (first : BrowseResult)
    → (answer settings request later key fetched c hit).1 ≡ ok first
    → first.from_cache ≡ false
    → (headers : Headers) × (first ≡ result_of request key.period headers false)
      × ((answer settings request later key fetched c hit).0 ≡ put c key headers later)
unfolding answer result_of
answer_missed settings request later key fetched c (some headers) first h missed =
    absurd (ground (arith, h, missed))
answer_missed settings request later key (err e) c none first h missed = absurd (ground (arith, h))
answer_missed settings request later key (ok headers) c none first h missed =
    let same : result_of request key.period headers false ≡ first = cc in (headers, sym same, refl)

period_said :
    (request : Request) (key : CacheKey) (first : BrowseResult) (headers : Headers)
    → first ≡ result_of request key.period headers false
    → first.period ≡ key.period
unfolding result_of
period_said request key first headers e = ap (λ r. r.period) e

-- the same request, to show all headers or the likely ones
abbrev pub shown : Bool → Request → Request
shown receipts_only request = record request { receipts_only = receipts_only }

browse_of_month :
    (settings : Settings) (request : Request) (asked later : ℕ) (c : HeaderCache Headers)
    (year month : ℕ) (start end : DateTime)
    → month_of settings request ≡ ok (year, month, start, end)
    → browse_in settings request asked later c
      ≡ answer settings request later
          (key_of request year month)
          (fetch settings request start end)
          (get c (key_of request year month) asked).0
          (get c (key_of request year month) asked).1
unfolding browse_in
browse_of_month settings request asked later c year month start end e = rw (e, browse_in) refl

browse_failed :
    (settings : Settings) (request : Request) (asked later : ℕ) (c : HeaderCache Headers)
    (e : Error)
    → month_of settings request ≡ err e
    → browse_in settings request asked later c ≡ (c, err e)
unfolding browse_in
browse_failed settings request asked later c e h = rw (h, browse_in) refl

in_use-put_back :
    (given : Option (HeaderCache Headers)) (process_wide after : HeaderCache Headers)
    → (len after == 0) ≡ false
    → in_use (put_back (record { given = given; process_wide = process_wide }) after) ≡ after
in_use-put_back none process_wide after filled = refl
in_use-put_back (some cache) process_wide after filled = elim (Bool-cases (len cache == 0)) [
  | inl empty ↦ rw (empty, empty) refl
  | inr some_there ↦ rw (some_there, filled) refl
]

empty_of_len :
    (entries : List (CacheKey × (ℕ × Headers))) → (length entries == 0) ≡ true → entries ≡ []
empty_of_len [] h = refl
empty_of_len (e ∷ entries) h = absurd (ground (arith, h))

-- A cache that answers is not empty.
filled_of_hit :
    (c : HeaderCache Headers) (k : CacheKey) (now : ℕ) (headers : Headers)
    → (get c k now).1 ≡ some headers
    → (len c == 0) ≡ false
unfolding get get_entry len lookup
filled_of_hit c k now headers h = elim (Bool-cases (length c.entries == 0)) [
  | inr filled ↦ filled
  | inl empty ↦
      let none_there = empty_of_len c.entries empty in
      let missed : (get c k now).1 ≡ none = elim (Bool-cases (enabled c)) [
        | inl on ↦ rw (on, none_there, get) refl
        | inr off ↦ rw (off, get) refl
      ] in
      absurd (ground (arith, missed, h))
]

module _ (settings : Settings) (search : MessageQuery → Result Headers) where
  -- the same settings, with another provider
  abbrev pub changed : Settings
  changed = record settings { search = search }

  month_same :
      (request : Request) (view : Bool)
      → month_of changed (shown view request) ≡ month_of settings request
  unfolding month_of
  month_same request view = refl

  -- A browse of a month that is in the cache answers from there.
  browse_hit :
      (request : Request) (view : Bool) (asked later : ℕ) (c : HeaderCache Headers) (year month : ℕ)
      (start end : DateTime) (headers : Headers)
      → month_of settings request ≡ ok (year, month, start, end)
      → (get c (key_of request year month) asked).1 ≡ some headers
      → (browse_in changed (shown view request) asked later c).1
        ≡ ok (result_of (shown view request) (format_period year month) headers true)
  unfolding answer
  browse_hit request view asked later c year month start end headers e hit =
      ap (λ p. p.1)
        (browse_of_month changed (shown view request) asked later c year month start end
          (month_same request view ∙ e))
      ∙ rw (hit, answer) refl

  -- the same of one cache
  browse_in_again :
      (request : Request) (view : Bool) (asked later asked' later' : ℕ) (c : HeaderCache Headers)
      (first : BrowseResult)
      → IsValid c
      → enabled c ≡ true
      → (browse_in settings request asked later c).1 ≡ ok first
      → first.from_cache ≡ false
      → asked' < later + c.ttl
      → (headers : Headers) × (first ≡ result_of request first.period headers false)
        × ((browse_in changed
              (shown view request)
              asked'
              later'
              (browse_in settings request asked later c).0).1
            ≡ ok (result_of (shown view request) first.period headers true))
        × ((len (browse_in settings request asked later c).0 == 0) ≡ false)
  browse_in_again request view asked later asked' later' c first valid on returned missed fresh =
      elim (Result-cases (month_of settings request)) [
        | inl (e, raised) ↦
            let stopped : err e ≡ ok first =
              sym (ap (λ p. p.1) (browse_failed settings request asked later c e raised))
              ∙ returned in
            absurd (ground (arith, stopped))
        | inr ((year, month, start, end), parsed) ↦
            let key = key_of request year month in
            let whole =
              browse_of_month settings request asked later c year month start end parsed in
            let outcome : (answer settings request later key (fetch settings request start end)
                  (get c key asked).0 (get c key asked).1).1
                ≡ ok first =
              sym (ap (λ p. p.1) whole) ∙ returned in
            let (headers, said, stored) =
              answer_missed settings request later key (fetch settings request start end)
                (get c key asked).0 (get c key asked).1 first outcome missed in
            let c' = (get c key asked).0 in
            let settled = get-settings c key asked in
            let kept : (browse_in settings request asked later c).0 ≡ put c' key headers later =
              ap (λ p. p.0) whole ∙ stored in
            let soon : ltb asked' (later + c'.ttl) ≡ true =
              lt→ltb asked' (later + c'.ttl) (omega (arith, fresh, settled.0)) in
            let served : (get (put c' key headers later) key asked').1 ≡ some headers =
              get-put_self c' key headers later asked' (get-IsValid c key asked valid)
                (settled.1 ∙ on)
              ∙ rw soon refl in
            let month_said : first.period ≡ format_period year month =
              period_said request key first headers said in
            (
              headers,
              said ∙ ap (λ p. result_of request p headers false) (sym month_said),
              ap (λ d. (browse_in changed (shown view request) asked' later' d).1) kept
                  ∙ browse_hit request view asked' later' (put c' key headers later) year month
                      start end headers parsed served
                  ∙ ap (λ p. ok (result_of (shown view request) p headers true)) (sym month_said),
              ap (λ d. len d == 0) kept
                  ∙ filled_of_hit (put c' key headers later) key asked' headers served,
            )
      ]

  -- If a browse got its headers from the provider and put them into a cache that is switched on, then
  -- until that cache's time to live has passed every browse of the same month with the same conditions,
  -- and with the same caches, is answered from the cache, with those headers: whatever the provider would
  -- answer now, and whether all headers are to be shown or the likely receipts only, which changes what is
  -- shown and neither the total nor the number of likely receipts. The cache in use is the one that the
  -- caller hands in unless it is empty, and that of the process otherwise.
  pub browse_again :
      (request : Request) (view : Bool) (asked later asked' later' : ℕ) (caches : Caches)
      (first : BrowseResult)
      → IsValid (in_use caches)
      → enabled (in_use caches) ≡ true
      → (browse settings request asked later caches).1 ≡ ok first
      → first.from_cache ≡ false
      → asked' < later + (in_use caches).ttl
      → (headers : Headers) × (first ≡ result_of request first.period headers false)
        × ((browse changed
              (shown view request)
              asked'
              later'
              (browse settings request asked later caches).0).1
            ≡ ok (result_of (shown view request) first.period headers true))
  unfolding browse
  browse_again request view asked later asked' later' caches first valid on returned missed fresh =
      let used = in_use caches in
      let left = (browse_in settings request asked later used).0 in
      let (headers, said, served, filled) =
        browse_in_again request view asked later asked' later' used first valid on returned missed
          fresh in
      let still : in_use (put_back caches left) ≡ left =
        in_use-put_back caches.given caches.process_wide left filled in
      (
        headers,
        said,
        ap (λ d. (browse_in changed (shown view request) asked' later' d).1) still ∙ served,
      )
