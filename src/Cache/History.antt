-- ===== src/Cache/History.antt =====
-- The cache against an ideal one that forgets nothing (src/ccreport/cache.py): whatever is served
-- was put, is not older than the time to live, and was not dropped since.
use mathlib.Core.Logic.{ite}
use mathlib.Core.List.{foldl}
use ccreport.Prelude.{
  ℕ, ◌+◌, ◌-◌, ◌<◌, ◌≡◌, ◌↔◌, refl, true, not, ◌&&◌, Option, none, some, List, [], ◌∷◌, arith, ◌==◌,
  if◌then◌else◌, length, Bool-cases, inl, inr,
}
use ccreport.Prelude.Int.{ℤ, pos_part}
use ccreport.OrderedDict.{
  lookup, assign, move_to_end, lookup-delete, lookup-assign, lookup-move_to_end, assign-IsDict,
  move_to_end-IsDict,
}
use ccreport.Cache.{
  CacheKey, CacheKey-discrete, HeaderCache, init, enabled, get_entry, get, put, has_expired,
  invalidate_account, purge_expired, clear,
}
use ccreport.OrderedDict.Doomed.{lookup-drop, lookup-keep}
use ccreport.Cache.Invariant.{
  IsValid, get-IsValid, put-IsValid, invalidate-IsValid, purge-IsValid, entries-put, entries-purge,
  invalidate-exact,
}

-- The calls of the cache's methods, each with the reading of the clock that it makes.
pub data Call (V : Type 0) : Type 0 where
  read : CacheKey → ℕ → Call V
  write : CacheKey → V → ℕ → Call V
  forget : ℕ → ℕ → Call V
  purge : ℕ → Call V
  reset : Call V

-- What was last put under each key, with the time at which it expires.
abbrev pub Recall : Type 0 → Type 0
Recall V = CacheKey → Option (ℕ × V)

ttl-init : (V : Type 0) (t m : ℤ) → (init {V = V} t m).ttl ≡ pos_part t
unfolding init
ttl-init V t m = refl

module _ {V : Type 0} where
  -- One call, its result left aside.
  unfoldable pub step : HeaderCache V → Call V → HeaderCache V
  step c (read k now) = (get c k now).0
  step c (write k v now) = put c k v now
  step c (forget u a) = (invalidate_account c u a).0
  step c (purge now) = (purge_expired c now).0
  step c reset = clear c

  abbrev pub run : HeaderCache V → List (Call V) → HeaderCache V
  run = foldl step

  -- A write is remembered, and the entries of a forgotten account are not.
  abbrev pub remember : ℕ → Recall V → Call V → Recall V
  remember ttl f (read k now) = f
  remember ttl f (write k v now) = λ j. ite (CacheKey-discrete k j) (some (now + ttl, v)) (f j)
  remember ttl f (forget u a) = λ j. if (j.user_id == u) && (j.account_id == a) then none else f j
  remember ttl f (purge now) = f
  remember ttl f reset = λ j. none

  step-IsValid : (c : HeaderCache V) (call : Call V) → IsValid c → IsValid (step c call)
  unfolding step clear
  step-IsValid c (read k now) h = get-IsValid c k now h
  step-IsValid c (write k v now) h = put-IsValid c k v now h
  step-IsValid c (forget u a) h = invalidate-IsValid c u a h
  step-IsValid c (purge now) h = purge-IsValid c now h
  step-IsValid c reset h = record { unique = tt; bounded = omega arith }

  -- Whatever calls are made of a new cache, no key stands in it twice and it never holds more
  -- entries than its bound.
  pub run-IsValid : (calls : List (Call V)) (c : HeaderCache V) → IsValid c → IsValid (run c calls)
  run-IsValid [] c h = h
  run-IsValid (call ∷ calls) c h = run-IsValid calls (step c call) (step-IsValid c call h)

  -- Every entry of the cache is what the ideal cache recalls.
  abbrev pub Recalls : HeaderCache V → Recall V → Type 0
  Recalls c f =
      (k : CacheKey) (e : ℕ × V) → lookup CacheKey-discrete k c.entries ≡ some e → f k ≡ some e

  get_entry-Recalls :
      (c : HeaderCache V) (k : CacheKey) (now : ℕ) (o : Option (ℕ × V)) (f : Recall V)
      → IsValid c
      → Recalls c f
      → Recalls (get_entry c k now o).0 f
  unfolding get_entry
  get_entry-Recalls c k now none f h r = r
  get_entry-Recalls c k now (some (t, v)) f h r = λ j e. ground (
    arith,
    r j e,
    lookup-delete CacheKey-discrete k j c.entries h.unique,
    lookup-move_to_end CacheKey-discrete k j c.entries h.unique,
  )

  put-Recalls :
      (ttl : ℕ) (c : HeaderCache V) (k : CacheKey) (v : V) (now : ℕ) (f : Recall V)
      → IsValid c
      → enabled c ≡ true
      → c.ttl ≡ ttl
      → Recalls c f
      → Recalls (put c k v now) (remember ttl f (write k v now))
  put-Recalls ttl c k v now f h on same r = λ j e found.
      let d = assign CacheKey-discrete k (now + c.ttl, v) c.entries in
      let moved = move_to_end CacheKey-discrete k d in
      let unique = assign-IsDict CacheKey-discrete k (now + c.ttl, v) c.entries h.unique in
      let there =
        lookup-drop CacheKey-discrete (length moved - c.max_entries) j moved {e = e}
          (move_to_end-IsDict CacheKey-discrete k d unique)
          (rw (entries-put c k v now on) at found) in
      ground (
        arith,
        r j e,
        lookup-move_to_end CacheKey-discrete k j d unique,
        lookup-assign CacheKey-discrete k j (now + c.ttl, v) c.entries,
      )

  forget-Recalls :
      (c : HeaderCache V) (u a : ℕ) (f : Recall V)
      → IsValid c
      → Recalls c f
      → Recalls (invalidate_account c u a).0 (remember 0 f (forget u a))
  forget-Recalls c u a f h r =
      λ j e found. ground (arith, r j e, (invalidate-exact c u a h.unique).0 j)

  purge-Recalls :
      (c : HeaderCache V) (now : ℕ) (f : Recall V)
      → IsValid c
      → Recalls c f
      → Recalls (purge_expired c now).0 f
  purge-Recalls c now f h r = λ j e found.
      let kept =
        rw
          (
            entries-purge c now h.unique,
            lookup-keep CacheKey-discrete (λ x. not (has_expired now x)) j c.entries h.unique,
          )
          at found in
      ground (arith, r j e)

  read-Recalls :
      (c : HeaderCache V) (k : CacheKey) (now : ℕ) (f : Recall V)
      → IsValid c
      → enabled c ≡ true
      → Recalls c f
      → Recalls (get c k now).0 f
  unfolding get
  read-Recalls c k now f h on r =
      rw on (get_entry-Recalls c k now (lookup CacheKey-discrete k c.entries) f h r)

  step-Recalls :
      (ttl : ℕ) (c : HeaderCache V) (call : Call V) (f : Recall V)
      → IsValid c
      → enabled c ≡ true
      → c.ttl ≡ ttl
      → Recalls c f
      → Recalls (step c call) (remember ttl f call)
  unfolding step clear lookup
  step-Recalls ttl c (read k now) f h on same r = read-Recalls c k now f h on r
  step-Recalls ttl c (write k v now) f h on same r = put-Recalls ttl c k v now f h on same r
  step-Recalls ttl c (forget u a) f h on same r = forget-Recalls c u a f h r
  step-Recalls ttl c (purge now) f h on same r = purge-Recalls c now f h r
  step-Recalls ttl c reset f h on same r = λ j e found. cc

  -- No call changes the settings.
  step-settings :
      (c : HeaderCache V) (call : Call V)
      → ((step c call).ttl ≡ c.ttl) × ((step c call).max_entries ≡ c.max_entries)
  unfolding step get get_entry put invalidate_account purge_expired clear
  step-settings c (read k now) = ground arith
  step-settings c _ = ground arith

  run-Recalls :
      (ttl : ℕ) (calls : List (Call V)) (c : HeaderCache V) (f : Recall V)
      → IsValid c
      → enabled c ≡ true
      → c.ttl ≡ ttl
      → Recalls c f
      → Recalls (run c calls) (foldl (remember ttl) f calls)
  run-Recalls ttl [] c f h on same r = r
  run-Recalls ttl (call ∷ calls) c f h on same r =
      let (t, m) = step-settings c call in
      run-Recalls ttl calls (step c call) (remember ttl f call) (step-IsValid c call h)
        (ground arith) (ground arith) (step-Recalls ttl c call f h on same r)

  get_entry_served :
      (c : HeaderCache V) (k : CacheKey) (now : ℕ) (v : V) (o : Option (ℕ × V))
      → (get_entry c k now o).1 ≡ some v
      → (t : ℕ) × (o ≡ some (t, v)) × (now < t)
  unfolding get_entry
  get_entry_served c k now v none e = cc
  get_entry_served c k now v (some (t, w)) e = (t, ground arith, ground arith)

  get_served :
      (c : HeaderCache V) (k : CacheKey) (now : ℕ) (v : V)
      → (get c k now).1 ≡ some v
      → (enabled c ≡ true)
        × ((t : ℕ) × (lookup CacheKey-discrete k c.entries ≡ some (t, v)) × (now < t))
  unfolding get
  get_served c k now v e = elim (Bool-cases (enabled c)) [
    | inl on ↦ (on, get_entry_served c k now v (lookup CacheKey-discrete k c.entries) (rw on at e))
    | inr off ↦ absurd (ground arith)
  ]

  get_of_entry :
      (c : HeaderCache V) (k : CacheKey) (now : ℕ) (v : V) (t : ℕ)
      → enabled c ≡ true
      → lookup CacheKey-discrete k c.entries ≡ some (t, v)
      → now < t
      → (get c k now).1 ≡ some v
  unfolding get get_entry
  get_of_entry c k now v t on e l = rw (on, e, get_entry) (ground arith)

  -- A read is served exactly when the cache is enabled and holds an entry for the key that has
  -- not expired, and then with that entry.
  pub get_iff :
      (c : HeaderCache V) (k : CacheKey) (now : ℕ) (v : V)
      → ((get c k now).1 ≡ some v) ↔ (
          (enabled c ≡ true)
          × ((t : ℕ) × (lookup CacheKey-discrete k c.entries ≡ some (t, v)) × (now < t)))
  get_iff c k now v = (get_served c k now v, λ e. get_of_entry c k now v e.1.0 e.0 e.1.1 e.1.2)

  run-enabled :
      (calls : List (Call V)) (c : HeaderCache V) → enabled (run c calls) ≡ true → enabled c ≡ true
  run-enabled [] c h = h
  run-enabled (call ∷ calls) c h =
      let (t, m) = step-settings c call in
      let on = run-enabled calls (step c call) h in ground arith

  pub init-IsValid : (t m : ℤ) → IsValid (init {V = V} t m)
  unfolding init
  init-IsValid t m = record { unique = tt; bounded = omega arith }

  init-empty :
      (t m : ℤ) (k : CacheKey) (e : ℕ × V)
      → lookup CacheKey-discrete k (init t m).entries ≡ some e
      → none ≡ some e
  unfolding init lookup
  init-empty t m k e h = h

  -- Whatever a new cache serves after any calls is what was last put under that key, put less
  -- than the time to live before, and not dropped with its account since.
  pub served_is_recalled :
      (ttl_seconds max_entries : ℤ) (calls : List (Call V)) (k : CacheKey) (now : ℕ) (v : V)
      → (get (run (init ttl_seconds max_entries) calls) k now).1 ≡ some v
      → (t : ℕ) × (foldl (remember (pos_part ttl_seconds)) (λ j. none) calls k ≡ some (t, v))
        × (now < t)
  served_is_recalled ttl_seconds max_entries calls k now v e =
      let c = run (init ttl_seconds max_entries) calls in
      let (on, (t, found, live)) = get_served c k now v e in
      let start = init {V = V} ttl_seconds max_entries in
      let recalled =
        run-Recalls (pos_part ttl_seconds) calls start (λ j. none)
          (init-IsValid ttl_seconds max_entries) (run-enabled calls start on)
          (ttl-init V ttl_seconds max_entries)
          (λ j x h. init-empty ttl_seconds max_entries j x h) in
      (t, recalled k (t, v) found, live)
