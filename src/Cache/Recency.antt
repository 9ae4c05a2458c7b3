-- ===== src/Cache/Recency.antt =====
-- Least recently used goes first (src/ccreport/cache.py, `put` and `get`).
use mathlib.Core.Logic.{if_pos}
use ccreport.Prelude.{
  ℕ, zero, suc, ◌+◌, ◌-◌, ◌≤◌, ◌<◌, ◌≡◌, ◌∙◌, refl, true, some, none, [], ◌∷◌, ◌++◌, arith, ltb,
  if◌then◌else◌, length, drop, length-append,
}
use ccreport.OrderedDict.{
  lookup, delete, lookup-delete, move_to_end-assign, move_to_end_there, lookup_head, lookup_tail,
}
use ccreport.Cache.{CacheKey, CacheKey-discrete, HeaderCache, enabled, get_entry, get, put}
use ccreport.Cache.Laws.{Entries}
use ccreport.Cache.Invariant.{IsValid, entries-put}

module _ {V : Type 0} where
  lookup-drop_last :
      (n : ℕ) (k : CacheKey) (e : ℕ × V) (d : Entries V)
      → n ≤ length d
      → lookup CacheKey-discrete k d ≡ none
      → lookup CacheKey-discrete k (drop n (d ++ (k, e) ∷ [])) ≡ some e
  lookup-drop_last zero k e [] le h = lookup_head CacheKey-discrete k e []
  lookup-drop_last zero k e ((j, w) ∷ d) le h = elim (CacheKey-discrete j k) [
    | yes p ↦ absurd (unfold lookup in ground arith)
    | no p ↦
        lookup_tail CacheKey-discrete k j w (d ++ (k, e) ∷ []) p
        ∙ lookup-drop_last zero k e d (omega arith) (unfold lookup in ground arith)
  ]
  lookup-drop_last (suc n) k e [] le h = absurd (omega arith)
  lookup-drop_last (suc n) k e ((j, w) ∷ d) le h = elim (CacheKey-discrete j k) [
    | yes p ↦ absurd (unfold lookup in ground arith)
    | no p ↦ lookup-drop_last n k e d (omega arith) (unfold lookup in ground arith)
  ]

  -- After `put` the cache holds the new entry last, behind the other entries in their order, and
  -- of these the newest that fit: what is evicted is always the least recently used.
  pub put-newest :
      (c : HeaderCache V) (k : CacheKey) (v : V) (now : ℕ)
      → enabled c ≡ true
      → (let others = delete CacheKey-discrete k c.entries in
          (put c k v now).entries
          ≡ drop (length others + 1 - c.max_entries) (others ++ (k, (now + c.ttl, v)) ∷ []))
  put-newest c k v now on =
      let others = delete CacheKey-discrete k c.entries in
      let moved = move_to_end-assign CacheKey-discrete k (now + c.ttl, v) c.entries in
      rw (entries-put c k v now on, moved, length-append others ((k, (now + c.ttl, v)) ∷ [])) refl

  -- A read that is served moves its entry behind all the others and changes no other.
  pub get-moves :
      (c : HeaderCache V) (k : CacheKey) (now : ℕ) (v : V) (t : ℕ)
      → enabled c ≡ true
      → lookup CacheKey-discrete k c.entries ≡ some (t, v)
      → now < t
      → (get c k now).0.entries ≡ delete CacheKey-discrete k c.entries ++ (k, (t, v)) ∷ []
  unfolding get get_entry
  get-moves c k now v t on e l =
      rw (on, e, get_entry)
        (ground (arith, move_to_end_there CacheKey-discrete k c.entries {v = (t, v)} e))

  lookup-put_self :
      (c : HeaderCache V) (k : CacheKey) (v : V) (now : ℕ)
      → IsValid c
      → enabled c ≡ true
      → lookup CacheKey-discrete k (put c k v now).entries ≡ some (now + c.ttl, v)
  lookup-put_self c k v now h on =
      let others = delete CacheKey-discrete k c.entries in
      let gone =
        lookup-delete CacheKey-discrete k k c.entries h.unique
        ∙ if_pos (CacheKey-discrete k k) refl _ _ in
      let most : 0 < c.max_entries = ground arith in
      rw (put-newest c k v now on) (
        lookup-drop_last (length others + 1 - c.max_entries) k (now + c.ttl, v) others (omega arith)
          gone)

  put-settings :
      (c : HeaderCache V) (k : CacheKey) (v : V) (now : ℕ)
      → ((put c k v now).ttl ≡ c.ttl) × ((put c k v now).max_entries ≡ c.max_entries)
  unfolding put
  put-settings c k v now = ground arith

  put-enabled :
      (c : HeaderCache V) (k : CacheKey) (v : V) (now : ℕ)
      → enabled c ≡ true
      → enabled (put c k v now) ≡ true
  put-enabled c k v now on = let s = put-settings c k v now in ground arith

  -- What was just put is served until its time to live has passed, and not after.
  pub get-put_self :
      (c : HeaderCache V) (k : CacheKey) (v : V) (now later : ℕ)
      → IsValid c
      → enabled c ≡ true
      → (get (put c k v now) k later).1 ≡ (if ltb later (now + c.ttl) then some v else none)
  unfolding get get_entry
  get-put_self c k v now later h on =
      rw (put-enabled c k v now on, lookup-put_self c k v now h on, get_entry) (ground arith)
