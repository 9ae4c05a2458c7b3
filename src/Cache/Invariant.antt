-- ===== src/Cache/Invariant.antt =====
-- The invariant of the cache, and what one call does to the entries (src/ccreport/cache.py).
use ccreport.Prelude.{
  ℕ, ◌+◌, ◌-◌, ◌≤◌, ◌≡◌, true, not, ◌&&◌, Option, none, some, arith, leb, ◌==◌, if◌then◌else◌,
  length, keep, drop, Bool-cases, inl, inr, length-keep-le,
}
use ccreport.OrderedDict.{
  lookup, assign, move_to_end, delete-IsDict, assign-IsDict, length-delete-le, length-move_to_end,
  move_to_end-IsDict,
}
use ccreport.Cache.{
  CacheKey, CacheKey-discrete, HeaderCache, enabled, get_entry, get, put, of_account, has_expired,
  invalidate_account, purge_expired,
}
use ccreport.OrderedDict.Doomed.{
  length-drop, drop-IsDict, delete_all-doomed_keys, length-doomed_keys, keep-IsDict, lookup-keep,
}
use ccreport.Cache.Laws.{HasUniqueKeys, evict_lem}

pub record IsValid {V : Type 0} (c : HeaderCache V) : Type 0 where
  pub unique : HasUniqueKeys c.entries
  pub bounded : length c.entries ≤ c.max_entries

module _ {V : Type 0} (c : HeaderCache V) where
  get_entry-IsValid :
      (k : CacheKey) (now : ℕ) (o : Option (ℕ × V)) → IsValid c → IsValid (get_entry c k now o).0
  unfolding get_entry
  get_entry-IsValid k now none h = record { unique = h.unique; bounded = h.bounded }
  get_entry-IsValid k now (some (t, v)) h = elim (Bool-cases (leb t now)) [
    | inl old ↦ rw old (record {
      unique = delete-IsDict CacheKey-discrete k c.entries h.unique;
      bounded = omega (arith, length-delete-le CacheKey-discrete k c.entries);
    })
    | inr live ↦ rw live (record {
      unique = move_to_end-IsDict CacheKey-discrete k c.entries h.unique;
      bounded = omega (arith, length-move_to_end CacheKey-discrete k c.entries);
    })
  ]

  -- A read keeps the invariant.
  pub get-IsValid : (k : CacheKey) (now : ℕ) → IsValid c → IsValid (get c k now).0
  unfolding get
  get-IsValid k now h = elim (Bool-cases (enabled c)) [
    | inl on ↦ rw on (get_entry-IsValid k now (lookup CacheKey-discrete k c.entries) h)
    | inr off ↦ rw off (record { unique = h.unique; bounded = h.bounded })
  ]

  -- The entries after `put` when the cache is enabled.
  pub entries-put :
      (k : CacheKey) (v : V) (now : ℕ)
      → enabled c ≡ true
      → (put c k v now).entries ≡ (
          let d =
            move_to_end CacheKey-discrete k
              (assign CacheKey-discrete k (now + c.ttl, v) c.entries) in
          drop (length d - c.max_entries) d)
  unfolding put
  entries-put k v now h = rw h (
      ground (
        arith,
        evict_lem c.max_entries (
            move_to_end CacheKey-discrete k
              (assign CacheKey-discrete k (now + c.ttl, v) c.entries)),
      ))

  -- A write keeps the invariant: never a key twice, never more entries than the bound.
  pub put-IsValid : (k : CacheKey) (v : V) (now : ℕ) → IsValid c → IsValid (put c k v now)
  unfolding put
  put-IsValid k v now h = elim (Bool-cases (enabled c)) [
    | inl on ↦
        let d = assign CacheKey-discrete k (now + c.ttl, v) c.entries in
        let moved = move_to_end CacheKey-discrete k d in
        let unique =
          move_to_end-IsDict CacheKey-discrete k d
            (assign-IsDict CacheKey-discrete k (now + c.ttl, v) c.entries h.unique) in
        rw (on, evict_lem c.max_entries moved)
          (record {
            unique = drop-IsDict CacheKey-discrete (length moved - c.max_entries) moved unique;
            bounded =
                omega (arith, length-drop CacheKey-discrete (length moved - c.max_entries) moved);
          })
    | inr off ↦ rw off h
  ]

  pub entries-invalidate :
      (u a : ℕ)
      → HasUniqueKeys c.entries
      → (invalidate_account c u a).0.entries ≡ keep (λ e. not (of_account u a e)) c.entries
  unfolding invalidate_account
  entries-invalidate u a h = delete_all-doomed_keys CacheKey-discrete (of_account u a) c.entries h

  pub entries-purge :
      (now : ℕ)
      → HasUniqueKeys c.entries
      → (purge_expired c now).0.entries ≡ keep (λ e. not (has_expired now e)) c.entries
  unfolding purge_expired
  entries-purge now h = delete_all-doomed_keys CacheKey-discrete (has_expired now) c.entries h

  -- Dropping the entries of an account keeps the invariant, and so does purging.
  pub invalidate-IsValid : (u a : ℕ) → IsValid c → IsValid (invalidate_account c u a).0
  unfolding invalidate_account
  invalidate-IsValid u a h =
      rw (delete_all-doomed_keys CacheKey-discrete (of_account u a) c.entries h.unique) (record {
        unique = keep-IsDict CacheKey-discrete (λ e. not (of_account u a e)) c.entries h.unique;
        bounded = omega (arith, length-keep-le (λ e. not (of_account u a e)) c.entries);
      })

  pub purge-IsValid : (now : ℕ) → IsValid c → IsValid (purge_expired c now).0
  unfolding purge_expired
  purge-IsValid now h =
      rw (delete_all-doomed_keys CacheKey-discrete (has_expired now) c.entries h.unique) (record {
        unique = keep-IsDict CacheKey-discrete (λ e. not (has_expired now e)) c.entries h.unique;
        bounded = omega (arith, length-keep-le (λ e. not (has_expired now e)) c.entries);
      })

  -- Dropping the entries of a connection removes every entry of that user and account and no
  -- other, and counts the entries that it removed.
  pub invalidate-exact :
      (u a : ℕ)
      → HasUniqueKeys c.entries
      → ((k : CacheKey)
          → lookup CacheKey-discrete k (invalidate_account c u a).0.entries ≡ (
              if (k.user_id == u) && (k.account_id == a)
              then none
              else lookup CacheKey-discrete k c.entries))
        × ((invalidate_account c u a).1 + length (invalidate_account c u a).0.entries
            ≡ length c.entries)
  unfolding invalidate_account
  invalidate-exact u a h = (
    λ k.
        rw
          (
            delete_all-doomed_keys CacheKey-discrete (of_account u a) c.entries h,
            lookup-keep CacheKey-discrete (λ e. not (of_account u a e)) k c.entries h,
          )
          (ground arith),
    rw (delete_all-doomed_keys CacheKey-discrete (of_account u a) c.entries h)
        (length-doomed_keys CacheKey-discrete (of_account u a) c.entries),
  )
