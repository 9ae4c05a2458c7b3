-- ===== src/Cache/Laws.antt =====
-- What the eviction loop of the cache computes (src/ccreport/cache.py, `put`).
use ccreport.Prelude.{
  ℕ, suc, ◌-◌, ◌≡◌, refl, List, [], ◌∷◌, arith, ltb, length, drop, Bool-cases, inl, inr,
}
use ccreport.OrderedDict.{IsDict}
use ccreport.Cache.{CacheKey, CacheKey-discrete, evict}

abbrev pub Entries : Type 0 → Type 0
Entries V = List (CacheKey × (ℕ × V))

module _ {V : Type 0} where
  -- No key twice.
  abbrev pub HasUniqueKeys : Entries V → Type 0
  HasUniqueKeys = IsDict CacheKey-discrete

  -- Eviction drops the oldest entries, exactly as many as there are too many.
  pub evict_lem : (m : ℕ) (d : Entries V) → evict m d ≡ (drop (length d - m) d, length d - m)
  unfolding evict
  evict_lem m [] = ground arith
  evict_lem m (e ∷ d) = elim (Bool-cases (ltb m (suc (length d)))) [
    | inl over ↦
        let s : suc (length d) - m ≡ suc (length d - m) = ground arith in
        rw (over, s, evict_lem m d) (ground arith)
    | inr fits ↦ let s : suc (length d) - m ≡ 0 = ground arith in rw (fits, s) refl
  ]
