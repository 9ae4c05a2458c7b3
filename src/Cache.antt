-- ===== src/Cache.antt =====
-- src/ccreport/cache.py: the in-process cache of browse results, bounded and expiring. A method
-- takes the reading of the clock that it makes, and returns the new cache beside its result. The
-- lock makes each method one step; a value is immutable here, so no copy is made.
pub mod Laws
pub mod Invariant
pub mod History
pub mod Recency
mod Tests
use mathlib.Core.Logic.{ite}
use native.Mathlib.Decide.{ℕ_discrete}
use ccreport.Prelude.{
  ℕ, zero, suc, ◌+◌, ◌≡◌, Bool, true, false, ◌&&◌, Option, none, some, List, [], ◌∷◌, leb, ltb,
  ◌==◌, if◌then◌else◌, length, keep, map,
}
use ccreport.Prelude.Int.{ℤ, pos_part}
use ccreport.Prelude.Texts.{Text}
use ccreport.OrderedDict.Doomed.{delete_all, doomed_keys}
use ccreport.OrderedDict.{lookup, assign, delete, move_to_end}

pub record CacheKey : Type 0 where
  pub user_id : ℕ
  pub account_id : ℕ
  pub period : Text
  pub folder_ids : List ℕ
  pub subject_contains : Option Text
  pub from_contains : Option Text
  pub has_attachments_only : Bool

-- the equality that `@dataclass(frozen=True)` gives
unfoldable pub CacheKey-discrete : Discrete CacheKey
CacheKey-discrete = hlevel ℕ_discrete

pub record CacheStats : Type 0 where
  pub hits : ℕ
  pub misses : ℕ
  pub evictions : ℕ
  pub expirations : ℕ

-- The oldest entry stands first; an entry is the time at which it expires, and the headers.
pub record HeaderCache (V : Type 0) : Type 0 where
  pub ttl : ℕ
  pub max_entries : ℕ
  pub entries : List (CacheKey × (ℕ × V))
  pub stats : CacheStats

abbrev pub no_stats : CacheStats
no_stats = record { hits = 0; misses = 0; evictions = 0; expirations = 0 }

module _ {V : Type 0} where
  -- `HeaderCache.__init__`: a negative setting counts as 0
  unfoldable pub init : ℤ → ℤ → HeaderCache V
  init ttl_seconds max_entries = record {
    ttl = pos_part ttl_seconds;
    max_entries = pos_part max_entries;
    entries = [];
    stats = no_stats;
  }

  abbrev pub enabled : HeaderCache V → Bool
  enabled c = ltb 0 c.ttl && ltb 0 c.max_entries

  -- the branches of `get` after the entry was looked up
  unfoldable pub get_entry :
      HeaderCache V → CacheKey → ℕ → Option (ℕ × V) → HeaderCache V × Option V
  get_entry c key now none =
      (record c { stats = record (c.stats) { misses = c.stats.misses + 1 } }, none)
  get_entry c key now (some (expires_at, headers)) =
      if leb expires_at now
      then (
        record c {
          entries = delete CacheKey-discrete key c.entries;
          stats = record (c.stats) {
            misses = c.stats.misses + 1;
            expirations = c.stats.expirations + 1;
          };
        },
        none,
      )
      else (
        record c {
          entries = move_to_end CacheKey-discrete key c.entries;
          stats = record (c.stats) { hits = c.stats.hits + 1 };
        },
        some headers,
      )

  unfoldable pub get : HeaderCache V → CacheKey → ℕ → HeaderCache V × Option V
  get c key now =
      if enabled c
      then get_entry c key now (lookup CacheKey-discrete key c.entries)
      else (record c { stats = record (c.stats) { misses = c.stats.misses + 1 } }, none)

  -- `while len(self._entries) > self._max`: what is left, and how many were evicted
  unfoldable pub evict : ℕ → List (CacheKey × (ℕ × V)) → List (CacheKey × (ℕ × V)) × ℕ
  evict max_entries [] = ([], 0)
  evict max_entries (e ∷ d) =
      let (rest, count) = evict max_entries d in
      if ltb max_entries (suc (length d)) then (rest, count + 1) else (e ∷ d, 0)

  unfoldable pub put : HeaderCache V → CacheKey → V → ℕ → HeaderCache V
  put c key headers now =
      if enabled c
      then (let assigned = assign CacheKey-discrete key (now + c.ttl, headers) c.entries in
          let (rest, count) = evict c.max_entries (move_to_end CacheKey-discrete key assigned) in
          record c {
            entries = rest;
            stats = record (c.stats) { evictions = c.stats.evictions + count };
          })
      else c

  abbrev pub of_account : ℕ → ℕ → CacheKey × (ℕ × V) → Bool
  of_account user_id account_id (k, _) = (k.user_id == user_id) && (k.account_id == account_id)

  abbrev pub has_expired : ℕ → CacheKey × (ℕ × V) → Bool
  has_expired now (_, (expires_at, _)) = leb expires_at now

  unfoldable pub invalidate_account : HeaderCache V → ℕ → ℕ → HeaderCache V × ℕ
  invalidate_account c user_id account_id =
      let doomed = doomed_keys (of_account user_id account_id) c.entries in
      (record c { entries = delete_all CacheKey-discrete doomed c.entries }, length doomed)

  unfoldable pub purge_expired : HeaderCache V → ℕ → HeaderCache V × ℕ
  purge_expired c now =
      let doomed = doomed_keys (has_expired now) c.entries in
      (
        record c {
          entries = delete_all CacheKey-discrete doomed c.entries;
          stats = record (c.stats) { expirations = c.stats.expirations + length doomed };
        },
        length doomed,
      )

  unfoldable pub clear : HeaderCache V → HeaderCache V
  clear c = record c { entries = [] }

  -- `len(cache)`
  unfoldable pub len : HeaderCache V → ℕ
  len c = length c.entries
