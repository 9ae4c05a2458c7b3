-- ===== src/Cache/Tests.antt =====
-- Runs of the cache on small inputs, and each theorem at a concrete input.
use mathlib.Core.List.{foldl}
use native.Mathlib.Decide.{ℕ_discrete}
use ccreport.Prelude.{ℕ, ◌<◌, ◌≡◌, refl, List, [], ◌∷◌, false, some, none, arith}
use ccreport.Prelude.Int.{pos}
use ccreport.Prelude.Texts.{codes}
use ccreport.OrderedDict.Doomed.{delete_all, doomed_keys}
use ccreport.OrderedDict.{lookup, assign, delete, move_to_end}
use ccreport.Cache.{
  CacheKey, CacheKey-discrete, HeaderCache, init, get_entry, get, evict, put, invalidate_account,
  purge_expired, clear, len,
}
use ccreport.Cache.Invariant.{IsValid}
use ccreport.Cache.History.{Call, run, step, remember, run-IsValid, served_is_recalled}

program : Unit {0}
unfolding lookup assign delete move_to_end CacheKey-discrete ℕ_discrete init get_entry get evict put
    delete_all doomed_keys invalidate_account purge_expired clear len step
program = tt

abbrev inbox : ℕ → ℕ → CacheKey
inbox user_id account_id = record {
  user_id = user_id;
  account_id = account_id;
  period = codes "2026-07";
  folder_ids = [];
  subject_contains = none;
  from_contains = none;
  has_attachments_only = false;
}

-- Two entries fit and live for ten ticks; the headers are numbers here.
abbrev small : HeaderCache ℕ
small = record {
  ttl = 10;
  max_entries = 2;
  entries = (inbox 1 1, (20, 100)) ∷ (inbox 2 1, (25, 200)) ∷ [];
  stats = record { hits = 0; misses = 0; evictions = 0; expirations = 0 };
}

abbrev calls : List (Call ℕ)
calls =
    Call.write (inbox 1 1) 100 0
    ∷ Call.write (inbox 2 1) 200 5
    ∷ Call.read (inbox 1 1) 9
    ∷ Call.forget 2 1
    ∷ []

evicts_oldest :
    (put small (inbox 3 1) 300 18).entries ≡ (inbox 2 1, (25, 200)) ∷ (inbox 3 1, (28, 300)) ∷ []
unfolding program
evicts_oldest = refl

expires : (get small (inbox 1 1) 20).1 ≡ none
unfolding program
expires = refl

served : (get (run (init (pos 10) (pos 2)) calls) (inbox 1 1) 9).1 ≡ some 100
unfolding program
served = refl

small-IsValid : IsValid small
unfolding program
small-IsValid = record { unique = (refl, (refl, tt)); bounded = omega arith }

run-IsValid_example : IsValid (run small calls)
run-IsValid_example = run-IsValid calls small small-IsValid

served_is_recalled_example :
    (t : ℕ) × (foldl (remember 10) (λ j. none) calls (inbox 1 1) ≡ some (t, 100)) × (9 < t)
served_is_recalled_example = served_is_recalled (pos 10) (pos 2) calls (inbox 1 1) 9 100 served

found : lookup CacheKey-discrete (inbox 1 1) small.entries ≡ some (20, 100)
unfolding program
found = refl
