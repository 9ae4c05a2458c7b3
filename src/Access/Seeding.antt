-- ===== src/Access/Seeding.antt =====
-- `bootstrap_allow_list` of src/ccreport/auth/allowlist.py: the seeded part of the access list is
-- brought in line with the settings. The two lists of upns are settings, already normalised there.
pub mod Laws
use ccreport.Prelude.{
  ℕ, ◌+◌, Bool, true, false, not, ◌&&◌, ◌||◌, Option, none, some, List, [], ◌∷◌, ◌++◌,
  if◌then◌else◌, ltb, ◌==◌, keep, length,
}
use ccreport.Prelude.Texts.{Text, codes, text_eq, Text-discrete, contains}
use ccreport.OrderedDict.{lookup, assign}
use ccreport.OrderedDict.Doomed.{delete_all, doomed_keys}
use ccreport.Access.{Role, faculty, admin, role_eq, Grant, Db}

abbrev pub Allowed : Type 0
Allowed = List (Text × Grant)

-- the order of Python's `str`
unfoldable pub text_lt : Text → Text → Bool
text_lt s [] = false
text_lt [] (d ∷ t) = true
text_lt (c ∷ s) (d ∷ t) = ltb c d || ((c == d) && text_lt s t)

-- a text put into a sorted list, unless it is there
unfoldable pub sorted_insert : Text → List Text → List Text
sorted_insert x [] = x ∷ []
sorted_insert x (y ∷ ys) =
    let rest = sorted_insert x ys in
    if text_eq x y then y ∷ ys else (if text_lt x y then x ∷ y ∷ ys else y ∷ rest)

-- `sorted(set(xs))`
unfoldable pub sorted_set : List Text → List Text
sorted_set [] = []
sorted_set (x ∷ xs) = sorted_insert x (sorted_set xs)

unfoldable pub seed_role : List Text → Text → Role
seed_role admins upn = if contains upn admins then admin else faculty

abbrev pub new_seed : Role → Grant
new_seed role = record {
  role = role;
  added_by = some (codes "settings");
  note = some (codes "seeded from CCREPORT_ALLOWED_PRINCIPALS");
  seeded = true;
}

-- one turn of the first loop: the table, and the number of changes
unfoldable pub seed_one : List Text → Text → Allowed × ℕ → Allowed × ℕ
seed_one admins upn (allowed, changed) = elim (lookup Text-discrete upn allowed) [
  | none ↦ (assign Text-discrete upn (new_seed (seed_role admins upn)) allowed, changed + 1)
  | some existing ↦
      if existing.seeded && not (role_eq existing.role (seed_role admins upn))
      then (
        assign Text-discrete upn (record existing { role = seed_role admins upn }) allowed,
        changed + 1,
      )
      else (allowed, changed)
]

-- `for upn in sorted(seed_faculty)`
unfoldable pub seed_all : List Text → List Text → Allowed × ℕ → Allowed × ℕ
seed_all admins [] acc = acc
seed_all admins (upn ∷ upns) acc = seed_all admins upns (seed_one admins upn acc)

abbrev pub is_stale : List Text → Text × Grant → Bool
is_stale seeds (upn, grant) = grant.seeded && not (contains upn seeds)

-- the second loop: the seeded rows whose upn is no seed are deleted
unfoldable pub remove_stale : List Text → Allowed × ℕ → Allowed × ℕ
remove_stale seeds (allowed, changed) =
    let doomed = doomed_keys (is_stale seeds) allowed in
    (delete_all Text-discrete doomed allowed, changed + length doomed)

unfoldable pub bootstrap_allow_list : Db → List Text → List Text → ℕ × Db
bootstrap_allow_list db faculty_list admins =
    let seeds = sorted_set (faculty_list ++ admins) in
    let (allowed, changed) = remove_stale seeds (seed_all admins seeds (db.allowed, 0)) in
    (changed, record db { allowed = allowed })
