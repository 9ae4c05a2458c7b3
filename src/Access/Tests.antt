-- ===== src/Access/Tests.antt =====
-- Runs of the access list on small inputs, and each theorem at a concrete input.
use native.Mathlib.Decide.{ℕ_discrete}
use ccreport.Prelude.{◌≡◌, ◌↔◌, refl, List, [], ◌∷◌, true, false, ◌||◌, some, none}
use ccreport.Prelude.Texts.{
  Text, codes, strip, lstrip, rstrip, push_unless_blank, is_space, lower, lower_code, normalised,
  ends_with, Text-discrete, contains,
}
use ccreport.Errors.{ok, err, domain_denied, insufficient_role}
use ccreport.OrderedDict.{lookup, assign, delete, IsDict}
use ccreport.OrderedDict.Doomed.{delete_all, doomed_keys}
use ccreport.Audit.{audit, recorded_actor}
use ccreport.Access.{
  faculty, admin, role_eq, known_role, Grant, User, Db, Principal, domain_allowed, lookup_grant,
  has_role, shown_name, signed_in, touched, lacks_role, admit, authorize, new_note, granted,
  cache_role, grant_access, revoke_access,
}
use ccreport.Access.Gates.{meets, written, authorize-ok_iff}
use ccreport.Access.Grants.{IsValid}
use ccreport.Access.Seeding.{
  text_lt, sorted_insert, sorted_set, seed_role, seed_one, seed_all, remove_stale,
  bootstrap_allow_list,
}
use ccreport.Access.Seeding.Laws.{reconciled, lookup-bootstrap}

program : Unit {0}
unfolding strip lstrip rstrip push_unless_blank is_space lower lower_code ends_with Text-discrete
    ℕ_discrete lookup assign delete delete_all doomed_keys audit recorded_actor role_eq known_role
    domain_allowed lookup_grant has_role shown_name signed_in touched lacks_role admit authorize
    new_note granted cache_role grant_access revoke_access text_lt sorted_insert sorted_set
    seed_role seed_one seed_all remove_stale bootstrap_allow_list
program = tt

abbrev ada : Text
ada = codes "ada@princeton.edu"

abbrev domain : Text
domain = codes "princeton.edu"

abbrev by_hand : Grant
by_hand = record { role = faculty; added_by = none; note = none; seeded = false }

abbrev db : Db
db = record {
  allowed = (ada, by_hand) ∷ (codes "old@princeton.edu", record by_hand { seeded = true }) ∷ [];
  users = [];
  log = [];
}

abbrev no_db : Db
no_db = record { allowed = []; users = []; log = [] }

-- The header may spell the upn with capitals and spaces.
abbrev principal : Principal
principal = record { upn = codes " Ada@Princeton.EDU "; display_name = some (codes "Ada") }

abbrev stranger : Principal
stranger = record { upn = codes "eve@example.edu"; display_name = none }

abbrev ada_user : User
ada_user = record {
  id = 7;
  upn = ada;
  display_name = some (codes "Ada");
  role = faculty;
  last_seen_at = some 100;
}

ada_signs_in : (authorize domain db principal (some faculty) true 7 100).0 ≡ ok ada_user
unfolding program
ada_signs_in = refl

stranger_denied : (authorize domain db stranger none true 7 100).0 ≡ err domain_denied
unfolding program
stranger_denied = refl

ada_is_no_admin : (authorize domain db principal (some admin) true 7 100).0 ≡ err insufficient_role
unfolding program
ada_is_no_admin = refl

db-IsValid : IsValid db
unfolding program
db-IsValid = record { one_grant = (refl, (refl, tt)); one_user = tt }

ada_inside : domain_allowed (normalised ada) domain ≡ true
unfolding program
ada_inside = refl

authorize-ok_iff_example :
    ((authorize domain db principal (some faculty) true 7 100).0 ≡ ok ada_user) ↔ (
      (domain_allowed (normalised principal.upn) domain ≡ true)
      × ((grant : Grant) × (lookup_grant db (normalised principal.upn) ≡ some grant)
          × (meets grant.role (some faculty) ≡ true)
          × (ada_user ≡ written domain db principal (some faculty) true 7 100 grant)
          × (ada_user.role ≡ grant.role)))
authorize-ok_iff_example = authorize-ok_iff domain db principal (some faculty) true 7 100 ada_user

abbrev ada_admin : Grant
ada_admin = record by_hand { role = admin }

abbrev promoted : Db
promoted = record {
  allowed = (ada, ada_admin) ∷ (codes "old@princeton.edu", record by_hand { seeded = true }) ∷ [];
  users = [];
  log = audit none "allowlist.grant" (ccreport.Audit.Subject.principal ada) [];
}

promotes : grant_access db ada admin none none ≡ ok (ada_admin, promoted)
unfolding program
promotes = refl

abbrev seeds : List Text
seeds = codes "bob@princeton.edu" ∷ ada ∷ []

-- Ada's grant was made by hand and stays; the old seed goes and Bob's comes.
reconciles : (bootstrap_allow_list db seeds (ada ∷ [])).0 ≡ 2
unfolding program
reconciles = refl

lookup-bootstrap_example :
    (let after = (bootstrap_allow_list db seeds (ada ∷ [])).1 in
      (lookup Text-discrete ada after.allowed
        ≡ reconciled
            (contains ada seeds || contains ada (ada ∷ []))
            (seed_role (ada ∷ []) ada)
            (lookup Text-discrete ada db.allowed))
      × IsDict Text-discrete after.allowed
      × (after.users ≡ db.users)
      × (after.log ≡ db.log))
lookup-bootstrap_example = lookup-bootstrap db seeds (ada ∷ []) ada db-IsValid.one_grant
