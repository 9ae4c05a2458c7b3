-- ===== src/Access.antt =====
-- src/ccreport/auth/allowlist.py: the access list, and the two gates that every request passes. The
-- tables `allowed_principals` and `users` are association lists over the upn, which is the key of
-- the first and unique in the second; a new row's id and the time are arguments.
pub mod Gates
pub mod Grants
pub mod Seeding
mod Tests
use ccreport.Prelude.{
  ℕ, ◌+◌, Bool, true, false, not, ◌&&◌, ◌||◌, Option, none, some, List, [], ◌∷◌, ◌++◌,
  if◌then◌else◌, ltb, ◌==◌, is_some,
}
use ccreport.Prelude.Texts.{Text, text_eq, normalised, ends_with, Text-discrete, contains}
use ccreport.Errors.{
  Error, Result, ok, err, domain_denied, not_on_allow_list, insufficient_role, value_error,
}
use ccreport.OrderedDict.{lookup, assign, delete}
use ccreport.Audit.{AuditLog, Subject, audit}

-- `ROLES`, and any other text
pub data Role : Type 0 where
  faculty admin : Role
  other : Text → Role

unfoldable pub role_eq : Role → Role → Bool
role_eq faculty faculty = true
role_eq admin admin = true
role_eq (other s) (other t) = text_eq s t
role_eq _ _ = false

-- `role in ROLES`
unfoldable pub known_role : Role → Bool
known_role (other s) = false
known_role _ = true

-- a row of `AllowedPrincipal`, without its key
pub record Grant : Type 0 where
  pub role : Role
  pub added_by : Option Text
  pub note : Option Text
  pub seeded : Bool

pub record User : Type 0 where
  pub id : ℕ
  pub upn : Text
  pub display_name : Option Text
  pub role : Role
  pub last_seen_at : Option ℕ

pub record Db : Type 0 where
  pub allowed : List (Text × Grant)
  pub users : List (Text × User)
  pub log : List AuditLog

pub record Principal : Type 0 where
  pub upn : Text
  pub display_name : Option Text

unfoldable pub domain_allowed : Text → Text → Bool
domain_allowed upn [] = false
domain_allowed upn (c ∷ required) = ends_with (normalised upn) (b'@' ∷ c ∷ required)

unfoldable pub lookup_grant : Db → Text → Option Grant
lookup_grant db upn = lookup Text-discrete (normalised upn) db.allowed

unfoldable pub has_role : User → Role → Bool
has_role user faculty = known_role user.role
has_role user role = role_eq user.role role

-- `if principal.display_name and user.display_name != principal.display_name`; an empty name is
-- no name
unfoldable pub shown_name : Option Text → Option Text → Option Text
shown_name old none = old
shown_name old (some []) = old
shown_name old (some (c ∷ s)) = some (c ∷ s)

-- the `user` of `authorize` before `touch`: a new row, or the old one brought up to the grant
unfoldable pub signed_in : Principal → Text → Grant → ℕ → Option User → User
signed_in principal upn grant fresh_id none = record {
  id = fresh_id;
  upn = upn;
  display_name = principal.display_name;
  role = grant.role;
  last_seen_at = none;
}
signed_in principal upn grant fresh_id (some user) = record user {
  role = grant.role;
  display_name = shown_name user.display_name principal.display_name;
}

unfoldable pub touched : Bool → ℕ → User → User
touched touch now user = if touch then record user { last_seen_at = some now } else user

-- `if require_role and not has_role(user, require_role)`
unfoldable pub lacks_role : Option Role → User → Bool
lacks_role none user = false
lacks_role (some (other [])) user = false
lacks_role (some role) user = not (has_role user role)

-- `authorize` after the grant was found
unfoldable pub admit : Db → Principal → Text → Grant → Option Role → Bool → ℕ → ℕ → Result User × Db
admit db principal upn grant require_role touch fresh_id now =
    let user =
      touched touch now
        (signed_in principal upn grant fresh_id (lookup Text-discrete upn db.users)) in
    let db' = record db { users = assign Text-discrete upn user db.users } in
    (if lacks_role require_role user then err insufficient_role else ok user, db')

-- The first argument is the setting `required_email_domain`. The rows written before an error stay
-- in the session, so the database comes back in every case.
unfoldable pub authorize : Text → Db → Principal → Option Role → Bool → ℕ → ℕ → Result User × Db
authorize required db principal require_role touch fresh_id now =
    let upn = normalised principal.upn in
    if domain_allowed upn required
    then elim (lookup_grant db upn) [
      | none ↦ (err not_on_allow_list, db)
      | some grant ↦ admit db principal upn grant require_role touch fresh_id now
    ]
    else (err domain_denied, db)

-- `if note: existing.note = note`
unfoldable pub new_note : Option Text → Option Text → Option Text
new_note old none = old
new_note old (some []) = old
new_note old (some (c ∷ s)) = some (c ∷ s)

-- the record that `grant_access` leaves under the upn
unfoldable pub granted : Role → Option Text → Option Text → Option Grant → Grant
granted role added_by note none = record {
  role = role;
  added_by = added_by;
  note = note;
  seeded = false;
}
granted role added_by note (some existing) = record existing {
  role = role;
  seeded = false;
  note = new_note existing.note note;
}

-- the update of the cached role of the user, if there is one
unfoldable pub cache_role : Text → Role → List (Text × User) → List (Text × User)
cache_role upn role users = elim (lookup Text-discrete upn users) [
  | none ↦ users
  | some user ↦ assign Text-discrete upn (record user { role = role }) users
]

unfoldable pub grant_access : Db → Text → Role → Option Text → Option Text → Result (Grant × Db)
grant_access db upn role added_by note =
    let key = normalised upn in
    let grant = granted role added_by note (lookup Text-discrete key db.allowed) in
    if known_role role
    then ok (
      grant,
      record {
        allowed = assign Text-discrete key grant db.allowed;
        users = cache_role key role db.users;
        log = audit added_by "allowlist.grant" (Subject.principal key) db.log;
      },
    )
    else err value_error

unfoldable pub revoke_access : Db → Text → Option Text → Bool × Db
revoke_access db upn removed_by =
    let key = normalised upn in
    elim (lookup Text-discrete key db.allowed) [
      | none ↦ (false, db)
      | some existing ↦ (
        true,
        record db {
          allowed = delete Text-discrete key db.allowed;
          log = audit removed_by "allowlist.revoke" (Subject.principal key) db.log;
        },
      )
    ]
