-- ===== src/Access/Grants.antt =====
-- Granting and revoking access (src/ccreport/auth/allowlist.py, `grant_access`, `revoke_access`),
-- and what the gates make of it.
use mathlib.Core.Logic.{ite, if_pos}
use ccreport.Prelude.{
  ℕ, ◌≡◌, ◌∙◌, sym, refl, Bool, true, false, inl, inr, Option, none, some, List, arith,
  Option-cases, is_some,
}
use ccreport.Prelude.Texts.{Text, normalised, Text-discrete}
use ccreport.Prelude.Texts.Normal.{normalised-normalised}
use ccreport.Errors.{ok, err, not_on_allow_list, value_error}
use ccreport.OrderedDict.{
  lookup, assign, IsDict, lookup-assign, lookup-delete, assign-IsDict, delete-IsDict,
}
use ccreport.Access.{
  Role, known_role, Grant, User, Db, Principal, domain_allowed, lookup_grant, granted, cache_role,
  grant_access, revoke_access, authorize,
}
use ccreport.Access.Gates.{meets, written, role-written, authorize-ok_iff}

-- No upn has two grants or two users.
pub record IsValid (db : Db) : Type 0 where
  pub one_grant : IsDict Text-discrete db.allowed
  pub one_user : IsDict Text-discrete db.users

cache_role-role :
    (upn : Text) (role : Role) (users : List (Text × User)) {user : User}
    → lookup Text-discrete upn (cache_role upn role users) ≡ some user
    → user.role ≡ role
unfolding cache_role
cache_role-role upn role users {user} h = elim (Option-cases (lookup Text-discrete upn users)) [
  | inl e ↦ absurd (ground arith)
  | inr (old, e) ↦
      let new : User = record old { role = role } in
      ground (arith, lookup-assign Text-discrete upn upn new users)
]

cache_role-IsDict :
    (upn : Text) (role : Role) (users : List (Text × User))
    → IsDict Text-discrete users
    → IsDict Text-discrete (cache_role upn role users)
unfolding cache_role
cache_role-IsDict upn role users h = elim (Option-cases (lookup Text-discrete upn users)) [
  | inl e ↦ rw (e, cache_role) h
  | inr (old, e) ↦
      let new : User = record old { role = role } in
      rw (e, cache_role) (assign-IsDict Text-discrete upn new users h)
]

module _ (db : Db) (upn : Text) (role : Role) (added_by note : Option Text) where
  -- A grant is refused for an unknown role alone.
  pub grant_access-error :
      known_role role ≡ false → grant_access db upn role added_by note ≡ err value_error
  unfolding grant_access
  grant_access-error h = rw h

  -- A grant is recorded under the normalised upn, with the role that was given and no longer as
  -- seeded; the grants of all others stay as they were.
  pub lookup-grant_access :
      (other : Text) {grant : Grant} {db' : Db}
      → grant_access db upn role added_by note ≡ ok (grant, db')
      → (grant.role ≡ role)
        × (grant.seeded ≡ false)
        × (lookup_grant db' other
            ≡ ite
                (Text-discrete (normalised upn) (normalised other))
                (some grant)
                (lookup_grant db other))
  unfolding grant_access granted lookup_grant
  lookup-grant_access other {grant} {db'} h =
      let key = normalised upn in
      let g = granted role added_by note (lookup Text-discrete key db.allowed) in
      ground (arith, lookup-assign Text-discrete key (normalised other) g db.allowed)

  -- After a grant the user's cached role, if there is one, is the role that was granted.
  pub grant_access-user :
      {grant : Grant} {db' : Db} {user : User}
      → grant_access db upn role added_by note ≡ ok (grant, db')
      → lookup Text-discrete (normalised upn) db'.users ≡ some user
      → user.role ≡ role
  unfolding grant_access
  grant_access-user {grant} {db'} {user} h u =
      ground (arith, cache_role-role (normalised upn) role db.users {user = user})

  pub grant_access-IsValid :
      {grant : Grant} {db' : Db}
      → IsValid db
      → grant_access db upn role added_by note ≡ ok (grant, db')
      → IsValid db'
  unfolding grant_access
  grant_access-IsValid {grant} {db'} v h =
      let key = normalised upn in
      let g = granted role added_by note (lookup Text-discrete key db.allowed) in
      let a = assign-IsDict Text-discrete key g db.allowed v.one_grant in
      let b = cache_role-IsDict key role db.users v.one_user in
      let allowed : db'.allowed ≡ assign Text-discrete key g db.allowed = ground arith in
      let users : db'.users ≡ cache_role key role db.users = ground arith in
      record { one_grant = rw allowed a; one_user = rw users b }

module _ (db : Db) (upn : Text) (removed_by : Option Text) (valid : IsValid db) where
  -- Revoking removes the grant of that upn and no other, and says whether there was one.
  pub lookup-revoke_access :
      (other : Text)
      → (lookup_grant (revoke_access db upn removed_by).1 other
          ≡ ite (Text-discrete (normalised upn) (normalised other)) none (lookup_grant db other))
        × ((revoke_access db upn removed_by).0 ≡ is_some (lookup_grant db upn))
  unfolding revoke_access lookup_grant
  lookup-revoke_access other =
      let key = normalised upn in
      ground (arith, lookup-delete Text-discrete key (normalised other) db.allowed valid.one_grant)

  pub revoke_access-IsValid : IsValid (revoke_access db upn removed_by).1
  unfolding revoke_access
  revoke_access-IsValid = ground (
    arith,
    valid.one_grant,
    delete-IsDict Text-discrete (normalised upn) db.allowed valid.one_grant,
  )

-- Somebody who is granted a role is let in with it from then on, wherever the domain is allowed.
pub authorize-grant_access :
    (required : Text) (db : Db) (upn : Text) (role : Role) (added_by note : Option Text)
    (name : Option Text) (need : Option Role) (touch : Bool) (fresh now : ℕ) {grant : Grant}
    {db' : Db}
    → grant_access db upn role added_by note ≡ ok (grant, db')
    → domain_allowed (normalised upn) required ≡ true
    → meets role need ≡ true
    → (let p : Principal = record { upn = upn; display_name = name } in
        (user : User) × ((authorize required db' p need touch fresh now).0 ≡ ok user)
        × (user.role ≡ role))
authorize-grant_access required db upn role added_by note name need touch fresh now {grant} {db'} h
      d m =
    let p : Principal = record { upn = upn; display_name = name } in
    let (r, _, found) =
      lookup-grant_access db upn role added_by note (normalised upn) {grant = grant} {db' = db'}
        h in
    let there =
      found ∙ if_pos (Text-discrete _ _) (sym (normalised-normalised upn)) (some grant) _ in
    let user = written required db' p need touch fresh now grant in
    let role' = role-written required db' p need touch fresh now grant in
    (
      user,
      (authorize-ok_iff required db' p need touch fresh now user).1
          (d, (grant, there, rw r m, refl, role')),
      role' ∙ r,
    )

-- Somebody whose access is revoked is refused at the second gate from then on, with whatever name
-- and role, until access is granted again.
pub authorize-revoke_access :
    (required : Text) (db : Db) (upn : Text) (removed_by name : Option Text) (need : Option Role)
    (touch : Bool) (fresh now : ℕ)
    → IsValid db
    → domain_allowed (normalised upn) required ≡ true
    → (let p : Principal = record { upn = upn; display_name = name } in
        (authorize required (revoke_access db upn removed_by).1 p need touch fresh now).0
        ≡ err not_on_allow_list)
unfolding authorize
authorize-revoke_access required db upn removed_by name need touch fresh now v d =
    let gone = (lookup-revoke_access db upn removed_by v (normalised upn)).0 in
    let none_left = gone ∙ if_pos (Text-discrete _ _) (sym (normalised-normalised upn)) none _ in
    rw (d, none_left, authorize) refl
