-- ===== src/Access/Gates.antt =====
-- The two gates of `authorize` (src/ccreport/auth/allowlist.py).
use ccreport.Prelude.{
  ℕ, ◌≡◌, ◌≢◌, ◌↔◌, refl, Bool, true, false, not, ◌⊎◌, inl, inr, Option, none, some, [], ◌∷◌, arith,
  if◌then◌else◌, Bool-cases, Option-cases,
}
use ccreport.Prelude.Texts.{Text, normalised, Text-discrete}
use ccreport.Errors.{Error, ok, err, domain_denied, not_on_allow_list, insufficient_role}
use ccreport.OrderedDict.{lookup, assign}
use ccreport.Access.{
  Role, faculty, admin, other, role_eq, known_role, Grant, User, Db, Principal, domain_allowed,
  lookup_grant, has_role, signed_in, touched, lacks_role, admit, authorize,
}

-- Whether a role of a grant meets what a request asks for: nothing, faculty by either role, and
-- any other role by itself.
abbrev pub meets : Role → Option Role → Bool
meets held none = true
meets held (some (other [])) = true
meets held (some faculty) = known_role held
meets held (some role) = role_eq held role

lacks_role-meets :
    (need : Option Role) (user : User) → lacks_role need user ≡ not (meets user.role need)
unfolding lacks_role has_role
lacks_role-meets none user = refl
lacks_role-meets (some faculty) user = refl
lacks_role-meets (some admin) user = refl
lacks_role-meets (some (other [])) user = refl
lacks_role-meets (some (other (c ∷ s))) user = refl

module _ (required : Text) (db : Db) (p : Principal) (need : Option Role) (touch : Bool)
    (fresh now : ℕ) where
  -- The user row that is written for a grant.
  abbrev pub written : Grant → User
  written grant = touched touch now (
      signed_in p (normalised p.upn) grant fresh (lookup Text-discrete (normalised p.upn) db.users))

  pub role-written : (grant : Grant) → (written grant).role ≡ grant.role
  unfolding touched signed_in
  role-written grant = ground arith

  -- What `admit` answers, and what it writes.
  admit_lem :
      (grant : Grant)
      → admit db p (normalised p.upn) grant need touch fresh now ≡ (
        if meets grant.role need then ok (written grant) else err insufficient_role,
        record db { users = assign Text-discrete (normalised p.upn) (written grant) db.users },
      )
  unfolding admit
  admit_lem grant =
      let user = written grant in
      let lacks = lacks_role-meets need user in
      let role = role-written grant in
      elim (Bool-cases (meets grant.role need)) [
        | inl met ↦ rw (lacks, role, met) refl
        | inr unmet ↦ rw (lacks, role, unmet) refl
      ]

  -- A request passes exactly when its domain is allowed, the access list has a grant for it, and
  -- the role of that grant meets what was asked for; the user then has that role.
  pub authorize-ok_iff :
      (user : User)
      → ((authorize required db p need touch fresh now).0 ≡ ok user) ↔ (
          (domain_allowed (normalised p.upn) required ≡ true)
          × ((grant : Grant) × (lookup_grant db (normalised p.upn) ≡ some grant)
              × (meets grant.role need ≡ true)
              × (user ≡ written grant)
              × (user.role ≡ grant.role)))
  unfolding authorize
  authorize-ok_iff user = (
    λ h. elim (Bool-cases (domain_allowed (normalised p.upn) required)) [
      | inl inside ↦ elim (Option-cases (lookup_grant db (normalised p.upn))) [
        | inl no_grant ↦ absurd (ground arith)
        | inr (grant, e) ↦ (
          inside,
          (
            grant,
            e,
            ground (arith, admit_lem grant),
            ground (arith, admit_lem grant),
            ground (arith, admit_lem grant, role-written grant),
          ),
        )
      ]
      | inr outside ↦ absurd (ground arith)
    ],
    λ h. ground (arith, admit_lem h.1.0),
  )

  -- An empty access list denies everyone, inside the domain or not, and writes nothing.
  pub authorize_empty :
      (user : User)
      → db.allowed ≡ []
      → ((authorize required db p need touch fresh now).0 ≢ ok user)
        × ((authorize required db p need touch fresh now).1 ≡ db)
  unfolding authorize lookup_grant lookup
  authorize_empty user e =
      let no_grant : lookup Text-discrete (normalised (normalised p.upn)) db.allowed ≡ none =
        rw e refl in
      (ground arith, ground arith)

  -- A refusal at either gate writes nothing: no row of a user is made for somebody who was not
  -- let in. A refusal for want of the role comes after the row was written.
  pub authorize_refused :
      (e : Error)
      → (authorize required db p need touch fresh now).0 ≡ err e
      → e ≢ insufficient_role
      → ((authorize required db p need touch fresh now).1 ≡ db)
        × (((e ≡ domain_denied) × (domain_allowed (normalised p.upn) required ≡ false))
            ⊎ ((e ≡ not_on_allow_list) × (lookup_grant db (normalised p.upn) ≡ none)))
  unfolding authorize
  authorize_refused e h other_error =
      elim (Bool-cases (domain_allowed (normalised p.upn) required)) [
        | inl inside ↦ elim (Option-cases (lookup_grant db (normalised p.upn))) [
          | inl no_grant ↦ (ground arith, inr (ground arith, no_grant))
          | inr (grant, found) ↦ absurd (ground (arith, admit_lem grant))
        ]
        | inr outside ↦ (ground arith, inl (ground arith, outside))
      ]

  -- No request changes the access list or the audit log.
  pub authorize-allowed :
      ((authorize required db p need touch fresh now).1.allowed ≡ db.allowed)
      × ((authorize required db p need touch fresh now).1.log ≡ db.log)
  unfolding authorize admit
  authorize-allowed = ground arith
