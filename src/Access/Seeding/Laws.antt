-- ===== src/Access/Seeding/Laws.antt =====
-- What reconciling does to every grant, and that doing it again changes nothing
-- (src/ccreport/auth/allowlist.py, `bootstrap_allow_list`).
use mathlib.Core.Logic.{ite}
use ccreport.Prelude.{
  ℕ, ◌≡◌, ◌∙◌, sym, refl, ap, Bool, true, false, not, ◌&&◌, ◌||◌, inl, inr, Option, none, some,
  List, [], ◌∷◌, ◌++◌, arith, if◌then◌else◌, Bool-cases, Option-cases,
}
use ccreport.Prelude.Texts.{Text, text_eq, text_eq_iff, Text-discrete, contains}
use ccreport.OrderedDict.{lookup, IsDict, lookup-assign, assign-IsDict}
use ccreport.OrderedDict.Doomed.{
  delete_all, doomed_keys, delete_all-doomed_keys, passing, lookup-keep, keep-IsDict,
  doomed_keys_none,
}
use ccreport.Access.{Role, faculty, admin, other, role_eq, Grant, Db}
use ccreport.Access.Seeding.{
  Allowed, sorted_insert, sorted_set, seed_role, new_seed, seed_one, seed_all, is_stale,
  remove_stale, bootstrap_allow_list,
}

role_eq_refl : (r : Role) → role_eq r r ≡ true
unfolding role_eq
role_eq_refl faculty = refl
role_eq_refl admin = refl
role_eq_refl (other s) = (text_eq_iff s s).1 refl

contains-sorted_insert :
    (u x : Text) (ys : List Text) → contains u (sorted_insert x ys) ≡ (text_eq u x || contains u ys)
unfolding sorted_insert
contains-sorted_insert u x [] = refl
contains-sorted_insert u x (y ∷ ys) =
    ground (arith, contains-sorted_insert u x ys, text_eq_iff x y, text_eq_iff u x, text_eq_iff u y)

pub contains-sorted_set : (u : Text) (xs : List Text) → contains u (sorted_set xs) ≡ contains u xs
unfolding sorted_set
contains-sorted_set u [] = refl
contains-sorted_set u (x ∷ xs) =
    rw (contains-sorted_insert u x (sorted_set xs), contains-sorted_set u xs)

contains-append :
    (u : Text) (xs ys : List Text) → contains u (xs ++ ys) ≡ (contains u xs || contains u ys)
contains-append u [] ys = refl
contains-append u (x ∷ xs) ys = ground (arith, contains-append u xs ys)

-- What a seed makes of the grant that is there: none is added, a seeded one takes the role of the
-- settings, and one made by hand stays.
abbrev pub seeded_grant : Role → Option Grant → Option Grant
seeded_grant role none = some (new_seed role)
seeded_grant role (some grant) =
    if grant.seeded then some (record grant { role = role }) else some grant

-- The grant of every upn after reconciling, from the one before.
abbrev pub reconciled : Bool → Role → Option Grant → Option Grant
reconciled true role old = seeded_grant role old
reconciled false role none = none
reconciled false role (some grant) = if grant.seeded then none else some grant

role_eq→eq : (r s : Role) → role_eq r s ≡ true → r ≡ s
unfolding role_eq
role_eq→eq faculty faculty h = refl
role_eq→eq admin admin h = refl
role_eq→eq (other s) (other t) h = ap other ((text_eq_iff s t).0 h)
role_eq→eq faculty admin h = cc
role_eq→eq faculty (other t) h = cc
role_eq→eq admin faculty h = cc
role_eq→eq admin (other t) h = cc
role_eq→eq (other s) faculty h = cc
role_eq→eq (other s) admin h = cc

module _ (admins : List Text) where
  lookup-seed_one :
      (upn u : Text) (d : Allowed) (n : ℕ)
      → lookup Text-discrete u (seed_one admins upn (d, n)).0
        ≡ ite
            (Text-discrete upn u)
            (seeded_grant (seed_role admins upn) (lookup Text-discrete upn d))
            (lookup Text-discrete u d)
  unfolding seed_one
  lookup-seed_one upn u d n = elim (Option-cases (lookup Text-discrete upn d)) [
    | inl e ↦
        rw (e, seed_one) (lookup-assign Text-discrete upn u (new_seed (seed_role admins upn)) d)
    | inr (g, e) ↦
        let new : Grant = record g { role = seed_role admins upn } in
        ground
          (arith, lookup-assign Text-discrete upn u new d, role_eq→eq g.role (seed_role admins upn))
  ]

  -- After the first loop: the seeds among `upns` are seeded, and no other grant has changed.
  lookup-seed_all :
      (upns : List Text) (u : Text) (d : Allowed) (n : ℕ)
      → lookup Text-discrete u (seed_all admins upns (d, n)).0 ≡ (
          if contains u upns
          then seeded_grant (seed_role admins u) (lookup Text-discrete u d)
          else lookup Text-discrete u d)
  unfolding seed_all
  lookup-seed_all [] u d n = refl
  lookup-seed_all (upn ∷ upns) u d n =
      let (d', n') = seed_one admins upn (d, n) in
      ground (arith, lookup-seed_all upns u d' n', lookup-seed_one upn u d n, text_eq_iff u upn)

  seed_one-IsDict :
      (upn : Text) (d : Allowed) (n : ℕ)
      → IsDict Text-discrete d
      → IsDict Text-discrete (seed_one admins upn (d, n)).0
  unfolding seed_one
  seed_one-IsDict upn d n h = elim (Option-cases (lookup Text-discrete upn d)) [
    | inl e ↦
        rw (e, seed_one) (assign-IsDict Text-discrete upn (new_seed (seed_role admins upn)) d h)
    | inr (g, e) ↦
        let new : Grant = record g { role = seed_role admins upn } in
        let both = assign-IsDict Text-discrete upn new d h in
        elim (Bool-cases (g.seeded && not (role_eq g.role (seed_role admins upn)))) [
          | inl t ↦ rw (e, seed_one, t) both
          | inr f ↦ rw (e, seed_one, f) h
        ]
  ]

  seed_all-IsDict :
      (upns : List Text) (d : Allowed) (n : ℕ)
      → IsDict Text-discrete d
      → IsDict Text-discrete (seed_all admins upns (d, n)).0
  unfolding seed_all
  seed_all-IsDict [] d n h = h
  seed_all-IsDict (upn ∷ upns) d n h =
      let (d', n') = seed_one admins upn (d, n) in
      seed_all-IsDict upns d' n' (seed_one-IsDict upn d n h)

passing-seeded_grant :
    (seeds : List Text) (u : Text) (b : Bool) (role : Role) (old : Option Grant)
    → contains u seeds ≡ b
    → passing Text-discrete
        (λ e. not (is_stale seeds e))
        u
        (if b then seeded_grant role old else old)
      ≡ reconciled b role old
passing-seeded_grant seeds u true role none e = ground arith
passing-seeded_grant seeds u true role (some g) e = ground arith
passing-seeded_grant seeds u false role none e = refl
passing-seeded_grant seeds u false role (some g) e = ground arith

-- After reconciling, the grant of every upn is known from the settings and the grant before: a
-- seed has one, with the role of the settings if it is seeded; a seeded grant of anybody else is
-- gone; a grant made by hand is as it was. Users and the audit log are left alone.
pub lookup-bootstrap :
    (db : Db) (allowed admins : List Text) (u : Text)
    → IsDict Text-discrete db.allowed
    → (let after = (bootstrap_allow_list db allowed admins).1 in
        (lookup Text-discrete u after.allowed
          ≡ reconciled
              (contains u allowed || contains u admins)
              (seed_role admins u)
              (lookup Text-discrete u db.allowed))
        × IsDict Text-discrete after.allowed
        × (after.users ≡ db.users)
        × (after.log ≡ db.log))
unfolding bootstrap_allow_list remove_stale
lookup-bootstrap db allowed admins u h =
    let seeds = sorted_set (allowed ++ admins) in
    let (d, n) = seed_all admins seeds (db.allowed, 0) in
    let hd = seed_all-IsDict admins seeds db.allowed 0 h in
    let is_seed = contains-sorted_set u (allowed ++ admins) ∙ contains-append u allowed admins in
    let gone = delete_all-doomed_keys Text-discrete (is_stale seeds) d hd in
    let kept = lookup-keep Text-discrete (λ e. not (is_stale seeds e)) u d hd in
    let mid = lookup-seed_all admins seeds u db.allowed 0 in
    let role = seed_role admins u in
    let old = lookup Text-discrete u db.allowed in
    (
      rw (gone, kept, mid, is_seed)
          (passing-seeded_grant seeds u (contains u allowed || contains u admins) role old is_seed),
      rw gone (keep-IsDict Text-discrete (λ e. not (is_stale seeds e)) d hd),
      refl,
      refl,
    )

seeded_grant-reconciled :
    (b : Bool) (role : Role) (old : Option Grant)
    → b ≡ true
    → seeded_grant role (reconciled b role old) ≡ reconciled b role old
seeded_grant-reconciled b role none h = ground arith
seeded_grant-reconciled b role (some g) h = ground arith

seed_one_same :
    (admins : List Text) (upn : Text) (d : Allowed) (n : ℕ)
    → seeded_grant (seed_role admins upn) (lookup Text-discrete upn d) ≡ lookup Text-discrete upn d
    → seed_one admins upn (d, n) ≡ (d, n)
unfolding seed_one
seed_one_same admins upn d n h = elim (Option-cases (lookup Text-discrete upn d)) [
  | inl e ↦ absurd (ground arith)
  | inr (g, e) ↦ ground (arith, role_eq_refl (seed_role admins upn))
]

seed_all_same :
    (admins upns : List Text) (d : Allowed)
    → ((u : Text)
        → contains u upns ≡ true
        → seeded_grant (seed_role admins u) (lookup Text-discrete u d) ≡ lookup Text-discrete u d)
    → seed_all admins upns (d, 0) ≡ (d, 0)
unfolding seed_all
seed_all_same admins [] d h = refl
seed_all_same admins (upn ∷ upns) d h =
    rw (seed_one_same admins upn d 0 (h upn (ground (arith, text_eq_iff upn upn))))
      (seed_all_same admins upns d (λ u there. h u (ground arith)))

reconciled_stays :
    (seeds : List Text) (u : Text) (b : Bool) (role : Role) (old : Option Grant) {g : Grant}
    → contains u seeds ≡ b
    → reconciled b role old ≡ some g
    → is_stale seeds (u, g) ≡ false
reconciled_stays seeds u true role old e h = ground arith
reconciled_stays seeds u false role none e h = cc
reconciled_stays seeds u false role (some old) e h = ground arith

bootstrap_same :
    (db : Db) (allowed admins : List Text)
    → seed_all admins (sorted_set (allowed ++ admins)) (db.allowed, 0) ≡ (db.allowed, 0)
    → doomed_keys (is_stale (sorted_set (allowed ++ admins))) db.allowed ≡ []
    → bootstrap_allow_list db allowed admins ≡ (0, db)
unfolding bootstrap_allow_list remove_stale delete_all
bootstrap_same db allowed admins same none_stale = rw (same, none_stale) refl

-- Reconciling once more with the same settings changes nothing and counts no change.
pub bootstrap_twice :
    (db : Db) (allowed admins : List Text)
    → IsDict Text-discrete db.allowed
    → (let after = (bootstrap_allow_list db allowed admins).1 in
        bootstrap_allow_list after allowed admins ≡ (0, after))
bootstrap_twice db allowed admins h =
    let after = (bootstrap_allow_list db allowed admins).1 in
    let seeds = sorted_set (allowed ++ admins) in
    let look = λ (u : Text). lookup-bootstrap db allowed admins u h in
    let is_seed =
      λ (u : Text). contains-sorted_set u (allowed ++ admins) ∙ contains-append u allowed admins in
    let valid = (lookup-bootstrap db allowed admins [] h).1 in
    let same = seed_all_same admins seeds after.allowed (λ u there. rw (look u).0 (
      seeded_grant-reconciled (contains u allowed || contains u admins) (seed_role admins u)
        (lookup Text-discrete u db.allowed) (sym (is_seed u) ∙ there))) in
    let none_stale =
      doomed_keys_none Text-discrete (is_stale seeds) after.allowed valid (λ u g found.
        reconciled_stays seeds u (contains u allowed || contains u admins) (seed_role admins u)
          (lookup Text-discrete u db.allowed) (is_seed u) (sym (look u).0 ∙ found)) in
    bootstrap_same after allowed admins same none_stale
