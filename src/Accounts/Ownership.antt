-- ===== src/Accounts/Ownership.antt =====
-- Whose mailboxes the functions of src/ccreport/accounts.py give and forget.
use mathlib.Core.Path.{subst}
use ccreport.Prelude.{
  ℕ, ◌≡◌, ◌⊎◌, refl, sym, ap, ◌∙◌, Bool, true, false, not, ◌&&◌, some, List, [], ◌∷◌, arith, ◌==◌,
  ==_iff, find, find-some, Bool-cases, Option-cases, inl, inr, All, keep-All, All-keep,
}
use ccreport.Prelude.Texts.{Text, text_eq, text_eq_iff, normalised, starts_with, Text-discrete}
use ccreport.Errors.{ok, err, account_not_found}
use ccreport.OrderedDict.{lookup}
use ccreport.Accounts.{
  Account, is_revoked, list_accounts, find_account, get_account, or_next, of_alias, aliases,
  matches, the_only, resolve_account,
}

find-All {κ} :
    (P : Account → Type κ) (p : Account → Bool) (accounts : List Account) {a : Account}
    → All P accounts
    → find p accounts ≡ some a
    → P a
find-All P p [] h e = cc
find-All P p (b ∷ accounts) {a} h e = elim (Bool-cases (p b)) [
  | inl hit ↦ let same : b ≡ a = ground arith in subst P same h.0
  | inr miss ↦ find-All P p accounts {a = a} h.1 (ground arith)
]

-- Asking for a mailbox by its id gives it only to its owner; a mailbox that is missing and one that is
-- somebody else's are refused in the same way.
pub get_account_lem :
    (accounts : List Account) (user_id id : ℕ)
    → (get_account accounts user_id id ≡ err account_not_found)
      ⊎ ((a : Account) × (get_account accounts user_id id ≡ ok a)
          × (find_account accounts id ≡ some a)
          × (a.id ≡ id)
          × (a.user_id ≡ user_id))
unfolding get_account
get_account_lem accounts user_id id = elim (Option-cases (find_account accounts id)) [
  | inl missing ↦ inl (rw (missing, get_account) refl)
  | inr (a, found) ↦ elim (Bool-cases (a.user_id == user_id)) [
    | inl own ↦ inr (
      a,
      rw (found, own, get_account) refl,
      found,
      (==_iff a.id id).0
          (find-some (λ b. b.id == id) accounts {x = a} (unfold find_account in found)),
      (==_iff a.user_id user_id).0 own,
    )
    | inr foreign ↦ inl (rw (found, foreign, get_account) refl)
  ]
]

or_next-All {κ} :
    (P : Account → Type κ) (first next : List Account)
    → All P first
    → All P next
    → All P (or_next first next)
or_next-All P [] next h k = k
or_next-All P (a ∷ first) next h k = h

of_alias-All {κ} :
    (P : Account → Type κ) (reference : Text) (accounts : List Account)
    → All P accounts
    → All P (of_alias reference accounts)
unfolding of_alias
of_alias-All P reference accounts h = elim (Option-cases (lookup Text-discrete reference aliases)) [
  | inl missing ↦ rw (missing, of_alias) tt
  | inr (provider, found) ↦
      rw (found, of_alias) (All-keep P (λ a. text_eq a.provider provider) accounts h)
]

matches-All {κ} :
    (P : Account → Type κ) (reference : Text) (accounts : List Account)
    → All P accounts
    → All P (matches reference accounts)
unfolding matches
matches-All P reference accounts h =
    or_next-All P _ _ (All-keep P (λ a. text_eq a.address reference) accounts h) (
      or_next-All P _ _ (of_alias-All P reference accounts h)
        (All-keep P (λ a. starts_with a.address reference) accounts h))

the_only_lem :
    (accounts : List Account) (a : Account) → the_only accounts ≡ ok a → accounts ≡ a ∷ []
unfolding the_only
the_only_lem [] a h = absurd (ground arith)
the_only_lem (b ∷ []) a h = let same : b ≡ a = cc in ap (λ x. x ∷ []) same
the_only_lem (b ∷ c ∷ more) a h = absurd (ground arith)

-- The account is this user's and not revoked.
abbrev IsUsable : ℕ → Account → Type 0
IsUsable user_id a = ((a.user_id == user_id) && not (is_revoked a)) ≡ true

usable :
    (user_id : ℕ) (a : Account)
    → IsUsable user_id a
    → (a.user_id ≡ user_id) × (is_revoked a ≡ false)
usable user_id a h = (ground arith, ground arith)

-- Whatever text a user types, the mailbox that is found is the user's own, is not revoked, and is
-- either the one with that id or the only one that the text fits.
pub resolve_account_lem :
    (id_text : ℕ → Text) (accounts : List Account) (user_id : ℕ) (raw : Text) (a : Account)
    → resolve_account id_text accounts user_id raw ≡ ok a
    → (a.user_id ≡ user_id)
      × (is_revoked a ≡ false)
      × ((id_text a.id ≡ normalised raw)
          ⊎ (matches (normalised raw) (list_accounts accounts user_id) ≡ a ∷ []))
unfolding resolve_account list_accounts
resolve_account_lem id_text accounts user_id raw a h =
    let reference = normalised raw in
    let own = list_accounts accounts user_id in
    let all_own : All (IsUsable user_id) own =
      keep-All (λ b. (b.user_id == user_id) && not (is_revoked b)) accounts in
    let by_id : Account → Bool = λ b. text_eq (id_text b.id) reference in
    elim (Option-cases (find by_id own)) [
      | inr (b, found) ↦
          let given : resolve_account id_text accounts user_id raw ≡ ok b =
            rw (found, resolve_account) refl in
          let both : ok b ≡ ok a = sym given ∙ h in
          let same : b ≡ a = cc in
          let is_a : find by_id own ≡ some a = found ∙ ap some same in
          let known =
            usable user_id a (find-All (IsUsable user_id) by_id own {a = a} all_own is_a) in
          let named = (text_eq_iff (id_text a.id) reference).0 (find-some by_id own {x = a} is_a) in
          (known.0, known.1, inl named)
      | inl missing ↦
          let given : resolve_account id_text accounts user_id raw
              ≡ the_only (matches reference own) =
            rw (missing, resolve_account) refl in
          let only = the_only_lem (matches reference own) a (sym given ∙ h) in
          let fits =
            subst (All (IsUsable user_id)) only
              (matches-All (IsUsable user_id) reference own all_own) in
          let known = usable user_id a fits.0 in (known.0, known.1, inr only)
    ]
