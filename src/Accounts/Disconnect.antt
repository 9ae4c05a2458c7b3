-- ===== src/Accounts/Disconnect.antt =====
-- What `disconnect_account` (src/ccreport/accounts.py) forgets.
use native.Mathlib.Decide.{ℕ_discrete}
use mathlib.Core.Path.{subst}
use mathlib.Core.Logic.{ite}
use ccreport.Prelude.{
  ℕ, ◌≡◌, refl, sym, ap, ◌∙◌, Bool, true, not, ◌&&◌, none, some, List, arith, if◌then◌else◌, ◌==◌,
  keep, inl, inr, All, keep-All, false, [], ◌∷◌, ◌≢◌, find-some, ==_iff,
}
use ccreport.Errors.{ok, err, account_not_found}
use ccreport.OrderedDict.{lookup, IsDict, lookup-delete}
use ccreport.Cache.{CacheKey, CacheKey-discrete}
use ccreport.Cache.Laws.{HasUniqueKeys}
use ccreport.Cache.Invariant.{invalidate-exact}
use ccreport.Accounts.{
  Account, revoked, User, World, find_account, update_account, revoke_account, drop_cached,
  disconnected, disconnect_account,
}
use ccreport.Accounts.Connected.{IsSame, find-map, change_one, change_one-id, find_account-update}
use ccreport.Accounts.Ownership.{get_account_lem}

-- Everything of the account is gone: its credential, its access token and the headers that were
-- cached for it, and its row, or without `forget` its row is revoked; what belongs to other accounts,
-- their rows among it, is as it was.
pub record IsForgotten {V : Type 0} (user_id id : ℕ) (forget : Bool) (now : ℕ) (w w' : World V)
    : Type 0 where
  pub owner : (a : Account) × (find_account w.accounts id ≡ some a) × (a.user_id ≡ user_id)
  pub tokens :
      (j : ℕ)
      → lookup ℕ_discrete j w'.tokens ≡ ite (ℕ_discrete id j) none (lookup ℕ_discrete j w.tokens)
  pub access :
      (j : ℕ)
      → lookup ℕ_discrete j w'.access ≡ ite (ℕ_discrete id j) none (lookup ℕ_discrete j w.access)
  pub headers :
      (k : CacheKey)
      → lookup CacheKey-discrete k w'.headers.entries ≡ (
          if (k.user_id == user_id) && (k.account_id == id)
          then none
          else lookup CacheKey-discrete k w.headers.entries)
  pub row : forget ≡ true → All (λ a. not (a.id == id) ≡ true) w'.accounts
  pub kept_row :
      forget ≡ false
      → find_account w'.accounts id
        ≡ some (record (owner.0) { status = revoked; revoked_at = some now })
  pub others : (j : ℕ) → j ≢ id → find_account w'.accounts j ≡ find_account w.accounts j

rows_forgotten :
    (id : ℕ) (forget : Bool) (accounts others : List Account)
    → forget ≡ true
    → All
        (λ a. not (a.id == id) ≡ true)
        (if forget then keep (λ a. not (a.id == id)) accounts else others)
rows_forgotten id forget accounts others h = rw h (keep-All (λ a. not (a.id == id)) accounts)

find_account-keep :
    (id : ℕ) (accounts : List Account) (j : ℕ)
    → j ≢ id
    → find_account (keep (λ a. not (a.id == id)) accounts) j ≡ find_account accounts j
unfolding find_account
find_account-keep id [] j other = refl
find_account-keep id (a ∷ accounts) j other = ground (arith, find_account-keep id accounts j other)

module _ (id now : ℕ) where
  revoke_account-IsSame : (a : Account) → IsSame a (revoke_account now a)
  unfolding revoke_account
  revoke_account-IsSame a = record { id = refl; user_id = refl; provider = refl; address = refl }

  other_rows :
      (forget : Bool) (accounts : List Account) (j : ℕ)
      → j ≢ id
      → find_account
          (if forget
            then keep (λ a. not (a.id == id)) accounts
            else update_account id (revoke_account now) accounts)
          j
        ≡ find_account accounts j
  other_rows true accounts j other = find_account-keep id accounts j other
  other_rows false accounts j other =
      find_account-update id (revoke_account now) revoke_account-IsSame accounts j other

  found_id : (accounts : List Account) {a : Account} → find_account accounts id ≡ some a → a.id ≡ id
  unfolding find_account
  found_id accounts {a} h = (==_iff a.id id).0 (find-some (λ b. b.id == id) accounts {x = a} h)

  kept_row_revoked :
      (forget : Bool) (accounts others : List Account) {a : Account}
      → find_account accounts id ≡ some a
      → forget ≡ false
      → find_account (if forget then others else update_account id (revoke_account now) accounts) id
        ≡ some (record a { status = revoked; revoked_at = some now })
  unfolding find_account update_account revoke_account
  kept_row_revoked forget accounts others {a} found h =
      let mine : (a.id == id) ≡ true = (==_iff a.id id).1 (found_id accounts {a = a} found) in
      rw h (
        find-map (λ b. b.id == id) (change_one id (revoke_account now) revoke_account-IsSame)
          (change_one-id id (revoke_account now) revoke_account-IsSame id) accounts
        ∙ rw (found, mine) refl)

disconnected-IsForgotten :
    {V : Type 0} (w : World V) (user : User) (id account_id : ℕ) (forget : Bool) (now : ℕ)
    → IsDict ℕ_discrete w.tokens
    → IsDict ℕ_discrete w.access
    → HasUniqueKeys w.headers.entries
    → (a : Account) × (find_account w.accounts account_id ≡ some a) × (a.user_id ≡ user.id)
    → IsForgotten user.id account_id forget now w (disconnected w user id account_id forget now)
unfolding disconnected drop_cached
disconnected-IsForgotten w user id account_id forget now tokens access headers owner = record {
  owner = owner;
  tokens = λ j. lookup-delete ℕ_discrete account_id j w.tokens tokens;
  access = λ j. lookup-delete ℕ_discrete account_id j w.access access;
  headers = (invalidate-exact w.headers user.id account_id headers).0;
  row = rows_forgotten account_id forget w.accounts _;
  kept_row = kept_row_revoked account_id now forget w.accounts _ {a = owner.0} owner.1;
  others = other_rows account_id now forget w.accounts;
}

-- Where no account has two credentials, access tokens or cached answers under one key:
-- disconnecting a mailbox that succeeds was asked for by its owner and forgets the stored
-- credential, the access token and the cached headers; its row is gone if it is to be forgotten too,
-- and otherwise it is the same row marked as revoked at that time. Rows, credentials, tokens and headers
-- of other accounts are as they were.
pub disconnect_account_lem :
    {V : Type 0} (w w' : World V) (user : User) (id : ℕ) (forget : Bool) (now : ℕ)
    → IsDict ℕ_discrete w.tokens
    → IsDict ℕ_discrete w.access
    → HasUniqueKeys w.headers.entries
    → disconnect_account w user id forget now ≡ ok w'
    → IsForgotten user.id id forget now w w'
unfolding disconnect_account
disconnect_account_lem w w' user id forget now tokens access headers h =
    elim (get_account_lem w.accounts user.id id) [
      | inl refused ↦
          let raised : disconnect_account w user id forget now ≡ err account_not_found =
            rw (refused, disconnect_account) refl in
          absurd (ground (arith, raised, h))
      | inr (a, given, found, is_id, own) ↦
          let done : disconnect_account w user id forget now
              ≡ ok (disconnected w user id a.id forget now) =
            rw (given, disconnect_account) refl in
          let both : ok (disconnected w user id a.id forget now) ≡ ok w' = sym done ∙ h in
          let same : disconnected w user id a.id forget now ≡ w' = cc in
          let owner : (b : Account) × (find_account w.accounts a.id ≡ some b)
              × (b.user_id ≡ user.id) =
            (a, ap (find_account w.accounts) is_id ∙ found, own) in
          subst (λ i. IsForgotten user.id i forget now w w') is_id
            (subst (IsForgotten user.id a.id forget now w) same
              (disconnected-IsForgotten w user id a.id forget now tokens access headers owner))
    ]
