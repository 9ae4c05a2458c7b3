-- ===== src/Accounts.antt =====
-- src/ccreport/accounts.py: connected mailboxes and their credentials. The tables are lists, the access
-- tokens a dictionary by account id; times are seconds and arguments. Sealing a secret and the exchange
-- with the identity provider are arguments. The texts of `status_detail` are left out.
pub mod Ownership
pub mod Tokens
pub mod Disconnect
pub mod Connect
pub mod Connecting
pub mod Connected
pub mod Credentials
pub mod Linked
pub mod Verify
mod Tests
use native.Mathlib.Decide.{ℕ_discrete}
use ccreport.Prelude.{
  ℕ, zero, suc, ◌+◌, Bool, true, false, not, ◌&&◌, ◌||◌, Option, none, some, List, [], ◌∷◌, ◌++◌,
  if◌then◌else◌, ◌==◌, leb, keep, find, map, is_some,
}
use ccreport.Prelude.Texts.{Text, codes, text_eq, normalised, starts_with, Text-discrete}
use ccreport.Errors.{Error, Result, ok, err, account_not_found, reauth_required, ◌>>=◌}
use ccreport.OrderedDict.{lookup, assign, delete}
use ccreport.Audit.{AuditLog, Subject, audit}
use ccreport.Cache.{HeaderCache, invalidate_account}

pub data Status : Type 0 where
  connected needs_reauth revoked : Status

pub record Account : Type 0 where
  pub id : ℕ
  pub user_id : ℕ
  pub provider : Text
  pub address : Text
  pub display_name : Option Text
  pub status : Status
  pub granted_scopes : Option Text
  pub posture : Option Text
  pub imap_host : Option Text
  pub imap_port : Option ℕ
  pub connected_at : ℕ
  pub last_verified_at : Option ℕ
  pub revoked_at : Option ℕ

-- a row of `OAuthToken`: the sealed secret, and the times that the program writes
pub record StoredToken : Type 0 where
  pub sealed : List ℕ
  pub access_expires_at : Option ℕ
  pub refreshed_at : ℕ

pub record CachedToken : Type 0 where
  pub access_token : Text
  pub expires_at : ℕ

pub record User : Type 0 where
  pub id : ℕ
  pub upn : Text

pub record World (V : Type 0) : Type 0 where
  pub accounts : List Account
  pub tokens : List (ℕ × StoredToken)
  pub access : List (ℕ × CachedToken)
  pub headers : HeaderCache V
  pub log : List AuditLog

abbrev pub access_token_skew_seconds : ℕ
access_token_skew_seconds = 60

-- `_AccessTokenCache.get`: an entry that is about to expire is dropped
unfoldable pub get_cached : List (ℕ × CachedToken) → ℕ → ℕ → List (ℕ × CachedToken) × Option Text
get_cached access id now = elim (lookup ℕ_discrete id access) [
  | none ↦ (access, none)
  | some entry ↦
      if leb entry.expires_at (now + access_token_skew_seconds)
      then (delete ℕ_discrete id access, none)
      else (access, some entry.access_token)
]

unfoldable pub put_cached : List (ℕ × CachedToken) → ℕ → Text → ℕ → List (ℕ × CachedToken)
put_cached access id token expires_at =
    assign ℕ_discrete id (record { access_token = token; expires_at = expires_at }) access

unfoldable pub drop_cached : List (ℕ × CachedToken) → ℕ → List (ℕ × CachedToken)
drop_cached access id = delete ℕ_discrete id access

abbrev pub is_revoked : Account → Bool
is_revoked account = elim (account.status) [ revoked ↦ true | _ ↦ false ]

-- `list_accounts` without its order, in which nothing but a message depends
unfoldable pub list_accounts : List Account → ℕ → List Account
list_accounts accounts user_id = keep (λ a. (a.user_id == user_id) && not (is_revoked a)) accounts

unfoldable pub find_account : List Account → ℕ → Option Account
find_account accounts id = find (λ a. a.id == id) accounts

unfoldable pub get_account : List Account → ℕ → ℕ → Result Account
get_account accounts user_id id = elim (find_account accounts id) [
  | none ↦ err account_not_found
  | some account ↦ if account.user_id == user_id then ok account else err account_not_found
]

abbrev pub aliases : List (Text × Text)
aliases =
    (codes "outlook", codes "graph")
    ∷ (codes "microsoft", codes "graph")
    ∷ (codes "graph", codes "graph")
    ∷ (codes "gmail", codes "gmail")
    ∷ (codes "google", codes "gmail")
    ∷ (codes "imap", codes "imap")
    ∷ []

-- `if not matches: ...`
abbrev pub or_next : List Account → List Account → List Account
or_next [] next = next
or_next (a ∷ matches) next = a ∷ matches

unfoldable pub of_alias : Text → List Account → List Account
of_alias reference accounts = elim (lookup Text-discrete reference aliases) [
  | none ↦ []
  | some provider ↦ keep (λ a. text_eq a.provider provider) accounts
]

unfoldable pub matches : Text → List Account → List Account
matches reference accounts =
    or_next (keep (λ a. text_eq a.address reference) accounts)
      (or_next (of_alias reference accounts) (keep (λ a. starts_with a.address reference) accounts))

unfoldable pub the_only : List Account → Result Account
the_only [] = err account_not_found
the_only (a ∷ []) = ok a
the_only (a ∷ b ∷ more) = err account_not_found

-- The id of a row as a text is an argument.
unfoldable pub resolve_account : (ℕ → Text) → List Account → ℕ → Text → Result Account
resolve_account id_text accounts user_id raw =
    let reference = normalised raw in
    let own = list_accounts accounts user_id in
    elim (find (λ a. text_eq (id_text a.id) reference) own) [
      | some account ↦ ok account
      | none ↦ the_only (matches reference own)
    ]

unfoldable pub update_account : ℕ → (Account → Account) → List Account → List Account
update_account id change accounts = map (λ a. if a.id == id then change a else a) accounts

-- the account once it is disconnected
unfoldable pub revoke_account : ℕ → Account → Account
revoke_account now account = record account { status = revoked; revoked_at = some now }

-- what is left when the account is disconnected; `id` is the id that was asked for
unfoldable pub disconnected : {V : Type 0} → World V → User → ℕ → ℕ → Bool → ℕ → World V
disconnected w user id account_id forget now = record w {
  accounts =
      if forget
      then keep (λ a. not (a.id == account_id)) w.accounts
      else update_account account_id (revoke_account now) w.accounts;
  tokens = delete ℕ_discrete account_id w.tokens;
  access = drop_cached w.access account_id;
  headers = (invalidate_account w.headers user.id account_id).0;
  log = audit (some user.upn) "account.disconnect" (Subject.mail_account id) w.log;
}

unfoldable pub disconnect_account : {V : Type 0} → World V → User → ℕ → Bool → ℕ → Result (World V)
disconnect_account w user id forget now = do
  account ← get_account w.accounts user.id id
  ok (disconnected w user id account.id forget now)
