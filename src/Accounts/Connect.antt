-- ===== src/Accounts/Connect.antt =====
-- Opening a stored mailbox (src/ccreport/accounts.py): its secret, its access token, its connector.
-- Sealing and opening secrets and the exchange with the identity provider are arguments.
pub mod Renewal
use native.Mathlib.Decide.{ℕ_discrete}
use ccreport.Prelude.{
  ℕ, Bool, true, false, not, ◌&&◌, Option, none, some, List, [], ◌∷◌, if◌then◌else◌,
}
use ccreport.Prelude.Texts.{Text, codes, text_eq}
use ccreport.Errors.{Error, Result, ok, err, reauth_required, config_error}
use ccreport.OrderedDict.{lookup, assign}
use ccreport.Accounts.{
  Account, Status, connected, needs_reauth, StoredToken, World, get_cached, put_cached, is_revoked,
  update_account,
}

-- What a token endpoint gave back; of the claims, the name.
pub record TokenSet : Type 0 where
  pub access_token : Text
  pub refresh_token : Option Text
  pub expires_at : ℕ
  pub scopes : List Text
  pub address : Option Text
  pub name : Option Text

-- `seal` and `open_sealed` are the secret box; `client` is `build_oauth_client`, whose result is the
-- call `client.refresh`.
pub record Services : Type 0 where
  pub seal : Text → List ℕ
  pub open_sealed : List ℕ → Result Text
  pub client : Text → Result (Text → Result TokenSet)

pub data Connector : Type 0 where
  imap_connector : Text → Text → Connector
  graph_connector gmail_connector : Text → Text → Connector

unfoldable pub is_reauth : Error → Bool
is_reauth Error.reauth_required = true
is_reauth _ = false

-- the credential's row with a new secret: a row that is there keeps its other columns
unfoldable pub sealed_row : List ℕ → ℕ → Option StoredToken → StoredToken
sealed_row sealed now none = record {
  sealed = sealed;
  access_expires_at = none;
  refreshed_at = now;
}
sealed_row sealed now (some row) = record row { sealed = sealed; refreshed_at = now }

-- the credential's row after a refresh
unfoldable pub note_expiry : ℕ → ℕ → ℕ → List (ℕ × StoredToken) → List (ℕ × StoredToken)
note_expiry id expires_at now tokens = elim (lookup ℕ_discrete id tokens) [
  | none ↦ tokens
  | some row ↦
      assign ℕ_discrete id (record row { access_expires_at = some expires_at; refreshed_at = now })
        tokens
]

unfoldable pub set_status : Status → Account → Account
set_status status account = record account { status = status }

module _ (services : Services) where
  unfoldable pub seal_secret : ℕ → Text → ℕ → List (ℕ × StoredToken) → List (ℕ × StoredToken)
  seal_secret id secret now tokens =
      assign ℕ_discrete id (sealed_row (services.seal secret) now (lookup ℕ_discrete id tokens))
        tokens

  unfoldable pub open_secret : ℕ → List (ℕ × StoredToken) → Result Text
  open_secret id tokens = elim (lookup ℕ_discrete id tokens) [
    | none ↦ err reauth_required
    | some row ↦ services.open_sealed row.sealed
  ]

  -- `if tokens.refresh_token and tokens.refresh_token != refresh_token`
  unfoldable pub rotate :
      ℕ → Text → Option Text → ℕ → List (ℕ × StoredToken) → List (ℕ × StoredToken)
  rotate id used (some (c ∷ fresh)) now tokens =
      if text_eq (c ∷ fresh) used then tokens else seal_secret id (c ∷ fresh) now tokens
  rotate id used _ now tokens = tokens

  unfoldable pub after_refresh : {V : Type 0} → World V → ℕ → Text → TokenSet → ℕ → World V
  after_refresh w id used tokens now = record w {
    tokens =
        note_expiry id tokens.expires_at now (rotate id used tokens.refresh_token now w.tokens);
    accounts = update_account id (set_status connected) w.accounts;
    access = put_cached w.access id tokens.access_token tokens.expires_at;
  }

  -- the exchange with the provider, once the secret and the client are there
  unfoldable pub refresh_with :
      {V : Type 0} → World V → ℕ → Text → Result TokenSet → ℕ → World V × Result Text
  refresh_with w id used (ok tokens) now =
      (after_refresh w id used tokens now, ok tokens.access_token)
  refresh_with w id used (err e) now = (
    if is_reauth e
        then record w { accounts = update_account id (set_status needs_reauth) w.accounts }
        else w,
    err e,
  )

  unfoldable pub refresh_access_token : {V : Type 0} → World V → Account → ℕ → World V × Result Text
  refresh_access_token w account now = elim (open_secret account.id w.tokens) [
    | err e ↦ (w, err e)
    | ok secret ↦ elim (services.client account.provider) [
      | err e ↦ (w, err e)
      | ok refresh ↦ refresh_with w account.id secret (refresh secret) now
    ]
  ]

  unfoldable pub access_token_for : {V : Type 0} → World V → Account → ℕ → World V × Result Text
  access_token_for w account now =
      let (access, cached) = get_cached w.access account.id now in
      elim cached [
        | some (c ∷ token) ↦ (record w { access = access }, ok (c ∷ token))
        | _ ↦ refresh_access_token (record w { access = access }) account now
      ]

  -- the connector for a provider that wants an access token
  unfoldable pub token_connector : Account → Text → Result Connector
  token_connector account token =
      if text_eq account.provider (codes "graph")
      then ok (graph_connector token account.address)
      else (if text_eq account.provider (codes "gmail")
          then ok (gmail_connector token account.address)
          else err config_error)

  unfoldable pub imap_of_secret : Account → Result Text → Result Connector
  imap_of_secret account (err e) = err e
  imap_of_secret account (ok secret) = ok (imap_connector account.address secret)

  unfoldable pub open_by_token :
      {V : Type 0} → Account → World V × Result Text → World V × Result Connector
  open_by_token account (w, err e) = (w, err e)
  open_by_token account (w, ok token) = (w, token_connector account token)

  unfoldable pub open_connector : {V : Type 0} → World V → Account → ℕ → World V × Result Connector
  open_connector w account now =
      if is_revoked account
      then (w, err reauth_required)
      else (if text_eq account.provider (codes "imap")
          then (w, imap_of_secret account (open_secret account.id w.tokens))
          else open_by_token account (access_token_for w account now))
