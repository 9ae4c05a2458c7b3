-- ===== src/Accounts/Connecting.antt =====
-- Connecting a mailbox: `connect_oauth_account`, `connect_imap_account` and `verify_account` of
-- src/ccreport/accounts.py. The id of a new row is an argument, as the database makes it.
use native.Mathlib.Decide.{ℕ_discrete}
use ccreport.Prelude.{
  ℕ, Bool, true, false, not, ◌&&◌, Option, none, some, List, [], ◌∷◌, ◌++◌, if◌then◌else◌, ◌==◌,
  find,
}
use ccreport.Prelude.Texts.{Text, codes, text_eq, normalised, lower}
use ccreport.Errors.{Result, ok, err, connector_error, config_error, ◌>>◌, raise_if}
use ccreport.OrderedDict.{lookup, assign}
use ccreport.Audit.{Subject, audit}
use ccreport.Connectors.{or_empty}
use ccreport.Storage.{is_empty}
use ccreport.Filters.Senders.{split_on, last_of, has_at}
use ccreport.Accounts.Connect.{TokenSet, Services, seal_secret}
use ccreport.Accounts.{Account, connected, StoredToken, User, World, put_cached, update_account}

-- the settings that connecting reads
pub record ConnectSettings : Type 0 where
  pub google_hosted_domain : Option Text
  pub google_oauth_publishing_status : Text
  pub enable_personal_gmail_oauth : Bool
  pub enable_imap : Bool
  pub imap_default_host : Text
  pub imap_default_port : ℕ

-- `address.rsplit("@", 1)[-1].lower() if "@" in address else ""`
unfoldable pub domain_of_address : Text → Text
domain_of_address address = if has_at address then lower (last_of (split_on b'@' address)) else []

unfoldable pub guard_personal_gmail : ConnectSettings → Text → Result (Unit {0})
guard_personal_gmail settings address =
    let hosted = lower (or_empty settings.google_hosted_domain) in
    raise_if
      (not (not (is_empty hosted) && text_eq (domain_of_address address) hosted)
        && not settings.enable_personal_gmail_oauth)
      config_error

-- `if provider == "gmail"`
abbrev pub guard_gmail : ConnectSettings → Text → Text → Result (Unit {0})
guard_gmail settings provider address =
    if text_eq provider (codes "gmail") then guard_personal_gmail settings address else ok tt

-- `value or None`
abbrev pub text_or_none : Text → Option Text
text_or_none s = if is_empty s then none else some s

-- `first or second`
abbrev pub or_second : Option Text → Option Text → Option Text
or_second none second = second
or_second (some []) second = second
or_second (some (c ∷ s)) second = some (c ∷ s)

-- `" ".join(scopes)`
unfoldable pub scope_string : List Text → Text
scope_string [] = []
scope_string (s ∷ []) = s
scope_string (s ∷ t ∷ scopes) = s ++ codes " " ++ scope_string (t ∷ scopes)

abbrev pub is_mailbox : ℕ → Text → Text → Account → Bool
is_mailbox user_id provider address a =
    (a.user_id == user_id) && text_eq a.provider provider && text_eq a.address address

unfoldable pub find_mailbox : List Account → ℕ → Text → Text → Option Account
find_mailbox accounts user_id provider address = find (is_mailbox user_id provider address) accounts

-- a new row with the columns' defaults
unfoldable pub new_account : ℕ → ℕ → Text → Text → ℕ → Account
new_account id user_id provider address now = record {
  id = id;
  user_id = user_id;
  provider = provider;
  address = address;
  display_name = none;
  status = connected;
  granted_scopes = none;
  posture = none;
  imap_host = none;
  imap_port = none;
  connected_at = now;
  last_verified_at = none;
  revoked_at = none;
}

-- the row of the mailbox, and the table with it
unfoldable pub mailbox_row : List Account → ℕ → ℕ → Text → Text → ℕ → Account × List Account
mailbox_row accounts id user_id provider address now =
    elim (find_mailbox accounts user_id provider address) [
      | some account ↦ (account, accounts)
      | none ↦
          let account = new_account id user_id provider address now in
          (account, accounts ++ account ∷ [])
    ]

abbrev pub posture_of : ConnectSettings → Text → Option Text
posture_of settings provider =
    if text_eq provider (codes "gmail") then some settings.google_oauth_publishing_status else none

unfoldable pub connect_by_oauth : ConnectSettings → TokenSet → ℕ → Account → Account
connect_by_oauth settings tokens now a = record a {
  status = connected;
  granted_scopes = text_or_none (scope_string tokens.scopes);
  posture = posture_of settings a.provider;
  connected_at = now;
  revoked_at = none;
  display_name = or_second tokens.name a.display_name;
}

unfoldable pub connect_by_imap : Text → ℕ → Bool → ℕ → Account → Account
connect_by_imap host port verified now a = record a {
  status = connected;
  imap_host = some host;
  imap_port = some port;
  granted_scopes = some (codes "imap:examine");
  connected_at = now;
  last_verified_at = if verified then some now else none;
  revoked_at = none;
}

-- `session.get(OAuthToken, id).access_expires_at = ...`
unfoldable pub set_expiry : ℕ → ℕ → List (ℕ × StoredToken) → List (ℕ × StoredToken)
set_expiry id expires_at tokens = elim (lookup ℕ_discrete id tokens) [
  | none ↦ tokens
  | some row ↦ assign ℕ_discrete id (record row { access_expires_at = some expires_at }) tokens
]

-- the mailbox that an authorization names
abbrev pub oauth_address : TokenSet → Option Text → Text
oauth_address tokens address = normalised (or_empty (or_second address tokens.address))

-- the checks that come before anything is saved
unfoldable pub check_oauth : ConnectSettings → Text → TokenSet → Option Text → Result (Unit {0})
check_oauth settings provider tokens address = do
  raise_if (is_empty (oauth_address tokens address)) connector_error
  raise_if (is_empty (or_empty tokens.refresh_token)) connector_error
  guard_gmail settings provider (oauth_address tokens address)

-- `if verify: ...`, with what the status of a connector says
abbrev pub check_imap : Bool → Result Bool → Result (Unit {0})
check_imap false status = ok tt
check_imap true (err e) = err e
check_imap true (ok accepted) = raise_if (not accepted) connector_error

abbrev pub host_or : ConnectSettings → Option Text → Text
host_or settings host = or_empty (or_second host (some settings.imap_default_host))

-- `int(port or default)`
abbrev pub port_or : ConnectSettings → Option ℕ → ℕ
port_or settings none = settings.imap_default_port
port_or settings (some n) = if n == 0 then settings.imap_default_port else n

module _ (services : Services) {V : Type 0} where
  unfoldable pub save_oauth :
      ConnectSettings → World V → User → Text → TokenSet → Text → ℕ → ℕ → ℕ × World V
  save_oauth settings w user provider tokens address new_id now =
      let (row, accounts) = mailbox_row w.accounts new_id user.id provider address now in
      (
        row.id,
        record w {
          accounts = update_account row.id (connect_by_oauth settings tokens now) accounts;
          tokens =
              set_expiry row.id tokens.expires_at
                (seal_secret services row.id (or_empty tokens.refresh_token) now w.tokens);
          access = put_cached w.access row.id tokens.access_token tokens.expires_at;
          log = audit (some user.upn) "account.connect" (Subject.mail_account row.id) w.log;
        },
      )

  -- The id of the account, and the world once it is connected.
  unfoldable pub connect_oauth_account :
      ConnectSettings
      → World V
      → User
      → Text
      → TokenSet
      → Option Text
      → ℕ
      → ℕ
      → Result (ℕ × World V)
  connect_oauth_account settings w user provider tokens address new_id now = do
    check_oauth settings provider tokens address
    ok (save_oauth settings w user provider tokens (oauth_address tokens address) new_id now)

  unfoldable pub save_imap : World V → User → Text → Text → Text → ℕ → Bool → ℕ → ℕ → ℕ × World V
  save_imap w user address app_password host port verify new_id now =
      let (row, accounts) = mailbox_row w.accounts new_id user.id (codes "imap") address now in
      (
        row.id,
        record w {
          accounts = update_account row.id (connect_by_imap host port verify now) accounts;
          tokens = seal_secret services row.id app_password now w.tokens;
          log = audit (some user.upn) "account.connect" (Subject.mail_account row.id) w.log;
        },
      )

  -- `probe` is `status` of an `ImapConnector` with this host, port, address and password.
  unfoldable pub connect_imap_account :
      ConnectSettings
      → (Text → ℕ → Text → Text → Result Bool)
      → World V
      → User
      → Text
      → Text
      → Option Text
      → Option ℕ
      → Bool
      → ℕ
      → ℕ
      → Result (ℕ × World V)
  connect_imap_account settings probe w user address app_password host port verify new_id now = do
    raise_if (not settings.enable_imap) config_error
    check_imap verify
        (probe (host_or settings host) (port_or settings port) (normalised address) app_password)
    ok (
        save_imap w user (normalised address) app_password (host_or settings host)
          (port_or settings port) verify new_id now)
