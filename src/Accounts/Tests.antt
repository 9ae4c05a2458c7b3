-- ===== src/Accounts/Tests.antt =====
-- Runs of the account functions, and each theorem at a concrete input.
use native.Mathlib.Decide.{ℕ_discrete}
use ccreport.Prelude.{
  Bool, ℕ, ◌+◌, ◌≡◌, ◌⊎◌, refl, true, false, none, some, List, [], ◌∷◌, if◌then◌else◌, ltb,
}
use ccreport.Prelude.Texts.{
  Text, codes, normalised, lower, lower_code, strip, lstrip, rstrip, push_unless_blank, is_space,
  starts_with, Text-discrete,
}
use ccreport.Errors.{Error, Result, ok, err}
use ccreport.Audit.{audit}
use ccreport.OrderedDict.{lookup, assign, delete}
use ccreport.OrderedDict.Doomed.{delete_all, doomed_keys}
use ccreport.Cache.{CacheKey-discrete, HeaderCache, init, invalidate_account}
use ccreport.Accounts.{
  Account, connected, CachedToken, User, World, get_cached, put_cached, drop_cached, is_revoked,
  list_accounts, find_account, get_account, of_alias, matches, the_only, resolve_account,
  update_account, revoke_account, disconnected, disconnect_account,
}
use ccreport.Accounts.Ownership.{resolve_account_lem}
use ccreport.Filters.Senders.{push_to_first, split_on, last_of}
use ccreport.Accounts.Connecting.{
  ConnectSettings, domain_of_address, guard_personal_gmail, scope_string, find_mailbox, new_account,
  mailbox_row, connect_by_oauth, connect_by_imap, set_expiry, check_oauth, save_oauth,
  connect_oauth_account, save_imap, connect_imap_account,
}
use ccreport.Accounts.Linked.{
  IsOauthLinked, IsImapLinked, connect_oauth_account_lem, connect_imap_account_lem,
}
use ccreport.Accounts.Connect.{
  TokenSet, Services, seal_secret, sealed_row, open_secret, refresh_with,
}
use ccreport.Accounts.Connect.Renewal.{refresh_with_lem}
use ccreport.Accounts.Disconnect.{IsForgotten, disconnect_account_lem}

program : Unit {0}
unfolding lower lower_code strip lstrip rstrip push_unless_blank is_space starts_with Text-discrete
    ℕ_discrete lookup assign delete get_cached put_cached drop_cached list_accounts find_account
    get_account of_alias matches the_only resolve_account update_account revoke_account disconnected
    disconnect_account delete_all doomed_keys invalidate_account CacheKey-discrete audit init
    open_secret
program = tt

abbrev mailbox : ℕ → ℕ → Text → Account
mailbox id user_id address = record {
  id = id;
  user_id = user_id;
  provider = codes "gmail";
  address = address;
  display_name = none;
  status = connected;
  granted_scopes = none;
  posture = none;
  imap_host = none;
  imap_port = none;
  connected_at = 0;
  last_verified_at = none;
  revoked_at = none;
}

abbrev accounts : List Account
accounts = mailbox 1 5 (codes "ada@x.org") ∷ mailbox 2 6 (codes "eve@x.org") ∷ []

abbrev cached : List (ℕ × CachedToken)
cached = (1, record { access_token = codes "t"; expires_at = 500 }) ∷ []

abbrev no_headers : HeaderCache ℕ
no_headers = record {
  ttl = 10;
  max_entries = 2;
  entries = [];
  stats = record { hits = 0; misses = 0; evictions = 0; expirations = 0 };
}

abbrev world : World ℕ
world = record {
  accounts = accounts;
  tokens = (1, record { sealed = 7 ∷ []; access_expires_at = none; refreshed_at = 3 }) ∷ [];
  access = cached;
  headers = no_headers;
  log = [];
}

abbrev ada : User
ada = record { id = 5; upn = codes "ada" }

abbrev id_text : ℕ → Text
id_text id = id ∷ []

last_minute : (get_cached cached 1 440).1 ≡ none
unfolding program
last_minute = refl

resolve_account_lem_example :
    ((mailbox 1 5 (codes "ada@x.org")).user_id ≡ 5)
    × (is_revoked (mailbox 1 5 (codes "ada@x.org")) ≡ false)
    × ((id_text 1 ≡ normalised (codes " Google"))
        ⊎ (matches (normalised (codes " Google")) (list_accounts accounts 5)
            ≡ mailbox 1 5 (codes "ada@x.org") ∷ []))
unfolding program
resolve_account_lem_example =
    resolve_account_lem id_text accounts 5 (codes " Google") (mailbox 1 5 (codes "ada@x.org")) refl

disconnect_account_lem_example : IsForgotten 5 1 true 99 world (disconnected world ada 1 1 true 99)
unfolding program
disconnect_account_lem_example =
    disconnect_account_lem world (disconnected world ada 1 1 true 99) ada 1 true 99 (refl, tt)
      (refl, tt) tt refl

-- a box that does not hide anything
abbrev services : Services
services = record {
  seal = λ s. s;
  open_sealed = λ sealed. ok sealed;
  client = λ provider. err Error.foreign;
}

abbrev renewed : TokenSet
renewed = record {
  access_token = codes "a";
  refresh_token = some (codes "r2");
  expires_at = 900;
  scopes = codes "mail.read" ∷ [];
  address = some (codes " Ada@X.org ");
  name = some (codes "Ada");
}

refresh_with_lem_example :
    let out = refresh_with services world 1 (7 ∷ []) (ok renewed) 100 in
    (out.1 ≡ ok (codes "a"))
    × (open_secret services 1 out.0.tokens ≡ ok (codes "r2"))
    × ((get_cached out.0.access 1 200).1 ≡ (if ltb (200 + 60) 900 then some (codes "a") else none))
unfolding program
refresh_with_lem_example =
    refresh_with_lem services (λ s. refl) world 1 (7 ∷ []) renewed 100 200 (refl, tt) refl

abbrev settings : ConnectSettings
settings = record {
  google_hosted_domain = some (codes "x.org");
  google_oauth_publishing_status = codes "internal";
  enable_personal_gmail_oauth = false;
  enable_imap = true;
  imap_default_host = codes "imap.gmail.com";
  imap_default_port = 993;
}

connecting : Unit {0}
unfolding program domain_of_address guard_personal_gmail scope_string find_mailbox new_account
    mailbox_row connect_by_oauth connect_by_imap set_expiry check_oauth save_oauth
    connect_oauth_account save_imap connect_imap_account seal_secret sealed_row push_to_first
    split_on last_of
connecting = tt

abbrev linked : ℕ × World ℕ
linked = save_oauth services settings world ada (codes "gmail") renewed (codes "ada@x.org") 8 100

linked_again :
    connect_oauth_account services settings world ada (codes "gmail") renewed none 8 100 ≡ ok linked
unfolding connecting
linked_again = refl

same_row : linked.0 ≡ 1
unfolding connecting
same_row = refl

personal :
    connect_oauth_account services settings world ada
      (codes "gmail")
      renewed
      (some (codes "ada@gmail.com"))
      8
      100
    ≡ err Error.config_error
unfolding connecting
personal = refl

connect_oauth_account_lem_example :
    IsOauthLinked services world ada 8 100 settings (codes "gmail") renewed none linked
connect_oauth_account_lem_example =
    connect_oauth_account_lem services world ada 8 100 settings (codes "gmail") renewed none linked
      linked_again

abbrev accepting : Text → ℕ → Text → Text → Result Bool
accepting host port address password = ok true

abbrev by_imap : ℕ × World ℕ
by_imap =
    save_imap services world ada (codes "ada@x.org") (codes "pw") (codes "imap.gmail.com") 993 true
      8 100

imap_added :
    connect_imap_account services settings accepting world ada
      (codes " Ada@X.org")
      (codes "pw")
      none
      none
      true
      8
      100
    ≡ ok by_imap
unfolding connecting
imap_added = refl

connect_imap_account_lem_example :
    IsImapLinked services world ada 8 100 settings accepting
      (codes " Ada@X.org")
      (codes "pw")
      none
      none
      true
      by_imap
connect_imap_account_lem_example =
    connect_imap_account_lem services world ada 8 100 settings accepting (codes " Ada@X.org")
      (codes "pw") none none true by_imap imap_added
