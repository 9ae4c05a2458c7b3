-- ===== src/Accounts/Linked.antt =====
-- What connecting a mailbox saves (src/ccreport/accounts.py).
use native.Mathlib.Decide.{ℕ_discrete}
use mathlib.Core.Path.{subst}
use mathlib.Core.Logic.{if_pos}
use ccreport.Prelude.{
  ℕ, ◌≡◌, ◌≢◌, refl, ◌∙◌, Bool, true, false, Option, none, some, arith, Bool-cases, inl, inr,
}
use ccreport.Prelude.Texts.{Text, codes, normalised}
use ccreport.Errors.{Result, ok, err, connector_error, config_error, Result-cases}
use ccreport.OrderedDict.{lookup, lookup-assign}
use ccreport.Connectors.{or_empty}
use ccreport.Storage.{is_empty}
use ccreport.Accounts.{Account, connected, User, World, put_cached, find_account}
use ccreport.Accounts.Connect.{TokenSet, Services, seal_secret, open_secret}
use ccreport.Accounts.Connecting.{
  ConnectSettings, find_mailbox, mailbox_row, connect_by_oauth, connect_by_imap, oauth_address,
  check_oauth, save_oauth, connect_oauth_account, save_imap, connect_imap_account, check_imap,
  host_or, port_or, guard_gmail,
}
use ccreport.Accounts.Credentials.{sealed-others, sealed-opens, expiry-opens, expiry-others}
use ccreport.Accounts.Connected.{IsSame, IsUnique, mailbox_row-IsRow, update-IsRow}

-- The mailbox is connected: its row is there, the user's only one for it, and in use; its credential
-- opens to the secret that was given; rows and credentials of other accounts are as they were.
pub record IsLinked {V : Type 0} (services : Services) (w : World V) (user_id : ℕ)
    (provider address secret : Text) (id : ℕ) (w' : World V) : Type 0 where
  pub row :
      (a : Account) × (find_mailbox w'.accounts user_id provider address ≡ some a)
      × (a.id ≡ id)
      × (a.status ≡ connected)
      × (a.revoked_at ≡ none)
  pub unique : IsUnique w.accounts → IsUnique w'.accounts
  pub others : (j : ℕ) → j ≢ id → find_account w'.accounts j ≡ find_account w.accounts j
  pub credential : open_secret services id w'.tokens ≡ services.open_sealed (services.seal secret)
  pub credentials : (j : ℕ) → j ≢ id → lookup ℕ_discrete j w'.tokens ≡ lookup ℕ_discrete j w.tokens

check_imap-eq-ok :
    (verify : Bool) (status : Result Bool) {done : Unit {0}}
    → check_imap verify status ≡ ok done
    → verify ≡ true
    → status ≡ ok true
check_imap-eq-ok false status h on = absurd (ground (arith, on))
check_imap-eq-ok true (err e) h on = absurd (ground (arith, h))
check_imap-eq-ok true (ok true) h on = refl
check_imap-eq-ok true (ok false) h on = absurd (ground (arith, h))

connect_by_oauth-IsSame :
    (settings : ConnectSettings) (tokens : TokenSet) (now : ℕ) (a : Account)
    → IsSame a (connect_by_oauth settings tokens now a)
unfolding connect_by_oauth
connect_by_oauth-IsSame settings tokens now a = record {
  id = refl;
  user_id = refl;
  provider = refl;
  address = refl;
}

connect_by_imap-IsSame :
    (host : Text) (port : ℕ) (verified : Bool) (now : ℕ) (a : Account)
    → IsSame a (connect_by_imap host port verified now a)
unfolding connect_by_imap
connect_by_imap-IsSame host port verified now a = record {
  id = refl;
  user_id = refl;
  provider = refl;
  address = refl;
}

module _ {V : Type 0} (services : Services) (w : World V) (user : User) (new_id now : ℕ) where
  save_imap-IsLinked :
      (address secret host : Text) (port : ℕ) (verify : Bool)
      → let saved = save_imap services w user address secret host port verify new_id now in
        IsLinked services w user.id (codes "imap") address secret saved.0 saved.1
  unfolding save_imap connect_by_imap
  save_imap-IsLinked address secret host port verify =
      let r = mailbox_row w.accounts new_id user.id (codes "imap") address now in
      let rows =
        update-IsRow w.accounts user.id (codes "imap") address r.0 r.1
          (connect_by_imap host port verify now) (connect_by_imap-IsSame host port verify now)
          (mailbox_row-IsRow w.accounts new_id user.id (codes "imap") address now) in
      record {
        row = (connect_by_imap host port verify now r.0, rows.there, refl, refl, refl);
        unique = rows.unique;
        others = rows.others;
        credential = sealed-opens services r.0.id secret now w.tokens;
        credentials = sealed-others services r.0.id secret now w.tokens;
      }

  save_oauth-IsLinked :
      (settings : ConnectSettings) (provider : Text) (tokens : TokenSet) (address : Text)
      → let saved = save_oauth services settings w user provider tokens address new_id now in
        IsLinked services w user.id provider address (or_empty tokens.refresh_token) saved.0 saved.1
  unfolding save_oauth connect_by_oauth
  save_oauth-IsLinked settings provider tokens address =
      let r = mailbox_row w.accounts new_id user.id provider address now in
      let secret = or_empty tokens.refresh_token in
      let sealed = seal_secret services r.0.id secret now w.tokens in
      let rows =
        update-IsRow w.accounts user.id provider address r.0 r.1
          (connect_by_oauth settings tokens now) (connect_by_oauth-IsSame settings tokens now)
          (mailbox_row-IsRow w.accounts new_id user.id provider address now) in
      record {
        row = (connect_by_oauth settings tokens now r.0, rows.there, refl, refl, refl);
        unique = rows.unique;
        others = rows.others;
        credential =
            expiry-opens services r.0.id tokens.expires_at sealed
            ∙ sealed-opens services r.0.id secret now w.tokens;
        credentials = λ j other.
            expiry-others services r.0.id tokens.expires_at sealed j other
            ∙ sealed-others services r.0.id secret now w.tokens j other;
      }

  -- The result of connecting over OAuth.
  pub record IsOauthLinked (settings : ConnectSettings) (provider : Text) (tokens : TokenSet)
      (given : Option Text) (result : ℕ × World V) : Type 0 where
    pub linked :
        IsLinked services w user.id provider
          (oauth_address tokens given)
          (or_empty tokens.refresh_token)
          result.0
          result.1
    pub addressed : is_empty (oauth_address tokens given) ≡ false
    pub refreshable : is_empty (or_empty tokens.refresh_token) ≡ false
    pub guarded : guard_gmail settings provider (oauth_address tokens given) ≡ ok tt
    pub cached :
        lookup ℕ_discrete result.0 result.1.access
        ≡ some (record { access_token = tokens.access_token; expires_at = tokens.expires_at })

  -- The result of connecting over IMAP.
  pub record IsImapLinked (settings : ConnectSettings)
      (probe : Text → ℕ → Text → Text → Result Bool) (raw secret : Text) (host : Option Text)
      (port : Option ℕ) (verify : Bool) (result : ℕ × World V) : Type 0 where
    pub linked :
        IsLinked services w user.id (codes "imap") (normalised raw) secret result.0 result.1
    pub enabled : settings.enable_imap ≡ true
    pub verified :
        verify ≡ true
        → probe (host_or settings host) (port_or settings port) (normalised raw) secret ≡ ok true

  save_oauth-access :
      (settings : ConnectSettings) (provider : Text) (tokens : TokenSet) (address : Text)
      → let saved = save_oauth services settings w user provider tokens address new_id now in
        lookup ℕ_discrete saved.0 saved.1.access
        ≡ some (record { access_token = tokens.access_token; expires_at = tokens.expires_at })
  unfolding save_oauth put_cached
  save_oauth-access settings provider tokens address =
      let id = (mailbox_row w.accounts new_id user.id provider address now).0.id in
      lookup-assign ℕ_discrete id id _ w.access ∙ if_pos (ℕ_discrete id id) refl _ _

  -- Connecting a mailbox over OAuth that succeeds was given an address and a refresh token, and for Gmail
  -- passed the guard on personal addresses. Then the user has a row for that address, and still at most
  -- one for each address, which is in use; its credential opens to the refresh token as the secret box
  -- seals and opens it, its access token is the one that was given, and the rows and credentials of all
  -- other accounts are as they were.
  pub connect_oauth_account_lem :
      (settings : ConnectSettings) (provider : Text) (tokens : TokenSet) (given : Option Text)
      (result : ℕ × World V)
      → connect_oauth_account services settings w user provider tokens given new_id now ≡ ok result
      → IsOauthLinked settings provider tokens given result
  unfolding connect_oauth_account check_oauth
  connect_oauth_account_lem settings provider tokens given result h =
      let address = oauth_address tokens given in
      let secret = or_empty tokens.refresh_token in
      let call = connect_oauth_account services settings w user provider tokens given new_id now in
      elim (Bool-cases (is_empty address)) [
        | inl blank ↦
            let refused : call ≡ err connector_error = rw (blank, connect_oauth_account) refl in
            absurd (ground (arith, refused, h))
        | inr some_address ↦ elim (Bool-cases (is_empty secret)) [
          | inl blank ↦
              let refused : call ≡ err connector_error =
                rw (some_address, blank, connect_oauth_account) refl in
              absurd (ground (arith, refused, h))
          | inr some_secret ↦ elim (Result-cases (guard_gmail settings provider address)) [
            | inl (e, raised) ↦
                let refused : call ≡ err e =
                  rw (some_address, some_secret, raised, connect_oauth_account) refl in
                absurd (ground (arith, refused, h))
            | inr (done, passed) ↦
                let saved =
                  save_oauth services settings w user provider tokens address new_id now in
                let returned : call ≡ ok saved =
                  rw (some_address, some_secret, passed, connect_oauth_account) refl in
                let same : saved ≡ result = cc (returned, h) in
                subst (IsOauthLinked settings provider tokens given) same (record {
                  linked = save_oauth-IsLinked settings provider tokens address;
                  addressed = some_address;
                  refreshable = some_secret;
                  guarded = passed;
                  cached = save_oauth-access settings provider tokens address;
                })
          ]
        ]
      ]

  -- Connecting a mailbox over IMAP that succeeds was allowed by the settings, and if it was to be
  -- verified, the server took the password at that host and port. Then the user has a row for the
  -- address, and still at most one for each address, which is in use; its credential opens to the
  -- password, and the rows and credentials of all other accounts are as they were.
  pub connect_imap_account_lem :
      (settings : ConnectSettings) (probe : Text → ℕ → Text → Text → Result Bool)
      (raw secret : Text) (host : Option Text) (port : Option ℕ) (verify : Bool)
      (result : ℕ × World V)
      → connect_imap_account services settings probe w user raw secret host port verify new_id now
        ≡ ok result
      → IsImapLinked settings probe raw secret host port verify result
  unfolding connect_imap_account
  connect_imap_account_lem settings probe raw secret host port verify result h =
      let call =
        connect_imap_account services settings probe w user raw secret host port verify new_id
          now in
      let asked = probe (host_or settings host) (port_or settings port) (normalised raw) secret in
      elim (Bool-cases settings.enable_imap) [
        | inr off ↦
            let refused : call ≡ err config_error = rw (off, connect_imap_account) refl in
            absurd (ground (arith, refused, h))
        | inl on ↦ elim (Result-cases (check_imap verify asked)) [
          | inl (e, raised) ↦
              let refused : call ≡ err e = rw (on, raised, connect_imap_account) refl in
              absurd (ground (arith, refused, h))
          | inr (done, passed) ↦
              let saved =
                save_imap services w user (normalised raw) secret (host_or settings host)
                  (port_or settings port) verify new_id now in
              let returned : call ≡ ok saved = rw (on, passed, connect_imap_account) refl in
              let same : saved ≡ result = cc (returned, h) in
              subst (IsImapLinked settings probe raw secret host port verify) same (record {
                linked =
                    save_imap-IsLinked (normalised raw) secret (host_or settings host)
                      (port_or settings port) verify;
                enabled = on;
                verified = check_imap-eq-ok verify asked passed;
              })
        ]
      ]
