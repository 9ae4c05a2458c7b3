-- ===== src/Accounts/Verify.antt =====
-- `verify_account` of src/ccreport/accounts.py: checking one credential and recording what happened.
use ccreport.Prelude.{ℕ, Bool, true, false, Option, some, if◌then◌else◌}
use ccreport.Prelude.Texts.{Text}
use ccreport.Errors.{Error, Result, ok, err}
use ccreport.Accounts.Connect.{Services, Connector, open_connector, set_status, is_reauth}
use ccreport.Accounts.Connecting.{or_second}
use ccreport.Accounts.{Account, connected, needs_reauth, World, update_account}

-- what a check says of a connection, without its texts
pub record ConnectorStatus : Type 0 where
  pub is_ok : Bool
  pub address : Option Text
  pub needs_reauth : Bool

-- `except (ConnectorError, ConfigError)`, behind `except ReauthRequired`
unfoldable pub is_reported : Error → Bool
is_reported Error.connector_error = true
is_reported Error.config_error = true
is_reported _ = false

abbrev pub failed : Account → Bool → ConnectorStatus
failed account reauth = record {
  is_ok = false;
  address = some account.address;
  needs_reauth = reauth;
}

unfoldable pub mark_verified : ℕ → Account → Account
mark_verified now account = record account { status = connected; last_verified_at = some now }

abbrev pub asked : (Connector → Result (Option Text)) → Result Connector → Result (Option Text)
asked status (err e) = err e
asked status (ok connector) = status connector

module _ {V : Type 0} where
  -- the branches once the connector was opened and asked
  unfoldable pub record_status :
      Account → ℕ → World V → Result (Option Text) → World V × Result ConnectorStatus
  record_status account now w (ok address) = (
    record w { accounts = update_account account.id (mark_verified now) w.accounts },
    ok (record {
      is_ok = true;
      address = or_second address (some account.address);
      needs_reauth = false;
    }),
  )
  record_status account now w (err e) =
      if is_reauth e
      then (
        record w { accounts = update_account account.id (set_status needs_reauth) w.accounts },
        ok (failed account true),
      )
      else (if is_reported e then (w, ok (failed account false)) else (w, err e))

  -- `status` asks the provider, and gives the address that it knows the mailbox by
  unfoldable pub verify_account :
      Services
      → (Connector → Result (Option Text))
      → World V
      → Account
      → ℕ
      → World V × Result ConnectorStatus
  verify_account services status w account now =
      let (w', opened) = open_connector services w account now in
      record_status account now w' (asked status opened)
