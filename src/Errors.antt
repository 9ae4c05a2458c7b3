-- ===== src/Errors.antt =====
-- The exceptions of src/ccreport/errors.py and of the modules that subclass them. A function that
-- may raise returns a `Result`; the message of an exception is not modelled.
use ccreport.Prelude.{Bool, true, false, ◌≡◌, refl, ◌⊎◌, inl, inr}

pub data Error : Type 0 where
  invalid_period config_error not_authorized connector_error reauth_required render_error : Error
  report_not_found report_state_error item_not_found : Error
  domain_denied not_on_allow_list insufficient_role account_not_found : Error
  storage_error crypto_error : Error
  principal_error inconsistent_principal : Error
  value_error overflow_error : Error
  foreign : Error

-- `isinstance(exc, CCReportError)`
unfoldable pub is_ccreport_error : Error → Bool
is_ccreport_error Error.principal_error = false
is_ccreport_error Error.inconsistent_principal = false
is_ccreport_error Error.value_error = false
is_ccreport_error Error.overflow_error = false
is_ccreport_error Error.foreign = false
is_ccreport_error _ = true

-- `isinstance(exc, ValueError)`: `InvalidPeriod` has both bases
unfoldable pub is_value_error : Error → Bool
is_value_error Error.value_error = true
is_value_error Error.invalid_period = true
is_value_error _ = false

-- What a call returns or raises.
pub data Result {ℓ} (A : Type ℓ) : Type ℓ where
  err : Error → Result A
  ok : A → Result A

infixl 5 ◌>>=◌ ◌>>◌
-- An exception skips what follows.
abbrev pub ◌>>=◌ {ℓ κ} : {X : Type ℓ} {Y : Type κ} → Result X → (X → Result Y) → Result Y
◌>>=◌ (err raised) next = err raised
◌>>=◌ (ok value) next = next value

-- `if test: raise error`
abbrev pub raise_if : Bool → Error → Result (Unit {0})
raise_if test error = elim test [ true ↦ err error | false ↦ ok tt ]

abbrev pub ◌>>◌ {ℓ} : {Y : Type ℓ} → Result (Unit {0}) → Result Y → Result Y
first >> second = elim first [ err raised ↦ err raised | ok done ↦ second ]

pub Result-cases {ℓ} :
    {A : Type ℓ} (r : Result A) → ((e : Error) × (r ≡ err e)) ⊎ ((a : A) × (r ≡ ok a))
Result-cases (err e) = inl (e, refl)
Result-cases (ok a) = inr (a, refl)
