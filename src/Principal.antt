-- ===== src/Principal.antt =====
-- src/ccreport/auth/principal.py: who the caller is, from the headers that the proxy sets. Base64 and
-- JSON decoding is an argument: it gives the document or fails.
pub mod Trust
pub mod Nobody
mod Tests
use ccreport.Prelude.{
  ℕ, zero, suc, Bool, true, false, not, ◌&&◌, ◌||◌, Option, none, some, List, [], ◌∷◌, ◌++◌,
  if◌then◌else◌, ◌==◌, is_some,
}
use ccreport.Prelude.Texts.{Text, codes, text_eq, lower, normalised, starts_with, Text-discrete}
use ccreport.Errors.{
  Error, Result, ok, err, principal_error, inconsistent_principal, config_error, ◌>>=◌,
}
use ccreport.OrderedDict.{lookup, assign}

abbrev pub Texts : Type 0
Texts = List (Text × Text)

pub record Principal : Type 0 where
  pub upn : Text
  pub display_name : Option Text
  pub provider : Option Text
  pub object_id : Option Text
  pub claims : Texts
  pub is_dev : Bool

-- What `json.loads` returns, as far as it is looked at: `falsy` is null, false or a zero, `scalar`
-- any other number and true. The members of an object are those of the dict, no key twice.
mutual
  pub data Json : Type 0 where
    falsy scalar : Json
    string : Text → Json
    array : Elements → Json
    object : Members → Json

  pub data Elements : Type 0 where
    no_elements : Elements
    element : Json → Elements → Elements

  pub data Members : Type 0 where
    no_members : Members
    member : Text → Json → Members → Members

-- `value or None`
unfoldable pub or_none : Text → Option Text
or_none [] = none
or_none (c ∷ s) = some (c ∷ s)

-- the text before the first `#ext#`, if that stands in it
unfoldable pub before_ext : Text → Option Text
before_ext [] = none
before_ext (c ∷ s) =
    let rest = before_ext s in
    if starts_with (c ∷ s) (codes "#ext#")
    then some []
    else elim rest [ none ↦ none | some before ↦ some (c ∷ before) ]

-- `external.replace("_", "@", 1)`
unfoldable pub replace_first_underscore : Text → Text
replace_first_underscore [] = []
replace_first_underscore (c ∷ s) =
    let rest = replace_first_underscore s in if c == b'_' then b'@' ∷ s else c ∷ rest

unfoldable pub normalise : Option Text → Option Text
normalise none = none
normalise (some []) = none
normalise (some (c ∷ s)) =
    let value = normalised (c ∷ s) in
    or_none
      (elim (before_ext value) [ none ↦ value | some external ↦ replace_first_underscore external ])

unfoldable pub get_member : Text → Members → Option Json
get_member key no_members = none
get_member key (member name value members) =
    let rest = get_member key members in if text_eq name key then some value else rest

-- a claim whose type and value are texts, unless there is one of this type
unfoldable pub add_claim : Json → Texts → Texts
add_claim (object members) claims = elim (get_member (codes "typ") members) [
  | some (string typ) ↦ elim (get_member (codes "val") members) [
    | some (string val) ↦
        if is_some (lookup Text-discrete typ claims)
        then claims
        else assign Text-discrete typ val claims
    | _ ↦ claims
  ]
  | _ ↦ claims
]
add_claim _ claims = claims

unfoldable pub add_claims : Elements → Texts → Texts
add_claims no_elements claims = claims
add_claims (element claim elements) claims = add_claims elements (add_claim claim claims)

-- `for claim in document.get("claims") or []`: the characters of a text and the keys of an object are
-- no objects, and a number cannot be walked over
unfoldable pub collect_claims : Option Json → Result Texts
collect_claims none = ok []
collect_claims (some falsy) = ok []
collect_claims (some scalar) = err Error.foreign
collect_claims (some (string s)) = ok []
collect_claims (some (array elements)) = ok (add_claims elements [])
collect_claims (some (object _)) = ok []

-- `claims.setdefault(key, value)`
unfoldable pub setdefault : Text → Text → Texts → Texts
setdefault key value claims =
    if is_some (lookup Text-discrete key claims)
    then claims
    else assign Text-discrete key value claims

unfoldable pub default_name : Option Json → Texts → Texts
default_name (some (string name_type)) claims = elim (lookup Text-discrete name_type claims) [
  | none ↦ claims
  | some name ↦ setdefault (codes "_name_claim") name claims
]
default_name _ claims = claims

unfoldable pub default_auth : Option Json → Texts → Texts
default_auth (some (string auth_typ)) claims = setdefault (codes "_auth_typ") auth_typ claims
default_auth _ claims = claims

-- `claims.get(key)` for the first key whose value is not empty
unfoldable pub claim_lookup : Texts → List Text → Option Text
claim_lookup claims [] = none
claim_lookup claims (key ∷ keys) = elim (lookup Text-discrete key claims) [
  | some (c ∷ s) ↦ some (c ∷ s)
  | _ ↦ claim_lookup claims keys
]

abbrev pub email_claims : List Text
email_claims =
    codes "http://schemas.xmlsoap.org/ws/2005/05/identity/claims/upn"
    ∷ codes "preferred_username"
    ∷ codes "upn"
    ∷ codes "email"
    ∷ codes "emails"
    ∷ codes "http://schemas.xmlsoap.org/ws/2005/05/identity/claims/emailaddress"
    ∷ []

abbrev pub name_claims : List Text
name_claims =
    codes "name"
    ∷ codes "http://schemas.xmlsoap.org/ws/2005/05/identity/claims/name"
    ∷ codes "given_name"
    ∷ []

-- `a or b` for texts that may be missing
abbrev pub or_else : Option Text → Option Text → Option Text
or_else (some (c ∷ s)) b = some (c ∷ s)
or_else _ b = b

-- `{k.lower(): v for k, v in headers.items()}`
unfoldable pub lowered_onto : Texts → Texts → Texts
lowered_onto done [] = done
lowered_onto done ((k, v) ∷ headers) = lowered_onto (assign Text-discrete (lower k) v done) headers

abbrev pub header : Texts → Text → Option Text
header headers name = lookup Text-discrete name (lowered_onto [] headers)

-- The settings that matter here, and the identity of a development installation.
pub record Settings : Type 0 where
  pub on_azure : Bool
  pub is_production : Bool
  pub dev_principal : Option Text

unfoldable pub effective_dev_principal : Settings → Option Text
effective_dev_principal settings =
    if settings.on_azure || settings.is_production
    then none
    else elim (settings.dev_principal) [ some (c ∷ s) ↦ some (normalised (c ∷ s)) | _ ↦ none ]

unfoldable pub dev_principal : Settings → Result Principal
dev_principal settings = elim (effective_dev_principal settings) [
  | some (c ∷ upn) ↦ ok (record {
    upn = c ∷ upn;
    display_name = some (codes "Local development");
    provider = some (codes "dev");
    object_id = none;
    claims = [];
    is_dev = true;
  })
  | _ ↦ err config_error
]

-- an error that `except PrincipalError` catches and `except InconsistentPrincipal` does not
unfoldable pub falls_back : Error → Bool
falls_back Error.principal_error = true
falls_back _ = false

-- the upn that header and claims agree on
unfoldable pub agreed_upn : Option Text → Option Text → Result Text
agreed_upn none none = err principal_error
agreed_upn (some name) none = ok name
agreed_upn none (some claimed) = ok claimed
agreed_upn (some name) (some claimed) =
    if text_eq name claimed then ok claimed else err inconsistent_principal

abbrev pub object_id_claim : Text
object_id_claim = codes "http://schemas.microsoft.com/identity/claims/objectidentifier"

-- the caller with this upn, from the headers and the claims
unfoldable pub caller : Texts → Texts → Text → Principal
caller headers claims upn = record {
  upn = upn;
  display_name =
      or_else (claim_lookup claims name_claims) (lookup Text-discrete (codes "_name_claim") claims);
  provider =
      or_else (header headers (codes "x-ms-client-principal-idp"))
        (lookup Text-discrete (codes "_auth_typ") claims);
  object_id =
      or_else (header headers (codes "x-ms-client-principal-id"))
        (lookup Text-discrete object_id_claim claims);
  claims = claims;
  is_dev = false;
}

module _ (decode : Text → Option Json) where
  unfoldable pub decode_claims_header : Text → Result Texts
  decode_claims_header raw = elim (decode raw) [
    | some (object members) ↦ do
      claims ← collect_claims (get_member (codes "claims") members)
      let named = default_name (get_member (codes "name_typ") members) claims
      ok (default_auth (get_member (codes "auth_typ") members) named)
    | _ ↦ err principal_error
  ]

  unfoldable pub principal_of_claims : Texts → Texts → Result Principal
  principal_of_claims headers claims = do
    upn ←
        agreed_upn (normalise (header headers (codes "x-ms-client-principal-name")))
          (normalise (claim_lookup claims email_claims))
    ok (caller headers claims upn)

  -- without claims: only a test may ask for this
  unfoldable pub principal_of_name : Texts → Bool → Result Principal
  principal_of_name headers require_claims =
      if require_claims
      then err principal_error
      else elim (normalise (header headers (codes "x-ms-client-principal-name"))) [
        | none ↦ err principal_error
        | some name ↦ ok (record {
          upn = name;
          display_name = none;
          provider = header headers (codes "x-ms-client-principal-idp");
          object_id = none;
          claims = [];
          is_dev = false;
        })
      ]

  unfoldable pub principal_from_headers : Texts → Bool → Result Principal
  principal_from_headers headers require_claims =
      elim (header headers (codes "x-ms-client-principal")) [
        | some (c ∷ raw) ↦ do
          claims ← decode_claims_header (c ∷ raw)
          principal_of_claims headers claims
        | _ ↦ principal_of_name headers require_claims
      ]

  unfoldable pub resolve_principal : Texts → Settings → Result Principal
  resolve_principal headers settings = elim (principal_from_headers headers true) [
    | ok principal ↦ ok principal
    | err e ↦
        if falls_back e && is_some (effective_dev_principal settings)
        then dev_principal settings
        else err e
  ]
