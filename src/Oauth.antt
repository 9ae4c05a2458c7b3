-- ===== src/Oauth.antt =====
-- src/ccreport/oauth.py: the answers of a token endpoint, and the clients that ask it. The exchange
-- itself, the decoding of an ID token's middle part and what Python makes of a number are arguments.
pub mod Clients
pub mod Answers
pub mod Renewed
mod Tests
use ccreport.Prelude.{
  ℕ, suc, ◌+◌, ◌%◌, Bool, true, false, not, ◌||◌, Option, none, some, List, [], ◌∷◌, ◌++◌,
  if◌then◌else◌, ◌==◌, leb, length, any, is_some,
}
use ccreport.Prelude.Texts.{Text, codes, text_eq, contains, normalised, is_space, starts_with}
use ccreport.Errors.{
  Error, Result, ok, err, connector_error, reauth_required, config_error, ◌>>=◌, ◌>>◌, raise_if,
}
use ccreport.Storage.{is_empty}
use ccreport.Connectors.{or_empty}
use ccreport.Filters.Senders.{split_on, has_at}
use ccreport.Accounts.Connecting.{scope_string}
use ccreport.Principal.{Json, Elements, Members, Texts, get_member}

-- `not value`
abbrev pub is_falsy : Json → Bool
is_falsy Json.falsy = true
is_falsy (Json.string []) = true
is_falsy (Json.array Elements.no_elements) = true
is_falsy (Json.object Members.no_members) = true
is_falsy _ = false

-- What the endpoint answered: `response.status_code` and `response.json()`, if that can be decoded.
pub record Response : Type 0 where
  pub status_code : ℕ
  pub json : Option Json

-- What is not under this repository's control: `post` is the exchange, which may fail; `loads` is
-- `json.loads(base64.urlsafe_b64decode(...))`, none if that raises; `lifetime` is the end of the
-- lifetime that `int` reads in a value; `str` is `str` of a value that is not a text.
pub record Exchange : Type 0 where
  pub post : Text → Texts → Option Response
  pub loads : Text → Option Json
  pub now : ℕ
  pub lifetime : Json → Option ℕ
  pub str : Json → Text

-- A `TokenSet` as it is made here. The texts of the answer are not checked to be texts.
pub record TokenSet : Type 0 where
  pub access_token : Json
  pub refresh_token : Option Json
  pub expires_at : ℕ
  pub scopes : List Text
  pub address : Option Text
  pub claims : Members

-- `value + "=" * (-len(value) % 4)`
abbrev pub padding : ℕ → Text
padding over =
    if over == 1
    then codes "==="
    else (if over == 2 then codes "==" else (if over == 3 then codes "=" else []))

abbrev pub padded : Text → Text
padded value = value ++ padding (length value % 4)

abbrev pub dict_or_empty : Option Json → Members
dict_or_empty (some (Json.object members)) = members
dict_or_empty _ = Members.no_members

-- the middle one of three parts
abbrev pub middle_claims : (Text → Option Json) → List Text → Members
middle_claims loads (header ∷ payload ∷ signature ∷ []) = dict_or_empty (loads (padded payload))
middle_claims loads _ = Members.no_members

abbrev pub count_dots : Elements → ℕ
count_dots Elements.no_elements = 0
count_dots (Elements.element (Json.string s) elements) =
    let rest = count_dots elements in if text_eq s (codes ".") then suc rest else rest
count_dots (Elements.element _ elements) = count_dots elements

-- A list has a `count` too, but no `split`; other values have none.
unfoldable pub decode_id_token_claims : (Text → Option Json) → Option Json → Result Members
decode_id_token_claims loads none = ok Members.no_members
decode_id_token_claims loads (some Json.falsy) = ok Members.no_members
decode_id_token_claims loads (some Json.scalar) = err Error.foreign
decode_id_token_claims loads (some (Json.string s)) = ok (middle_claims loads (split_on b'.' s))
decode_id_token_claims loads (some (Json.array elements)) =
    if count_dots elements == 2 then err Error.foreign else ok Members.no_members
decode_id_token_claims loads (some (Json.object Members.no_members)) = ok Members.no_members
decode_id_token_claims loads (some (Json.object _)) = err Error.foreign

-- errors that a new authorization cures
abbrev pub reauth_errors : List Text
reauth_errors = codes "invalid_grant" ∷ codes "unauthorized_client" ∷ codes "consent_required" ∷ []

-- `error in {...}`: a list and a dict cannot be looked up in a set
abbrev pub refusal_of : Option Json → Error
refusal_of (some (Json.string error)) =
    if contains error reauth_errors then reauth_required else connector_error
refusal_of (some (Json.array _)) = Error.foreign
refusal_of (some (Json.object _)) = Error.foreign
refusal_of _ = connector_error

-- `payload.get("error", "")`, which only a dict has
unfoldable pub refused_by : Json → Error
refused_by (Json.object members) = refusal_of (get_member (codes "error") members)
refused_by _ = Error.foreign

abbrev pub has_text : Text → Elements → Bool
has_text s Elements.no_elements = false
has_text s (Elements.element (Json.string t) elements) = text_eq t s || has_text s elements
has_text s (Elements.element _ elements) = has_text s elements

-- `part in text`
abbrev pub occurs_in : Text → Text → Bool
occurs_in part [] = is_empty part
occurs_in part (c ∷ s) = starts_with (c ∷ s) part || occurs_in part s

-- `"access_token" in payload`, which a number, a Boolean and None do not allow
abbrev pub has_access_token : Json → Result Bool
has_access_token (Json.object members) = ok (is_some (get_member (codes "access_token") members))
has_access_token (Json.array elements) = ok (has_text (codes "access_token") elements)
has_access_token (Json.string s) = ok (occurs_in (codes "access_token") s)
has_access_token _ = err Error.foreign

abbrev pub or_empty_dict : Option Json → Json
or_empty_dict none = Json.object Members.no_members
or_empty_dict (some payload) = payload

unfoldable pub accepted_by : Json → Result Json
accepted_by payload = do
  there ← has_access_token payload
  raise_if (not there) connector_error
  ok payload

-- the part of `_post_token` after the exchange
unfoldable pub read_response : Option Response → Result Json
read_response none = err Error.foreign
read_response (some response) =
    if leb 400 response.status_code
    then err (refused_by (or_empty_dict response.json))
    else accepted_by (or_empty_dict response.json)

-- keys of claims that may carry an address
abbrev pub address_keys : List Text
address_keys = codes "preferred_username" ∷ codes "email" ∷ codes "upn" ∷ codes "unique_name" ∷ []

abbrev pub address_in : Option Json → Option Text
address_in (some (Json.string value)) = if has_at value then some (normalised value) else none
address_in _ = none

abbrev pub first_address : List Text → Members → Option Text
first_address [] claims = none
first_address (key ∷ keys) claims = elim (address_in (get_member key claims)) [
  | some address ↦ some address
  | none ↦ first_address keys claims
]

abbrev pub fallback_of : Option Text → Option Json
fallback_of none = none
fallback_of (some s) = some (Json.string s)

-- `payload.get("refresh_token") or fallback_refresh`
unfoldable pub refresh_or : Option Json → Option Text → Option Json
refresh_or none fallback = fallback_of fallback
refresh_or (some value) fallback = if is_falsy value then fallback_of fallback else some value

-- `s.split()`, with the word that is being read
abbrev pub words_from : Text → Text → List Text
words_from word [] = if is_empty word then [] else word ∷ []
words_from word (c ∷ s) =
    let stop = words_from [] s in
    let go_on = words_from (word ++ c ∷ []) s in
    if is_space c then (if is_empty word then stop else word ∷ stop) else go_on

module _ (exchange : Exchange) where
  -- `int(payload.get("expires_in") or 3600)` from now on
  abbrev pub expiry : Option Json → Result ℕ
  expiry none = ok (exchange.now + 3600)
  expiry (some value) =
      if is_falsy value
      then ok (exchange.now + 3600)
      else elim (exchange.lifetime value) [ none ↦ err Error.foreign | some at ↦ ok at ]

  -- `str(payload.get("scope") or "")`
  abbrev pub scope_text : Option Json → Text
  scope_text none = []
  scope_text (some (Json.string s)) = s
  scope_text (some value) = if is_falsy value then [] else exchange.str value

  -- the tokens, once what may fail has been read
  abbrev pub new_token_set : Option Text → Members → ℕ → Members → Json → TokenSet
  new_token_set fallback payload expires_at claims access_token = record {
    access_token = access_token;
    refresh_token = refresh_or (get_member (codes "refresh_token") payload) fallback;
    expires_at = expires_at;
    scopes = words_from [] (scope_text (get_member (codes "scope") payload));
    address = first_address address_keys claims;
    claims = claims;
  }

  unfoldable pub token_set : Option Text → Json → Result TokenSet
  token_set fallback (Json.object payload) = do
    expires_at ← expiry (get_member (codes "expires_in") payload)
    claims ← decode_id_token_claims exchange.loads (get_member (codes "id_token") payload)
    access_token ← elim (get_member (codes "access_token") payload) [
      | none ↦ err Error.foreign
      | some value ↦ ok value
    ]
    ok (new_token_set fallback payload expires_at claims access_token)
  token_set fallback _ = err Error.foreign
