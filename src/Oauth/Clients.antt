-- ===== src/Oauth/Clients.antt =====
-- The two clients of src/ccreport/oauth.py. What `httpx.QueryParams` makes of the parameters of an
-- authorization URL is not modelled: the parameters are.
use ccreport.Prelude.{◌||◌, ◌==◌, Option, none, some, List, [], ◌∷◌, ◌++◌, if◌then◌else◌}
use ccreport.Prelude.Texts.{Text, codes, text_eq}
use ccreport.Errors.{Result, ok, err, config_error, ◌>>=◌, ◌>>◌, raise_if}
use ccreport.Storage.{is_empty}
use ccreport.Connectors.{or_empty}
use ccreport.Filters.Senders.{strip_back}
use ccreport.Accounts.Connecting.{scope_string}
use ccreport.Principal.{Texts, Json}
use ccreport.Oauth.{Exchange, TokenSet, read_response, token_set}

pub data ClientKind : Type 0 where
  microsoft : Text → ClientKind
  google : Option Text → ClientKind

-- A client: `microsoft` has the authority, `google` the hosted domain.
pub record Client : Type 0 where
  pub kind : ClientKind
  pub client_id : Text
  pub client_secret : Text
  pub scopes : List Text

-- the settings that the clients read; an unset secret is none
pub record ClientSettings : Type 0 where
  pub ms_client_id : Option Text
  pub ms_client_secret : Option Text
  pub ms_authority : Text
  pub ms_scope_list : List Text
  pub google_client_id : Option Text
  pub google_client_secret : Option Text
  pub google_scope_list : List Text
  pub google_hosted_domain : Option Text
  pub base_url : Text

-- `_OAuthClient.__init__`
unfoldable pub new_client : ClientKind → Text → Text → List Text → Result Client
new_client kind client_id client_secret scopes = do
  raise_if (is_empty client_id || is_empty client_secret) config_error
  ok (record { kind = kind; client_id = client_id; client_secret = client_secret; scopes = scopes })

-- `tuple(scopes) or (...)`
abbrev pub scopes_or : List Text → List Text → List Text
scopes_or [] defaults = defaults
scopes_or (scope ∷ scopes) defaults = scope ∷ scopes

abbrev pub microsoft_scopes : List Text
microsoft_scopes = codes "offline_access" ∷ codes "User.Read" ∷ codes "Mail.Read" ∷ []

abbrev pub google_scopes : List Text
google_scopes = codes "https://www.googleapis.com/auth/gmail.readonly" ∷ []

-- `text.rstrip("/")`
abbrev pub without_slash : Text → Text
without_slash = strip_back (λ c. c == b'/')

abbrev pub new_microsoft : ClientSettings → Result Client
new_microsoft settings =
    new_client (microsoft (without_slash settings.ms_authority)) (or_empty settings.ms_client_id)
      (or_empty settings.ms_client_secret) (scopes_or settings.ms_scope_list microsoft_scopes)

abbrev pub new_google : ClientSettings → Result Client
new_google settings =
    new_client (google settings.google_hosted_domain) (or_empty settings.google_client_id)
      (or_empty settings.google_client_secret) (scopes_or settings.google_scope_list google_scopes)

unfoldable pub build_oauth_client : Text → ClientSettings → Result Client
build_oauth_client provider settings =
    if text_eq provider (codes "graph")
    then new_microsoft settings
    else (if text_eq provider (codes "gmail") then new_google settings else err config_error)

unfoldable pub redirect_uri_for : Text → ClientSettings → Text
redirect_uri_for provider settings =
    without_slash settings.base_url ++ codes "/oauth/callback/" ++ provider

abbrev pub token_endpoint : ClientKind → Text
token_endpoint (microsoft authority) = authority ++ codes "/oauth2/v2.0/token"
token_endpoint (google _) = codes "https://oauth2.googleapis.com/token"

-- what is sent beside the fields of the call, which have other names
abbrev pub credentials : Client → Texts
credentials client =
    (codes "client_id", client.client_id) ∷ (codes "client_secret", client.client_secret) ∷ []

unfoldable pub post_token : Exchange → Client → Texts → Result Json
post_token exchange client fields =
    read_response (exchange.post (token_endpoint client.kind) (fields ++ credentials client))

-- Microsoft's client names the scopes again.
abbrev pub scope_field : Client → Texts
scope_field client = elim client.kind [
  | microsoft _ ↦ (codes "scope", scope_string client.scopes) ∷ []
  | google _ ↦ []
]

abbrev pub code_fields : Client → Text → Text → Text → Texts
code_fields client code redirect_uri code_verifier =
    (codes "grant_type", codes "authorization_code")
    ∷ (codes "code", code)
    ∷ (codes "redirect_uri", redirect_uri)
    ∷ (codes "code_verifier", code_verifier)
    ∷ scope_field client

abbrev pub refresh_fields : Client → Text → Texts
refresh_fields client refresh_token =
    (codes "grant_type", codes "refresh_token")
    ∷ (codes "refresh_token", refresh_token)
    ∷ scope_field client

unfoldable pub exchange_code : Exchange → Client → Text → Text → Text → Result TokenSet
exchange_code exchange client code redirect_uri code_verifier = do
  payload ← post_token exchange client (code_fields client code redirect_uri code_verifier)
  token_set exchange none payload

unfoldable pub refresh : Exchange → Client → Text → Result TokenSet
refresh exchange client refresh_token = do
  payload ← post_token exchange client (refresh_fields client refresh_token)
  token_set exchange (some refresh_token) payload

abbrev pub first_params : Client → Text → Texts
first_params client redirect_uri =
    (codes "client_id", client.client_id)
    ∷ (codes "response_type", codes "code")
    ∷ (codes "redirect_uri", redirect_uri)
    ∷ []

abbrev pub challenge_params : Text → Text → Texts
challenge_params state code_challenge =
    (codes "state", state)
    ∷ (codes "code_challenge", code_challenge)
    ∷ (codes "code_challenge_method", codes "S256")
    ∷ []

-- `if self.hosted_domain: params["hd"] = ...`
abbrev pub domain_param : Option Text → Texts
domain_param none = []
domain_param (some domain) = if is_empty domain then [] else (codes "hd", domain) ∷ []

unfoldable pub microsoft_params : Client → Text → Text → Text → Texts
microsoft_params client redirect_uri state code_challenge =
    first_params client redirect_uri
    ++ ((codes "response_mode", codes "query")
          ∷ (codes "scope", scope_string client.scopes)
          ∷ challenge_params state code_challenge
        ++ (codes "prompt", codes "select_account") ∷ [])

unfoldable pub google_params : Client → Option Text → Text → Text → Text → Texts
google_params client hosted_domain redirect_uri state code_challenge =
    first_params client redirect_uri
    ++ ((codes "scope", scope_string (codes "openid" ∷ codes "email" ∷ client.scopes))
          ∷ challenge_params state code_challenge
        ++ (codes "access_type", codes "offline")
          ∷ (codes "prompt", codes "consent")
          ∷ (codes "include_granted_scopes", codes "true")
          ∷ domain_param hosted_domain)

-- the parameters of `authorization_url`, by the class of the client
unfoldable pub authorization_params : Client → Text → Text → Text → Texts
authorization_params client redirect_uri state code_challenge = elim client.kind [
  | microsoft authority ↦ microsoft_params client redirect_uri state code_challenge
  | google hosted_domain ↦ google_params client hosted_domain redirect_uri state code_challenge
]
