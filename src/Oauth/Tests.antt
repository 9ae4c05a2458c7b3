-- ===== src/Oauth/Tests.antt =====
-- Runs of the token endpoint's client, and each theorem at a concrete input.
use native.Mathlib.Decide.{ℕ_discrete}
use ccreport.Prelude.{ℕ, ◌≡◌, refl, ◌↔◌, Option, none, some, [], ◌∷◌}
use ccreport.Prelude.Texts.{
  Text, codes, lower, lower_code, strip, lstrip, rstrip, push_unless_blank, is_space, starts_with,
  Text-discrete,
}
use ccreport.Errors.{Error, ok, err, reauth_required, connector_error, config_error}
use ccreport.Filters.Senders.{split_on, push_to_first}
use ccreport.Accounts.Connecting.{scope_string}
use ccreport.Principal.{Json, Members, get_member}
use ccreport.Oauth.{
  Exchange, Response, TokenSet, decode_id_token_claims, refused_by, accepted_by, read_response,
  refresh_or, token_set,
}
use ccreport.Oauth.Clients.{
  Client, ClientKind, ClientSettings, new_client, build_oauth_client, redirect_uri_for, post_token,
  exchange_code, refresh, authorization_params, microsoft_params, google_params,
}
use ccreport.Oauth.Renewed.{IsReauthAnswer, IsRenewed, answer_to, refresh_lem, refresh-reauth_iff}

program : Unit {0}
unfolding lower lower_code strip lstrip rstrip push_unless_blank is_space starts_with Text-discrete
    ℕ_discrete split_on push_to_first scope_string get_member decode_id_token_claims refused_by
    accepted_by read_response refresh_or token_set new_client build_oauth_client redirect_uri_for
    post_token exchange_code refresh authorization_params microsoft_params google_params
program = tt

abbrev text_member : Text → Text → Members → Members
text_member name value members = Members.member name (Json.string value) members

-- `{"email": " Ada@X.org "}`, the middle of an ID token
abbrev id_claims : Members
id_claims = text_member (codes "email") (codes " Ada@X.org ") Members.no_members

abbrev granted : Members
granted = text_member (codes "access_token") (codes "new") (
    text_member (codes "scope") (codes "openid  email")
      (text_member (codes "id_token") (codes "a.b.c") Members.no_members))

abbrev revoked : Members
revoked = text_member (codes "error") (codes "invalid_grant") Members.no_members

abbrev answering : ℕ → Option Json → Exchange
answering status json = record {
  post = λ url fields. some (record { status_code = status; json = json });
  loads = λ s. some (Json.object id_claims);
  now = 100;
  lifetime = λ value. none;
  str = λ value. [];
}

abbrev gmail : Client
gmail = record {
  kind = ClientKind.google none;
  client_id = codes "id";
  client_secret = codes "secret";
  scopes = codes "mail" ∷ [];
}

abbrev settings : ClientSettings
settings = record {
  ms_client_id = none;
  ms_client_secret = none;
  ms_authority = codes "https://login/";
  ms_scope_list = [];
  google_client_id = some (codes "id");
  google_client_secret = some (codes "secret");
  google_scope_list = codes "mail" ∷ [];
  google_hosted_domain = none;
  base_url = codes "https://x.org/";
}

builds_gmail : build_oauth_client (codes "gmail") settings ≡ ok gmail
unfolding program
builds_gmail = refl

misses_graph : build_oauth_client (codes "graph") settings ≡ err config_error
unfolding program
misses_graph = refl

has_redirect :
    redirect_uri_for (codes "gmail") settings ≡ codes "https://x.org/oauth/callback/gmail"
unfolding program
has_redirect = refl

-- Google is asked for consent, with the challenge and its method.
asks_google :
    authorization_params gmail (codes "/back") (codes "st") (codes "ch")
    ≡ (codes "client_id", codes "id")
      ∷ (codes "response_type", codes "code")
      ∷ (codes "redirect_uri", codes "/back")
      ∷ (codes "scope", codes "openid email mail")
      ∷ (codes "state", codes "st")
      ∷ (codes "code_challenge", codes "ch")
      ∷ (codes "code_challenge_method", codes "S256")
      ∷ (codes "access_type", codes "offline")
      ∷ (codes "prompt", codes "consent")
      ∷ (codes "include_granted_scopes", codes "true")
      ∷ []
unfolding program
asks_google = refl

-- Google leaves the refresh token out, and the one that was used is kept.
abbrev renewed : TokenSet
renewed = record {
  access_token = Json.string (codes "new");
  refresh_token = some (Json.string (codes "old"));
  expires_at = 3700;
  scopes = codes "openid" ∷ codes "email" ∷ [];
  address = some (codes "ada@x.org");
  claims = id_claims;
}

renews : refresh (answering 200 (some (Json.object granted))) gmail (codes "old") ≡ ok renewed
unfolding program
renews = refl

asks_again :
    refresh (answering 400 (some (Json.object revoked))) gmail (codes "old") ≡ err reauth_required
unfolding program
asks_again = refl

-- A failure page that is no JSON counts as an empty object.
fails : refresh (answering 503 none) gmail (codes "old") ≡ err connector_error
unfolding program
fails = refl

-- JSON that is no object has no `get`.
breaks :
    refresh (answering 502 (some (Json.string (codes "Bad Gateway")))) gmail (codes "old")
    ≡ err Error.foreign
unfolding program
breaks = refl

refresh_lem_example :
    (response : Response) × (answer_to
        (answering 200 (some (Json.object granted)))
        gmail
        (codes "old")
      ≡ some response)
    × IsRenewed response (codes "old") renewed
refresh_lem_example =
    refresh_lem (answering 200 (some (Json.object granted))) gmail (codes "old") renewed refl renews

refresh-reauth_iff_example :
    (refresh (answering 400 (some (Json.object revoked))) gmail (codes "old") ≡ err reauth_required)
    ↔ ((response : Response) × (answer_to
            (answering 400 (some (Json.object revoked)))
            gmail
            (codes "old")
          ≡ some response)
        × IsReauthAnswer response)
refresh-reauth_iff_example =
    refresh-reauth_iff (answering 400 (some (Json.object revoked))) gmail (codes "old")
