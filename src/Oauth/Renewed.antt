-- ===== src/Oauth/Renewed.antt =====
-- Renewing an access token: what it gives and when it is refused (src/ccreport/oauth.py).
use ccreport.Prelude.{
  ◌≡◌, refl, sym, ap, ◌∙◌, true, false, Option, none, some, ◌++◌, arith, leb, Bool-cases, ◌⊎◌, inl,
  inr, ◌↔◌,
}
use ccreport.Prelude.Texts.{Text, codes, contains}
use ccreport.Errors.{ok, err, reauth_required, Result-cases}
use ccreport.Storage.{is_empty}
use ccreport.Accounts.Connect.{is_reauth}
use ccreport.Principal.{Json, Members, get_member}
use ccreport.Oauth.{
  Exchange, Response, TokenSet, is_falsy, reauth_errors, refused_by, has_access_token, accepted_by,
  read_response, token_set, or_empty_dict,
}
use ccreport.Oauth.Answers.{
  refused_by-reauth, accepted_by-ok, accepted_by-err, refresh_or-usable, token_set-ok,
  token_set-err,
}
use ccreport.Oauth.Clients.{
  Client, refresh, refresh_fields, post_token, token_endpoint, credentials,
}

-- The endpoint said that the credential needs a new authorization.
pub record IsReauthAnswer (response : Response) : Type 0 where
  pub refused : leb 400 response.status_code ≡ true
  pub payload : Members
  pub decoded : response.json ≡ some (Json.object payload)
  pub error : Text
  pub named : get_member (codes "error") payload ≡ some (Json.string error)
  pub listed : contains error reauth_errors ≡ true

-- The tokens are what the endpoint gave, with a refresh token that can be used.
pub record IsRenewed (response : Response) (used : Text) (tokens : TokenSet) : Type 0 where
  pub accepted : leb 400 response.status_code ≡ false
  pub payload : Members
  pub decoded : response.json ≡ some (Json.object payload)
  pub access : get_member (codes "access_token") payload ≡ some tokens.access_token
  pub refresh_token : Json
  pub stored : tokens.refresh_token ≡ some refresh_token
  pub usable : is_falsy refresh_token ≡ false
  pub origin :
      (refresh_token ≡ Json.string used)
      ⊎ (get_member (codes "refresh_token") payload ≡ some refresh_token)

-- The answer to the request that a renewal sends.
abbrev pub answer_to : Exchange → Client → Text → Option Response
answer_to exchange client used =
    exchange.post (token_endpoint client.kind) (refresh_fields client used ++ credentials client)

-- An answer that is passed on is no refusal, and it is a decoded payload with an access token.
read_response-ok :
    (answer : Option Response) (payload : Json)
    → read_response answer ≡ ok payload
    → (response : Response) × (answer ≡ some response)
      × (leb 400 response.status_code ≡ false)
      × (or_empty_dict response.json ≡ payload)
      × (has_access_token (or_empty_dict response.json) ≡ ok true)
unfolding read_response
read_response-ok none payload h = absurd (ground (arith, h))
read_response-ok (some response) payload h = elim (Bool-cases (leb 400 response.status_code)) [
  | inl bad ↦
      let refused : read_response (some response) ≡ err (refused_by (or_empty_dict response.json)) =
        rw (bad, read_response) refl in
      absurd (ground (arith, refused, h))
  | inr good ↦
      let passed : read_response (some response) ≡ accepted_by (or_empty_dict response.json) =
        rw (good, read_response) refl in
      let (same, there) = accepted_by-ok (or_empty_dict response.json) (sym passed ∙ h) in
      (response, refl, good, same, there)
]

read_response-err :
    (answer : Option Response)
    → read_response answer ≡ err reauth_required
    → (response : Response) × (answer ≡ some response) × IsReauthAnswer response
unfolding read_response is_reauth
read_response-err none h = absurd (ground (arith, h))
read_response-err (some response) h = elim (Bool-cases (leb 400 response.status_code)) [
  | inl bad ↦
      let refused : read_response (some response) ≡ err (refused_by (or_empty_dict response.json)) =
        rw (bad, read_response) refl in
      let reauth : refused_by (or_empty_dict response.json) ≡ reauth_required =
        ground (arith, refused, h) in
      let (payload, decoded, error, named, listed) = refused_by-reauth response.json reauth in
      (
        response,
        refl,
        record {
          refused = bad;
          payload = payload;
          decoded = decoded;
          error = error;
          named = named;
          listed = listed;
        },
      )
  | inr good ↦
      let passed : read_response (some response) ≡ accepted_by (or_empty_dict response.json) =
        rw (good, read_response) refl in
      let other = accepted_by-err (or_empty_dict response.json) (sym passed ∙ h) in
      absurd (ground (arith, other))
]

IsReauthAnswer-read :
    (response : Response)
    → IsReauthAnswer response
    → read_response (some response) ≡ err reauth_required
unfolding read_response refused_by
IsReauthAnswer-read response a =
    rw (a.refused, a.decoded, read_response, refused_by, a.named, a.listed) refl

decoded-of_dict :
    (json : Option Json) (fields : Members)
    → or_empty_dict json ≡ Json.object fields
    → has_access_token (or_empty_dict json) ≡ ok true
    → json ≡ some (Json.object fields)
unfolding get_member
decoded-of_dict none fields same there = absurd (ground (arith, there))
decoded-of_dict (some payload) fields same there = rw same refl

-- Renewing an access token with a refresh token that is not empty, if it succeeds, was answered with a
-- status below 400 and an object that has the access token returned. The refresh token returned is
-- there and is not empty: it is the one in the answer, or the one that was used.
pub refresh_lem :
    (exchange : Exchange) (client : Client) (used : Text) (tokens : TokenSet)
    → is_empty used ≡ false
    → refresh exchange client used ≡ ok tokens
    → (response : Response) × (answer_to exchange client used ≡ some response)
      × IsRenewed response used tokens
unfolding refresh post_token
refresh_lem exchange client used tokens solid h =
    let answer = answer_to exchange client used in
    elim (Result-cases (read_response answer)) [
      | inl (e, raised) ↦
          let refused : refresh exchange client used ≡ err e =
            rw (refresh, post_token, raised) refl in
          absurd (ground (arith, refused, h))
      | inr (payload, read) ↦
          let passed : refresh exchange client used ≡ token_set exchange (some used) payload =
            rw (refresh, post_token, read) refl in
          let (fields, object, access, kept) =
            token_set-ok exchange (some used) payload tokens (sym passed ∙ h) in
          let (response, answered, good, same, there) = read_response-ok answer payload read in
          let (token, stored, usable, origin) =
            refresh_or-usable (get_member (codes "refresh_token") fields) used solid in
          (
            response,
            answered,
            record {
              accepted = good;
              payload = fields;
              decoded = decoded-of_dict response.json fields (same ∙ object) there;
              access = access;
              refresh_token = token;
              stored = kept ∙ stored;
              usable = usable;
              origin = origin;
            },
          )
    ]

-- Renewing an access token asks for a new authorization exactly if the answer has a status of 400 or
-- more and is an object whose error is one of the three that a new authorization cures.
pub refresh-reauth_iff :
    (exchange : Exchange) (client : Client) (used : Text)
    → (refresh exchange client used ≡ err reauth_required) ↔ (
        (response : Response) × (answer_to exchange client used ≡ some response)
        × IsReauthAnswer response)
unfolding refresh post_token is_reauth
refresh-reauth_iff exchange client used =
    let answer = answer_to exchange client used in
    (
      λ h. elim (Result-cases (read_response answer)) [
        | inl (e, raised) ↦
            let refused : refresh exchange client used ≡ err e =
              rw (refresh, post_token, raised) refl in
            let reauth : e ≡ reauth_required = ground (arith, refused, h) in
            read_response-err answer (raised ∙ ap err reauth)
        | inr (payload, read) ↦
            let passed : refresh exchange client used ≡ token_set exchange (some used) payload =
              rw (refresh, post_token, read) refl in
            let other = token_set-err exchange (some used) payload (sym passed ∙ h) in
            absurd (ground (arith, other))
      ],
      λ (response, answered, a).
          rw (refresh, post_token, answered, IsReauthAnswer-read response a) refl,
    )
