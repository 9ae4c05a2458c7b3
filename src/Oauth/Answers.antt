-- ===== src/Oauth/Answers.antt =====
-- What each part of reading a token endpoint's answer gives (src/ccreport/oauth.py).
use ccreport.Prelude.{
  ℕ, ◌+◌, ◌≡◌, refl, ap, true, false, Option, none, some, [], ◌∷◌, arith, Bool-cases, Option-cases,
  ◌⊎◌, inl, inr,
}
use ccreport.Prelude.Texts.{Text, codes, contains}
use ccreport.Errors.{Error, Result, ok, err, reauth_required, Result-cases}
use ccreport.Storage.{is_empty}
use ccreport.Accounts.Connect.{is_reauth}
use ccreport.Principal.{Json, Members, get_member}
use ccreport.Oauth.{
  Exchange, TokenSet, is_falsy, reauth_errors, refusal_of, refused_by, has_access_token,
  accepted_by, token_set, refresh_or, decode_id_token_claims, expiry, or_empty_dict, new_token_set,
}

refusal_of-reauth :
    (error : Option Json)
    → refusal_of error ≡ reauth_required
    → (s : Text) × (error ≡ some (Json.string s)) × (contains s reauth_errors ≡ true)
refusal_of-reauth none h = absurd (ground (arith, h))
refusal_of-reauth (some Json.falsy) h = absurd (ground (arith, h))
refusal_of-reauth (some Json.scalar) h = absurd (ground (arith, h))
refusal_of-reauth (some (Json.array es)) h = absurd (ground (arith, h))
refusal_of-reauth (some (Json.object ms)) h = absurd (ground (arith, h))
refusal_of-reauth (some (Json.string s)) h = elim (Bool-cases (contains s reauth_errors)) [
  | inl listed ↦ (s, refl, listed)
  | inr other ↦
      let plain : refusal_of (some (Json.string s)) ≡ Error.connector_error = rw other refl in
      absurd (ground (arith, plain, h))
]

pub refused_by-reauth :
    (json : Option Json)
    → refused_by (or_empty_dict json) ≡ reauth_required
    → (payload : Members) × (json ≡ some (Json.object payload))
      × (s : Text) × (get_member (codes "error") payload ≡ some (Json.string s))
      × (contains s reauth_errors ≡ true)
unfolding refused_by get_member
refused_by-reauth none h = absurd (ground (arith, h))
refused_by-reauth (some Json.falsy) h = absurd (ground (arith, h))
refused_by-reauth (some Json.scalar) h = absurd (ground (arith, h))
refused_by-reauth (some (Json.string s)) h = absurd (ground (arith, h))
refused_by-reauth (some (Json.array es)) h = absurd (ground (arith, h))
refused_by-reauth (some (Json.object ms)) h =
    let (error, named, listed) = refusal_of-reauth (get_member (codes "error") ms) h in
    (ms, refl, error, named, listed)

has_access_token-err :
    {e : Error} (payload : Json) → has_access_token payload ≡ err e → e ≡ Error.foreign
has_access_token-err Json.falsy h = ground (arith, h)
has_access_token-err Json.scalar h = ground (arith, h)
has_access_token-err (Json.string s) h = absurd (ground (arith, h))
has_access_token-err (Json.array es) h = absurd (ground (arith, h))
has_access_token-err (Json.object ms) h = absurd (ground (arith, h))

-- An answer that is accepted is passed on; one that is not never asks for a new authorization.
pub accepted_by-ok :
    (payload : Json) {result : Json}
    → accepted_by payload ≡ ok result
    → (payload ≡ result) × (has_access_token payload ≡ ok true)
unfolding accepted_by
accepted_by-ok payload h = elim (Result-cases (has_access_token payload)) [
  | inl (e, raised) ↦
      let refused : accepted_by payload ≡ err e = rw (raised, accepted_by) refl in
      absurd (ground (arith, refused, h))
  | inr (true, there) ↦
      let passed : accepted_by payload ≡ ok payload = rw (there, accepted_by) refl in
      (ground (arith, passed, h), there)
  | inr (false, absent) ↦
      let refused : accepted_by payload ≡ err Error.connector_error =
        rw (absent, accepted_by) refl in
      absurd (ground (arith, refused, h))
]

pub accepted_by-err :
    {e : Error} (payload : Json) → accepted_by payload ≡ err e → is_reauth e ≡ false
unfolding accepted_by is_reauth
accepted_by-err payload h = elim (Result-cases (has_access_token payload)) [
  | inl (e, raised) ↦
      let refused : accepted_by payload ≡ err e = rw (raised, accepted_by) refl in
      let other = has_access_token-err payload raised in ground (arith, refused, h, other)
  | inr (true, there) ↦
      let passed : accepted_by payload ≡ ok payload = rw (there, accepted_by) refl in
      absurd (ground (arith, passed, h))
  | inr (false, absent) ↦
      let refused : accepted_by payload ≡ err Error.connector_error =
        rw (absent, accepted_by) refl in
      ground (arith, refused, h)
]

expiry-err :
    {e : Error} (exchange : Exchange) (value : Option Json)
    → expiry exchange value ≡ err e
    → e ≡ Error.foreign
expiry-err exchange none h = absurd (ground (arith, h))
expiry-err exchange (some value) h = elim (Bool-cases (is_falsy value)) [
  | inl empty ↦
      let given : expiry exchange (some value) ≡ ok (exchange.now + 3600) = rw empty refl in
      absurd (ground (arith, given, h))
  | inr full ↦ elim (Option-cases (exchange.lifetime value)) [
    | inl no_number ↦
        let raised : expiry exchange (some value) ≡ err Error.foreign = rw (full, no_number) refl in
        ground (arith, raised, h)
    | inr (at, number) ↦
        let given : expiry exchange (some value) ≡ ok at = rw (full, number) refl in
        absurd (ground (arith, given, h))
  ]
]

decode-err :
    {e : Error} (loads : Text → Option Json) (value : Option Json)
    → decode_id_token_claims loads value ≡ err e
    → e ≡ Error.foreign
unfolding decode_id_token_claims
decode-err loads none h = absurd (ground (arith, h))
decode-err loads (some Json.falsy) h = absurd (ground (arith, h))
decode-err loads (some Json.scalar) h = ground (arith, h)
decode-err loads (some (Json.string s)) h = absurd (ground (arith, h))
decode-err loads (some (Json.array es)) h = ground (arith, h)
decode-err loads (some (Json.object Members.no_members)) h = absurd (ground (arith, h))
decode-err loads (some (Json.object (Members.member s v ms))) h = ground (arith, h)

-- The tokens that are made of a payload.
record IsMade (exchange : Exchange) (fallback : Option Text) (payload : Members)
    (result : Result TokenSet) : Type 0 where
  expires_at : ℕ
  claims : Members
  access_token : Json
  access : get_member (codes "access_token") payload ≡ some access_token
  made : result ≡ ok (new_token_set exchange fallback payload expires_at claims access_token)

module _ (exchange : Exchange) (fallback : Option Text) where
  token_set-cases :
      (payload : Members)
      → let result = token_set exchange fallback (Json.object payload) in
        (result ≡ err Error.foreign) ⊎ IsMade exchange fallback payload result
  unfolding token_set
  token_set-cases payload =
      let expires_in = get_member (codes "expires_in") payload in
      let id_token = get_member (codes "id_token") payload in
      elim (Result-cases (expiry exchange expires_in)) [
        | inl (e, raised) ↦
            inl (rw (raised, token_set) (ap err (expiry-err exchange expires_in raised)))
        | inr (at, ends) ↦ elim (Result-cases (decode_id_token_claims exchange.loads id_token)) [
          | inl (e, raised) ↦
              inl
                (rw (ends, raised, token_set) (ap err (decode-err exchange.loads id_token raised)))
          | inr (claims, read) ↦ elim (Option-cases (get_member (codes "access_token") payload)) [
            | inl absent ↦ inl (rw (ends, read, absent, token_set) refl)
            | inr (value, there) ↦ inr (record {
              expires_at = at;
              claims = claims;
              access_token = value;
              access = there;
              made = rw (ends, read, there, token_set) refl;
            })
          ]
        ]
      ]

  pub token_set-ok :
      (payload : Json) (tokens : TokenSet)
      → token_set exchange fallback payload ≡ ok tokens
      → (fields : Members) × (payload ≡ Json.object fields)
        × (get_member (codes "access_token") fields ≡ some tokens.access_token)
        × (tokens.refresh_token ≡ refresh_or (get_member (codes "refresh_token") fields) fallback)
  unfolding token_set
  token_set-ok Json.falsy tokens h = absurd (ground (arith, h))
  token_set-ok Json.scalar tokens h = absurd (ground (arith, h))
  token_set-ok (Json.string s) tokens h = absurd (ground (arith, h))
  token_set-ok (Json.array es) tokens h = absurd (ground (arith, h))
  token_set-ok (Json.object fields) tokens h = elim (token_set-cases fields) [
    | inl raised ↦ absurd (ground (arith, raised, h))
    | inr m ↦
        let made = m.made in
        let same : tokens
            ≡ new_token_set exchange fallback fields m.expires_at m.claims m.access_token =
          ground (arith, made, h) in
        (fields, refl, rw same m.access, ap (λ t. t.refresh_token) same)
  ]

  pub token_set-err :
      {e : Error} (payload : Json)
      → token_set exchange fallback payload ≡ err e
      → is_reauth e ≡ false
  unfolding token_set is_reauth
  token_set-err Json.falsy h = ground (arith, h)
  token_set-err Json.scalar h = ground (arith, h)
  token_set-err (Json.string s) h = ground (arith, h)
  token_set-err (Json.array es) h = ground (arith, h)
  token_set-err (Json.object payload) h = elim (token_set-cases payload) [
    | inl raised ↦ ground (arith, raised, h)
    | inr m ↦ let made = m.made in absurd (ground (arith, made, h))
  ]

-- A refresh token that is kept can be used.
pub refresh_or-usable :
    (given : Option Json) (used : Text)
    → is_empty used ≡ false
    → (v : Json) × (refresh_or given (some used) ≡ some v)
      × (is_falsy v ≡ false)
      × ((v ≡ Json.string used) ⊎ (given ≡ some v))
unfolding refresh_or
refresh_or-usable given [] h = absurd (ground (arith, h))
refresh_or-usable none (c ∷ used) h = (Json.string (c ∷ used), refl, refl, inl refl)
refresh_or-usable (some value) (c ∷ used) h = elim (Bool-cases (is_falsy value)) [
  | inl falsy ↦ (Json.string (c ∷ used), rw falsy refl, refl, inl refl)
  | inr truthy ↦ (value, rw truthy refl, truthy, inr refl)
]
