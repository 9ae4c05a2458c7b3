-- ===== src/Principal/Nobody.antt =====
-- Headers that prove no caller (src/ccreport/auth/principal.py).
use ccreport.Prelude.{
  ◌≡◌, refl, sym, ap, ◌∙◌, inl, inr, true, Option, none, some, [], ◌∷◌, arith, Bool-cases,
  Option-cases,
}
use ccreport.Prelude.Texts.{Text, codes, text_eq}
use ccreport.Errors.{ok, err, Result-cases, principal_error}
use ccreport.Principal.{
  Texts, Json, header, normalise, claim_lookup, email_claims, agreed_upn, caller,
  decode_claims_header, principal_of_claims, principal_from_headers,
}

agreed_upn-nobody :
    (name claimed : Option Text)
    → agreed_upn name claimed ≡ err principal_error
    → (name ≡ none) × (claimed ≡ none)
unfolding agreed_upn
agreed_upn-nobody none none h = (refl, refl)
agreed_upn-nobody (some name) none h = absurd (ground (arith, h))
agreed_upn-nobody none (some claimed) h = absurd (ground (arith, h))
agreed_upn-nobody (some name) (some claimed) h = elim (Bool-cases (text_eq name claimed)) [
  | inl equal ↦ absurd (ground (arith, equal, h))
  | inr apart ↦ absurd (ground (arith, apart, h))
]

module _ (decode : Text → Option Json) (headers : Texts) where
  -- Headers that prove no caller: there is no claims blob, or it does not decode, or neither it nor the
  -- name header names anybody.
  pub data ProveNobody : Type 0 where
    missing : header headers (codes "x-ms-client-principal") ≡ none → ProveNobody
    bare : header headers (codes "x-ms-client-principal") ≡ some [] → ProveNobody
    garbled :
        (raw : Text)
        → header headers (codes "x-ms-client-principal") ≡ some raw
        → decode_claims_header decode raw ≡ err principal_error
        → ProveNobody
    nameless :
        (raw : Text) (claims : Texts)
        → header headers (codes "x-ms-client-principal") ≡ some raw
        → decode_claims_header decode raw ≡ ok claims
        → normalise (header headers (codes "x-ms-client-principal-name")) ≡ none
        → normalise (claim_lookup claims email_claims) ≡ none
        → ProveNobody

  ProveNobody-of_claims :
      (raw : Text) (claims : Texts)
      → header headers (codes "x-ms-client-principal") ≡ some raw
      → decode_claims_header decode raw ≡ ok claims
      → principal_of_claims decode headers claims ≡ err principal_error
      → ProveNobody
  unfolding principal_of_claims
  ProveNobody-of_claims raw claims there decoded h =
      let name = normalise (header headers (codes "x-ms-client-principal-name")) in
      let claimed = normalise (claim_lookup claims email_claims) in
      elim (Result-cases (agreed_upn name claimed)) [
        | inl (e, raised) ↦
            let refused : principal_of_claims decode headers claims ≡ err e =
              rw (raised, principal_of_claims) refl in
            let plain : e ≡ principal_error = ground (arith, refused, h) in
            let (no_name, no_claim) = agreed_upn-nobody name claimed (raised ∙ ap err plain) in
            nameless raw claims there decoded no_name no_claim
        | inr (upn, agreed) ↦
            let built : principal_of_claims decode headers claims ≡ ok (caller headers claims upn) =
              rw (agreed, principal_of_claims) refl in
            absurd (ground (arith, built, h))
      ]

  pub principal_from_headers-nobody :
      principal_from_headers decode headers true ≡ err principal_error → ProveNobody
  unfolding principal_from_headers
  principal_from_headers-nobody h =
      elim (Option-cases (header headers (codes "x-ms-client-principal"))) [
        | inl none_there ↦ missing none_there
        | inr ([], blank) ↦ bare blank
        | inr (c ∷ raw, there) ↦ elim (Result-cases (decode_claims_header decode (c ∷ raw))) [
          | inl (e, undecoded) ↦
              let refused : principal_from_headers decode headers true ≡ err e =
                rw (there, undecoded, principal_from_headers) refl in
              let plain : e ≡ principal_error = ground (arith, refused, h) in
              garbled (c ∷ raw) there (undecoded ∙ ap err plain)
          | inr (claims, decoded) ↦
              let next : principal_from_headers decode headers true
                  ≡ principal_of_claims decode headers claims =
                rw (there, decoded, principal_from_headers) refl in
              ProveNobody-of_claims (c ∷ raw) claims there decoded (sym next ∙ h)
        ]
      ]
