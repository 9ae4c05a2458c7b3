-- ===== src/Principal/Trust.antt =====
-- Which identities src/ccreport/auth/principal.py believes.
use mathlib.Core.Path.{subst}
use ccreport.Prelude.{
  ◌≡◌, refl, sym, ap, ◌∙◌, ◌⊎◌, inl, inr, true, false, Option, none, some, [], ◌∷◌, arith, ◌||◌,
  ◌&&◌, Bool-cases, Option-cases, is_some,
}
use ccreport.Prelude.Texts.{Text, codes, text_eq, text_eq_iff}
use ccreport.Errors.{Error, ok, err, Result-cases, principal_error, config_error}
use ccreport.Principal.Nobody.{ProveNobody, principal_from_headers-nobody}
use ccreport.Principal.{
  Principal, Texts, Json, Settings, header, normalise, claim_lookup, email_claims, agreed_upn,
  caller, decode_claims_header, principal_of_claims, principal_of_name, principal_from_headers,
  falls_back, effective_dev_principal, dev_principal, resolve_principal,
}

falls_back_lem : (e : Error) → falls_back e ≡ true → e ≡ principal_error
unfolding falls_back
falls_back_lem Error.principal_error h = refl
falls_back_lem Error.invalid_period h = absurd (ground arith)
falls_back_lem Error.config_error h = absurd (ground arith)
falls_back_lem Error.not_authorized h = absurd (ground arith)
falls_back_lem Error.connector_error h = absurd (ground arith)
falls_back_lem Error.reauth_required h = absurd (ground arith)
falls_back_lem Error.render_error h = absurd (ground arith)
falls_back_lem Error.report_not_found h = absurd (ground arith)
falls_back_lem Error.report_state_error h = absurd (ground arith)
falls_back_lem Error.item_not_found h = absurd (ground arith)
falls_back_lem Error.domain_denied h = absurd (ground arith)
falls_back_lem Error.not_on_allow_list h = absurd (ground arith)
falls_back_lem Error.insufficient_role h = absurd (ground arith)
falls_back_lem Error.account_not_found h = absurd (ground arith)
falls_back_lem Error.storage_error h = absurd (ground arith)
falls_back_lem Error.crypto_error h = absurd (ground arith)
falls_back_lem Error.inconsistent_principal h = absurd (ground arith)
falls_back_lem Error.value_error h = absurd (ground arith)
falls_back_lem Error.overflow_error h = absurd (ground arith)
falls_back_lem Error.foreign h = absurd (ground arith)

-- A name says nothing, or it says that the caller is this one.
abbrev pub Agrees : Option Text → Text → Type 0
Agrees name upn = (name ≡ none) ⊎ (name ≡ some upn)

pub agreed_upn_lem :
    (name claimed : Option Text) (upn : Text)
    → agreed_upn name claimed ≡ ok upn
    → Agrees name upn × Agrees claimed upn × ((name ≡ some upn) ⊎ (claimed ≡ some upn))
unfolding agreed_upn
agreed_upn_lem none none upn h = absurd (ground arith)
agreed_upn_lem (some name) none upn h =
    let same : name ≡ upn = cc in (inr (ap some same), inl refl, inl (ap some same))
agreed_upn_lem none (some claimed) upn h =
    let same : claimed ≡ upn = cc in (inl refl, inr (ap some same), inr (ap some same))
agreed_upn_lem (some name) (some claimed) upn h = elim (Bool-cases (text_eq name claimed)) [
  | inl equal ↦
      let both : name ≡ claimed = (text_eq_iff name claimed).0 equal in
      let same : claimed ≡ upn = ground arith in
      (inr (ap some (both ∙ same)), inr (ap some same), inr (ap some same))
  | inr apart ↦ absurd (ground arith)
]

-- A caller that is believed: the claims blob is there and decodes, and every name that header and
-- claims give is the caller's upn, at least one of them is given.
pub record Believed (decode : Text → Option Json) (headers : Texts) (p : Principal) : Type 0 where
  pub raw : (text : Text) × (header headers (codes "x-ms-client-principal") ≡ some text)
  pub decoded : decode_claims_header decode raw.0 ≡ ok p.claims
  pub name : Agrees (normalise (header headers (codes "x-ms-client-principal-name"))) p.upn
  pub claimed : Agrees (normalise (claim_lookup p.claims email_claims)) p.upn
  pub given :
      (normalise (header headers (codes "x-ms-client-principal-name")) ≡ some p.upn)
      ⊎ (normalise (claim_lookup p.claims email_claims) ≡ some p.upn)
  pub not_dev : p.is_dev ≡ false

module _ (decode : Text → Option Json) (headers : Texts) where
  Believed-of_claims :
      (raw : Text) (claims : Texts) (p : Principal)
      → header headers (codes "x-ms-client-principal") ≡ some raw
      → decode_claims_header decode raw ≡ ok claims
      → principal_of_claims decode headers claims ≡ ok p
      → Believed decode headers p
  unfolding principal_of_claims
  Believed-of_claims raw claims p there decoded h =
      let name = normalise (header headers (codes "x-ms-client-principal-name")) in
      let claimed = normalise (claim_lookup claims email_claims) in
      elim (Result-cases (agreed_upn name claimed)) [
        | inl (e, raised) ↦
            let refused : principal_of_claims decode headers claims ≡ err e =
              rw (raised, principal_of_claims) refl in
            absurd (ground (arith, refused, h))
        | inr (upn, agreed) ↦
            let built : principal_of_claims decode headers claims ≡ ok (caller headers claims upn) =
              rw (agreed, principal_of_claims) refl in
            let same : ok (caller headers claims upn) ≡ ok p = sym built ∙ h in
            let is_p : caller headers claims upn ≡ p = cc in
            let known = agreed_upn_lem name claimed upn agreed in
            subst (Believed decode headers) is_p (
              unfold caller in
              record {
                raw = (raw, there);
                decoded = decoded;
                name = known.0;
                claimed = known.1;
                given = known.2;
                not_dev = refl;
              })
      ]

  principal_of_name_strict : principal_of_name decode headers true ≡ err principal_error
  unfolding principal_of_name
  principal_of_name_strict = refl

  -- A caller is believed only if the claims blob is there and decodes, and header and claims do not
  -- contradict each other: every one of the two that names a caller names this one, and at least one
  -- does.
  pub principal_from_headers_lem :
      (p : Principal)
      → principal_from_headers decode headers true ≡ ok p
      → Believed decode headers p
  unfolding principal_from_headers principal_of_name
  principal_from_headers_lem p h =
      elim (Option-cases (header headers (codes "x-ms-client-principal"))) [
        | inl missing ↦
            let refused : principal_from_headers decode headers true ≡ err principal_error =
              rw (missing, principal_from_headers) refl in
            absurd (ground (arith, refused, h))
        | inr ([], bare) ↦
            let refused : principal_from_headers decode headers true ≡ err principal_error =
              rw (bare, principal_from_headers) refl in
            absurd (ground (arith, refused, h))
        | inr (c ∷ raw, there) ↦ elim (Result-cases (decode_claims_header decode (c ∷ raw))) [
          | inl (e, garbled) ↦
              let refused : principal_from_headers decode headers true ≡ err e =
                rw (there, garbled, principal_from_headers) refl in
              absurd (ground (arith, refused, h))
          | inr (claims, decoded) ↦
              let next : principal_from_headers decode headers true
                  ≡ principal_of_claims decode headers claims =
                rw (there, decoded, principal_from_headers) refl in
              Believed-of_claims (c ∷ raw) claims p there decoded (sym next ∙ h)
        ]
      ]

  effective_dev_principal_lem :
      (settings : Settings) (upn : Text)
      → effective_dev_principal settings ≡ some upn
      → (settings.on_azure ≡ false) × (settings.is_production ≡ false)
  unfolding effective_dev_principal
  effective_dev_principal_lem settings upn h =
      elim (Bool-cases (settings.on_azure || settings.is_production)) [
        | inl deployed ↦
            let none_here : effective_dev_principal settings ≡ none =
              rw (deployed, effective_dev_principal) refl in
            absurd (ground (arith, none_here, h))
        | inr local ↦ (ground arith, ground arith)
      ]

  dev_principal_lem :
      (settings : Settings) (p : Principal)
      → dev_principal settings ≡ ok p
      → (p.is_dev ≡ true) × (effective_dev_principal settings ≡ some p.upn)
  unfolding dev_principal
  dev_principal_lem settings p h = elim (Option-cases (effective_dev_principal settings)) [
    | inl missing ↦
        let refused : dev_principal settings ≡ err config_error =
          rw (missing, dev_principal) refl in
        absurd (ground (arith, refused, h))
    | inr ([], blank) ↦
        let refused : dev_principal settings ≡ err config_error = rw (blank, dev_principal) refl in
        absurd (ground (arith, refused, h))
    | inr (c ∷ upn, named) ↦
        let local : Principal = record {
          upn = c ∷ upn;
          display_name = some (codes "Local development");
          provider = some (codes "dev");
          object_id = none;
          claims = [];
          is_dev = true;
        } in
        let built : dev_principal settings ≡ ok local = rw (named, dev_principal) refl in
        let same : ok local ≡ ok p = sym built ∙ h in
        let is_p : local ≡ p = cc in
        (ap (λ q. q.is_dev) (sym is_p), named ∙ ap (λ q. some q.upn) is_p)
  ]

  -- What a request resolves to is a caller that is believed, or the development identity: that only
  -- where the installation is neither on Azure nor in production and names such an identity, and the
  -- headers prove no caller: the claims blob is missing or empty, or does not decode, or neither the blob
  -- nor the name header names anybody. A name header without a claims blob proves no caller either.
  -- Headers that contradict each other are never passed over.
  pub resolve_principal_lem :
      (settings : Settings) (p : Principal)
      → resolve_principal decode headers settings ≡ ok p
      → Believed decode headers p
        ⊎ (ProveNobody decode headers
            × (principal_from_headers decode headers true ≡ err principal_error)
            × (p.is_dev ≡ true)
            × (effective_dev_principal settings ≡ some p.upn)
            × (settings.on_azure ≡ false)
            × (settings.is_production ≡ false))
  unfolding resolve_principal
  resolve_principal_lem settings p h =
      elim (Result-cases (principal_from_headers decode headers true)) [
        | inr (q, trusted) ↦
            let passed : resolve_principal decode headers settings ≡ ok q =
              rw (trusted, resolve_principal) refl in
            let same : ok q ≡ ok p = sym passed ∙ h in
            let is_p : q ≡ p = cc in inl (principal_from_headers_lem p (trusted ∙ ap ok is_p))
        | inl (e, raised) ↦
            elim (Bool-cases (falls_back e && is_some (effective_dev_principal settings))) [
              | inl caught ↦
                  let passed : resolve_principal decode headers settings ≡ dev_principal settings =
                    rw (raised, caught, resolve_principal) refl in
                  let dev = dev_principal_lem settings p (sym passed ∙ h) in
                  let plain = falls_back_lem e (ground arith) in
                  let local = effective_dev_principal_lem settings p.upn dev.1 in
                  let refused = raised ∙ ap err plain in
                  inr (
                    principal_from_headers-nobody decode headers refused,
                    refused,
                    dev.0,
                    dev.1,
                    local.0,
                    local.1,
                  )
              | inr passed_on ↦
                  let refused : resolve_principal decode headers settings ≡ err e =
                    rw (raised, passed_on, resolve_principal) refl in
                  absurd (ground (arith, refused, h))
            ]
      ]
