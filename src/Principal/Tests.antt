-- ===== src/Principal/Tests.antt =====
-- Runs of the header parser, and each theorem at a concrete input.
use native.Mathlib.Decide.{ℕ_discrete}
use ccreport.Prelude.{◌≡◌, refl, ◌⊎◌, true, false, Option, none, some, [], ◌∷◌}
use ccreport.Prelude.Texts.{
  Text, codes, lower, lower_code, strip, lstrip, rstrip, push_unless_blank, is_space, starts_with,
  Text-discrete,
}
use ccreport.Errors.{err, principal_error, inconsistent_principal}
use ccreport.OrderedDict.{lookup, assign}
use ccreport.Principal.{
  Principal, Texts, Json, Elements, Members, Settings, normalise, or_none, before_ext,
  replace_first_underscore, get_member, add_claim, add_claims, collect_claims, setdefault,
  default_name, default_auth, claim_lookup, lowered_onto, effective_dev_principal, dev_principal,
  agreed_upn, caller, decode_claims_header, principal_of_claims, principal_of_name,
  principal_from_headers, falls_back, resolve_principal,
}
use ccreport.Principal.Nobody.{ProveNobody}
use ccreport.Principal.Trust.{Believed, principal_from_headers_lem, resolve_principal_lem}

program : Unit {0}
unfolding lower lower_code strip lstrip rstrip push_unless_blank is_space starts_with Text-discrete
    ℕ_discrete lookup assign normalise or_none before_ext replace_first_underscore get_member
    add_claim add_claims collect_claims setdefault default_name default_auth claim_lookup
    lowered_onto effective_dev_principal dev_principal agreed_upn caller decode_claims_header
    principal_of_claims principal_of_name principal_from_headers falls_back resolve_principal
program = tt

-- `{"claims": [{"typ": "upn", "val": "Ada@Edu"}]}`
abbrev document : Json
document = Json.object (
    Members.member (codes "claims")
      (Json.array (
        Elements.element
          (Json.object (
            Members.member (codes "typ") (Json.string (codes "upn"))
              (Members.member (codes "val") (Json.string (codes "Ada@Edu")) Members.no_members)))
          Elements.no_elements))
      Members.no_members)

abbrev decode : Text → Option Json
decode raw = some document

abbrev headers : Text → Texts
headers name =
    (codes "X-MS-CLIENT-PRINCIPAL", codes "e30") ∷ (codes "X-MS-CLIENT-PRINCIPAL-NAME", name) ∷ []

abbrev ada : Principal
ada = record {
  upn = codes "ada@edu";
  display_name = none;
  provider = none;
  object_id = none;
  claims = (codes "upn", codes "Ada@Edu") ∷ [];
  is_dev = false;
}

abbrev laptop : Settings
laptop = record { on_azure = false; is_production = false; dev_principal = some (codes "dev@edu") }

refuses_another_name :
    principal_from_headers decode (headers (codes "eve@edu")) true ≡ err inconsistent_principal
unfolding program
refuses_another_name = refl

reads_guest_name : normalise (some (codes "Ada_Edu.org#EXT#@host")) ≡ some (codes "ada@edu.org")
unfolding program
reads_guest_name = refl

-- the first underscore becomes the at sign, also where the name before it has one
splits_at_first_underscore :
    normalise (some (codes "a_b_edu.org#EXT#@host")) ≡ some (codes "a@b_edu.org")
unfolding program
splits_at_first_underscore = refl

principal_from_headers_lem_example : Believed decode (headers (codes "ADA@edu ")) ada
unfolding program
principal_from_headers_lem_example =
    principal_from_headers_lem decode (headers (codes "ADA@edu ")) ada refl

resolve_principal_lem_example :
    Believed decode (headers (codes "ada@edu")) ada
    ⊎ (ProveNobody decode (headers (codes "ada@edu"))
        × (principal_from_headers decode (headers (codes "ada@edu")) true ≡ err principal_error)
        × (ada.is_dev ≡ true)
        × (effective_dev_principal laptop ≡ some ada.upn)
        × (laptop.on_azure ≡ false)
        × (laptop.is_production ≡ false))
unfolding program
resolve_principal_lem_example =
    resolve_principal_lem decode (headers (codes "ada@edu")) laptop ada refl
