-- ===== src/Accounts/Credentials.antt =====
-- The stored credential while a mailbox is being connected (src/ccreport/accounts.py).
use native.Mathlib.Decide.{ℕ_discrete}
use mathlib.Core.Logic.{if_pos, if_neg}
use ccreport.Prelude.{ℕ, ◌≡◌, ◌≢◌, refl, sym, ap, ◌∙◌, some, List, Option-cases, inl, inr}
use ccreport.Prelude.Texts.{Text}
use ccreport.OrderedDict.{lookup, assign, lookup-assign}
use ccreport.Accounts.{StoredToken}
use ccreport.Accounts.Connect.{Services, seal_secret, sealed_row, open_secret}
use ccreport.Accounts.Connecting.{set_expiry}

module _ (services : Services) (id : ℕ) (secret : Text) (now : ℕ)
    (tokens : List (ℕ × StoredToken)) where
  sealed-lookup :
      (row : StoredToken) × (lookup ℕ_discrete id (seal_secret services id secret now tokens)
        ≡ some row)
      × (row.sealed ≡ services.seal secret)
  unfolding seal_secret sealed_row
  sealed-lookup =
      let row = sealed_row (services.seal secret) now (lookup ℕ_discrete id tokens) in
      (
        row,
        lookup-assign ℕ_discrete id id row tokens ∙ if_pos (ℕ_discrete id id) refl _ _,
        elim (Option-cases (lookup ℕ_discrete id tokens)) [
          | inl absent ↦ rw absent refl
          | inr (old, found) ↦ rw found refl
        ],
      )

  pub sealed-others :
      (j : ℕ)
      → j ≢ id
      → lookup ℕ_discrete j (seal_secret services id secret now tokens) ≡ lookup ℕ_discrete j tokens
  unfolding seal_secret
  sealed-others j other =
      lookup-assign ℕ_discrete id j _ tokens ∙ if_neg (ℕ_discrete id j) (λ e. other (sym e)) _ _

  pub sealed-opens :
      open_secret services id (seal_secret services id secret now tokens)
      ≡ services.open_sealed (services.seal secret)
  unfolding open_secret
  sealed-opens =
      let (row, found, same) = sealed-lookup in
      rw (found, open_secret) (ap services.open_sealed same)

open_of_row :
    (services : Services) (id : ℕ) (tokens : List (ℕ × StoredToken)) (row : StoredToken)
    → lookup ℕ_discrete id tokens ≡ some row
    → open_secret services id tokens ≡ services.open_sealed row.sealed
unfolding open_secret
open_of_row services id tokens row found = rw (found, open_secret) refl

module _ (services : Services) (id expires_at : ℕ) (tokens : List (ℕ × StoredToken)) where
  pub expiry-opens :
      open_secret services id (set_expiry id expires_at tokens) ≡ open_secret services id tokens
  unfolding set_expiry open_secret
  expiry-opens = elim (Option-cases (lookup ℕ_discrete id tokens)) [
    | inl absent ↦ rw (absent, set_expiry) refl
    | inr (row, found) ↦
        let noted = record row { access_expires_at = some expires_at } in
        rw (found, set_expiry)
          (open_of_row services id (assign ℕ_discrete id noted tokens) noted
              (lookup-assign ℕ_discrete id id noted tokens ∙ if_pos (ℕ_discrete id id) refl _ _)
            ∙ sym (open_of_row services id tokens row found))
  ]

  pub expiry-others :
      (j : ℕ)
      → j ≢ id
      → lookup ℕ_discrete j (set_expiry id expires_at tokens) ≡ lookup ℕ_discrete j tokens
  unfolding set_expiry
  expiry-others j other = elim (Option-cases (lookup ℕ_discrete id tokens)) [
    | inl absent ↦ rw (absent, set_expiry) refl
    | inr (row, found) ↦
        rw (found, set_expiry)
          (lookup-assign ℕ_discrete id j _ tokens
            ∙ if_neg (ℕ_discrete id j) (λ e. other (sym e)) _ _)
  ]
