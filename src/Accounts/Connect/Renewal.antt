-- ===== src/Accounts/Connect/Renewal.antt =====
-- What renewing an access token (src/ccreport/accounts.py) leaves behind.
use native.Mathlib.Decide.{ℕ_discrete}
use mathlib.Core.Logic.{if_pos}
use ccreport.Prelude.{
  ℕ, ◌+◌, ◌≡◌, refl, sym, ap, ◌∙◌, Option, none, some, List, [], ◌∷◌, if◌then◌else◌, ltb,
  Bool-cases, Option-cases, inl, inr,
}
use ccreport.Prelude.Texts.{Text, text_eq, text_eq_iff}
use ccreport.Errors.{ok}
use ccreport.OrderedDict.{lookup, assign, IsDict, lookup-assign}
use ccreport.Accounts.{StoredToken, World, get_cached}
use ccreport.Accounts.Tokens.{get_cached_lem}
use ccreport.Accounts.Connect.{
  TokenSet, Services, sealed_row, note_expiry, seal_secret, open_secret, rotate, after_refresh,
  refresh_with,
}

-- the refresh token that is used next: the new one, if the provider gave one
abbrev next_secret : Text → Option Text → Text
next_secret used (some (c ∷ fresh)) = c ∷ fresh
next_secret used _ = used

module _ (services : Services)
    (reopens : (s : Text) → services.open_sealed (services.seal s) ≡ ok s) where
  open_row :
      (id : ℕ) (tokens : List (ℕ × StoredToken)) (row : StoredToken)
      → lookup ℕ_discrete id tokens ≡ some row
      → open_secret services id tokens ≡ services.open_sealed row.sealed
  unfolding open_secret
  open_row id tokens row h = rw (h, open_secret) refl

  sealed_row_lem :
      (sealed : List ℕ) (now : ℕ) (old : Option StoredToken)
      → (sealed_row sealed now old).sealed ≡ sealed
  unfolding sealed_row
  sealed_row_lem sealed now none = refl
  sealed_row_lem sealed now (some row) = refl

  open-seal :
      (id : ℕ) (secret : Text) (now : ℕ) (tokens : List (ℕ × StoredToken))
      → open_secret services id (seal_secret services id secret now tokens) ≡ ok secret
  unfolding seal_secret
  open-seal id secret now tokens =
      let row = sealed_row (services.seal secret) now (lookup ℕ_discrete id tokens) in
      open_row id (assign ℕ_discrete id row tokens) row
        (lookup-assign ℕ_discrete id id row tokens ∙ if_pos (ℕ_discrete id id) refl _ _)
      ∙ ap services.open_sealed
          (sealed_row_lem (services.seal secret) now (lookup ℕ_discrete id tokens))
      ∙ reopens secret

  open-note_expiry :
      (id expires_at now : ℕ) (tokens : List (ℕ × StoredToken))
      → open_secret services id (note_expiry id expires_at now tokens)
        ≡ open_secret services id tokens
  unfolding note_expiry
  open-note_expiry id expires_at now tokens = elim (Option-cases (lookup ℕ_discrete id tokens)) [
    | inl missing ↦ rw (missing, note_expiry) refl
    | inr (row, found) ↦
        let noted : StoredToken = record row {
          access_expires_at = some expires_at;
          refreshed_at = now;
        } in
        let there : lookup ℕ_discrete id (assign ℕ_discrete id noted tokens) ≡ some noted =
          lookup-assign ℕ_discrete id id noted tokens ∙ if_pos (ℕ_discrete id id) refl _ _ in
        let same : note_expiry id expires_at now tokens ≡ assign ℕ_discrete id noted tokens =
          rw (found, note_expiry) refl in
        ap (open_secret services id) same
        ∙ open_row id (assign ℕ_discrete id noted tokens) noted there
        ∙ sym (open_row id tokens row found)
  ]

  open-rotate :
      (id : ℕ) (used : Text) (fresh : Option Text) (now : ℕ) (tokens : List (ℕ × StoredToken))
      → open_secret services id tokens ≡ ok used
      → open_secret services id (rotate services id used fresh now tokens)
        ≡ ok (next_secret used fresh)
  unfolding rotate
  open-rotate id used none now tokens h = h
  open-rotate id used (some []) now tokens h = h
  open-rotate id used (some (c ∷ fresh)) now tokens h =
      elim (Bool-cases (text_eq (c ∷ fresh) used)) [
        | inl equal ↦
            let same : c ∷ fresh ≡ used = (text_eq_iff (c ∷ fresh) used).0 equal in
            rw (equal, rotate) (h ∙ ap ok (sym same))
        | inr other ↦ rw (other, rotate) (open-seal id (c ∷ fresh) now tokens)
      ]

  -- If a sealed secret opens to itself: after a renewal that the provider grants, the new access token
  -- is given while more than a minute is left before it expires, and the secret that opens is the new
  -- refresh token if the provider gave one, and the old one if not.
  pub refresh_with_lem :
      {V : Type 0} (w : World V) (id : ℕ) (used : Text) (tokens : TokenSet) (now later : ℕ)
      → IsDict ℕ_discrete w.access
      → open_secret services id w.tokens ≡ ok used
      → (let out = refresh_with services w id used (ok tokens) now in
          (out.1 ≡ ok tokens.access_token)
          × (open_secret services id out.0.tokens ≡ ok (next_secret used tokens.refresh_token))
          × ((get_cached out.0.access id later).1
              ≡ (if ltb (later + 60) tokens.expires_at then some tokens.access_token else none)))
  unfolding refresh_with after_refresh
  refresh_with_lem w id used tokens now later dict h = (
    refl,
    open-note_expiry id tokens.expires_at now
          (rotate services id used tokens.refresh_token now w.tokens)
        ∙ open-rotate id used tokens.refresh_token now w.tokens h,
    (get_cached_lem w.access id later tokens.expires_at tokens.access_token dict).0,
  )
