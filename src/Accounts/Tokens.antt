-- ===== src/Accounts/Tokens.antt =====
-- The cache of access tokens in src/ccreport/accounts.py.
use native.Mathlib.Decide.{ℕ_discrete}
use mathlib.Core.Logic.{if_pos, if_neg}
use ccreport.Prelude.{
  ℕ, ◌+◌, ◌≡◌, ◌≢◌, refl, sym, ◌∙◌, none, some, List, arith, if◌then◌else◌, leb, Bool-cases,
  Option-cases, inl, inr, ltb,
}
use ccreport.Prelude.Texts.{Text}
use ccreport.OrderedDict.{lookup, assign, delete, IsDict, lookup-assign, lookup-delete}
use ccreport.Accounts.{CachedToken, get_cached, put_cached, drop_cached}

get_cached-none :
    (access : List (ℕ × CachedToken)) (id now : ℕ)
    → lookup ℕ_discrete id access ≡ none
    → (get_cached access id now).1 ≡ none
unfolding get_cached
get_cached-none access id now h = rw (h, get_cached) refl

get_cached-some :
    (access : List (ℕ × CachedToken)) (id now : ℕ) (entry : CachedToken)
    → lookup ℕ_discrete id access ≡ some entry
    → (get_cached access id now).1
      ≡ (if leb entry.expires_at (now + 60) then none else some entry.access_token)
unfolding get_cached
get_cached-some access id now entry h = elim (Bool-cases (leb entry.expires_at (now + 60))) [
  | inl old ↦ rw (h, old, get_cached) refl
  | inr live ↦ rw (h, live, get_cached) refl
]

-- What is given depends on the entry of the account only.
same_answer :
    (a b : List (ℕ × CachedToken)) (id now : ℕ)
    → lookup ℕ_discrete id a ≡ lookup ℕ_discrete id b
    → (get_cached a id now).1 ≡ (get_cached b id now).1
same_answer a b id now h = elim (Option-cases (lookup ℕ_discrete id b)) [
  | inl missing ↦ get_cached-none a id now (h ∙ missing) ∙ sym (get_cached-none b id now missing)
  | inr (entry, found) ↦
      get_cached-some a id now entry (h ∙ found) ∙ sym (get_cached-some b id now entry found)
]

-- Where no account has two tokens: after a token was put for an account, asking for that account gives exactly this token while more
-- than a minute is left before it expires, and nothing from then on; a token that was dropped is not
-- given; and the tokens of other accounts are given as before.
pub get_cached_lem :
    (access : List (ℕ × CachedToken)) (id now expires_at : ℕ) (token : Text)
    → IsDict ℕ_discrete access
    → ((get_cached (put_cached access id token expires_at) id now).1
        ≡ (if ltb (now + 60) expires_at then some token else none))
      × ((get_cached (drop_cached access id) id now).1 ≡ none)
      × ((other : ℕ)
          → id ≢ other
          → ((get_cached (put_cached access id token expires_at) other now).1
              ≡ (get_cached access other now).1)
            × ((get_cached (drop_cached access id) other now).1 ≡ (get_cached access other now).1))
unfolding put_cached drop_cached
get_cached_lem access id now expires_at token h = (
  get_cached-some
        (assign ℕ_discrete id (record { access_token = token; expires_at = expires_at }) access) id
        now (record { access_token = token; expires_at = expires_at })
        (lookup-assign ℕ_discrete id id _ access ∙ if_pos (ℕ_discrete id id) refl _ _)
      ∙ ground arith,
  get_cached-none (delete ℕ_discrete id access) id now
      (lookup-delete ℕ_discrete id id access h ∙ if_pos (ℕ_discrete id id) refl _ _),
  λ other apart. (
    same_answer (assign ℕ_discrete id _ access) access other now
        (lookup-assign ℕ_discrete id other _ access ∙ if_neg (ℕ_discrete id other) apart _ _),
    same_answer (delete ℕ_discrete id access) access other now
        (lookup-delete ℕ_discrete id other access h ∙ if_neg (ℕ_discrete id other) apart _ _),
  ),
)
