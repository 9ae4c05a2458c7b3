-- ===== src/Prelude/Distinct.antt =====
-- Lists in which no two items have the same key.
use ccreport.Prelude.{
  ℕ, ◌≡◌, ◌≢◌, sym, ◌∙◌, Bool, List, [], ◌∷◌, ◌++◌, map, keep, All, All-keep, All-append_one,
  Bool-cases, inl, inr,
}

module _ {ℓ} {A : Type ℓ} (key : A → ℕ) where
  abbrev pub Distinct : List A → Type ℓ
  Distinct [] = Unit
  Distinct (x ∷ xs) = All (λ y. key y ≢ key x) xs × Distinct xs

  pub Distinct-keep : (p : A → Bool) (xs : List A) → Distinct xs → Distinct (keep p xs)
  Distinct-keep p [] h = h
  Distinct-keep p (x ∷ xs) h = elim (Bool-cases (p x)) [
    | inl hit ↦ rw hit (All-keep (λ y. key y ≢ key x) p xs h.0, Distinct-keep p xs h.1)
    | inr miss ↦ rw miss (Distinct-keep p xs h.1)
  ]

  pub Distinct-append_one :
      (xs : List A) (y : A) → Distinct xs → All (λ x. key x ≢ key y) xs → Distinct (xs ++ y ∷ [])
  Distinct-append_one [] y h f = (tt, tt)
  Distinct-append_one (x ∷ xs) y h f = (
    All-append_one (λ z. key z ≢ key x) xs y h.0 λ e. f.0 (sym e),
    Distinct-append_one xs y h.1 f.1,
  )

  -- Of two lists with the same keys, both are distinct or none is.
  All-of_keys :
      (xs ys : List A) (k : ℕ)
      → map key xs ≡ map key ys
      → All (λ x. key x ≢ k) xs
      → All (λ y. key y ≢ k) ys
  All-of_keys [] [] k e h = tt
  All-of_keys [] (y ∷ ys) k e h = cc
  All-of_keys (x ∷ xs) [] k e h = cc
  All-of_keys (x ∷ xs) (y ∷ ys) k e h =
      let same : key x ≡ key y = cc in
      let rest : map key xs ≡ map key ys = cc in
      (λ clash. h.0 (same ∙ clash), All-of_keys xs ys k rest h.1)

  pub Distinct-of_keys : (xs ys : List A) → map key xs ≡ map key ys → Distinct xs → Distinct ys
  Distinct-of_keys [] [] e h = tt
  Distinct-of_keys [] (y ∷ ys) e h = cc
  Distinct-of_keys (x ∷ xs) [] e h = cc
  Distinct-of_keys (x ∷ xs) (y ∷ ys) e h =
      let same : key x ≡ key y = cc in
      let rest : map key xs ≡ map key ys = cc in
      (rw (sym same) (All-of_keys xs ys (key x) rest h.0), Distinct-of_keys xs ys rest h.1)
