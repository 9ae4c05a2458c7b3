-- ===== src/Bundle/Names.antt =====
-- The names of the entries (src/ccreport/bundle.py): the search for an unused one ends.
use mathlib.Core.Path.{subst}
use mathlib.Core.List.{append_cancel_left, append_cancel_right}
use ccreport.Prelude.{
  ℕ, zero, suc, ◌+◌, ◌≤◌, ◌<◌, ◌≡◌, refl, sym, ap, ◌∙◌, Bool, true, false, ◌⊎◌, List, ◌∷◌, ◌++◌,
  arith, length, length-append, Bool-cases, inl, inr,
}
use ccreport.Prelude.Pigeonhole.{pigeonhole}
use ccreport.Prelude.Texts.{Text, contains}
use ccreport.Period.{decimal}
use ccreport.Bundle.Amounts.{decimal-injective}
use ccreport.Reports.Model.{ReportItem}
use ccreport.Bundle.{candidate, unused_name, BundleServices, entry_stem, entry_suffix, entry_name}

abbrev numbered : Text → ℕ → Text
numbered suffix n = b'-' ∷ (decimal (n + 2) ++ suffix)

number_apart : (suffix : Text) (n : ℕ) → suffix ≡ numbered suffix n → ⊥
number_apart suffix n e = omega (arith, ap length e, length-append (decimal (n + 2)) suffix)

number_same : (suffix : Text) (m n : ℕ) → numbered suffix m ≡ numbered suffix n → suc m ≡ suc n
number_same suffix m n e =
    let bodies : decimal (m + 2) ++ suffix ≡ decimal (n + 2) ++ suffix = cc in
    let printed = append_cancel_right (decimal (m + 2)) (decimal (n + 2)) suffix bodies in
    omega (arith, decimal-injective (m + 2) (n + 2) printed)

ordered : (i j : ℕ) → (i < j) ⊎ (i ≡ j) ⊎ (j < i)
ordered i j = omega arith

clash : {b : Bool} → b ≡ true → b ≡ false → ⊥
clash h k = ground (arith, h, k)

-- No name is tried twice.
pub candidate-injective :
    (base suffix : Text) (i j : ℕ) → candidate base suffix i ≡ candidate base suffix j → i ≡ j
unfolding candidate
candidate-injective base suffix zero zero e = refl
candidate-injective base suffix zero (suc n) e =
    absurd (number_apart suffix n (append_cancel_left base suffix (numbered suffix n) e))
candidate-injective base suffix (suc m) zero e =
    absurd (number_apart suffix m (append_cancel_left base suffix (numbered suffix m) (sym e)))
candidate-injective base suffix (suc m) (suc n) e =
    number_same suffix m n (append_cancel_left base (numbered suffix m) (numbered suffix n) e)

-- The name is the first one, from the k-th on, that is not taken.
abbrev pub IsFirstUnused : (ℕ → Text) → List Text → ℕ → Text → Type 0
IsFirstUnused names taken k name =
    (j : ℕ) × (k ≤ j)
    × (name ≡ names j)
    × (contains (names j) taken ≡ false)
    × ((i : ℕ) → k ≤ i → i < j → contains (names i) taken ≡ true)

first_or_later : (k i : ℕ) → k ≤ i → (k ≡ i) ⊎ (k + 1 ≤ i)
first_or_later k i h = omega (arith, h)

-- A name is the k-th or a later one.
passed :
    (names : ℕ → Text) (taken : List Text) (k i : ℕ)
    → contains (names k) taken ≡ true
    → k ≤ i
    → (k + 1 ≤ i → contains (names i) taken ≡ true)
    → contains (names i) taken ≡ true
passed names taken k i hit lo later = elim (first_or_later k i lo) [
  | inl same ↦ subst (λ n. contains (names n) taken ≡ true) same hit
  | inr more ↦ later more
]

-- Either the search finds the first unused name, or it passed over as many names as it could.
unused_name-cases :
    (names : ℕ → Text) (taken : List Text) (fuel k : ℕ)
    → ((i : ℕ) → k ≤ i → i < k + suc fuel → contains (names i) taken ≡ true)
      ⊎ IsFirstUnused names taken k (unused_name names taken fuel k)
unfolding unused_name
unused_name-cases names taken zero k = elim (Bool-cases (contains (names k) taken)) [
  | inl hit ↦ inl λ i lo hi.
      let same : k ≡ i = omega (arith, lo, hi) in
      subst (λ n. contains (names n) taken ≡ true) same hit
  | inr miss ↦ inr (k, omega arith, refl, miss, λ i lo hi. absurd (omega (arith, lo, hi)))
]
unused_name-cases names taken (suc fuel) k = elim (Bool-cases (contains (names k) taken)) [
  | inl hit ↦ rw hit (elim (unused_name-cases names taken fuel (k + 1)) [
    | inl all ↦ inl λ i lo hi. passed names taken k i hit lo λ more. all i more (omega (arith, hi))
    | inr (j, le, e, free, before) ↦ inr (
      j,
      omega (arith, le),
      e,
      free,
      λ i lo hi. passed names taken k i hit lo λ more. before i more hi,
    )
  ])
  | inr miss ↦ rw miss (inr (k, omega arith, refl, miss, λ i lo hi. absurd (omega (arith, lo, hi))))
]

-- With names that differ and a turn for each name in `taken`, the search ends, at the first unused one.
pub unused_name_ends :
    (names : ℕ → Text)
    → ((i j : ℕ) → names i ≡ names j → i ≡ j)
    → (taken : List Text) (fuel : ℕ) → length taken ≤ fuel
    → IsFirstUnused names taken 0 (unused_name names taken fuel 0)
unused_name_ends names inj taken fuel h = elim (unused_name-cases names taken fuel 0) [
  | inl all ↦ absurd (omega (arith, pigeonhole names inj (suc fuel) 0 taken all, h))
  | inr found ↦ found
]

FirstUnused-unique :
    (names : ℕ → Text) (taken : List Text) (k : ℕ) (s t : Text)
    → IsFirstUnused names taken k s
    → IsFirstUnused names taken k t
    → s ≡ t
FirstUnused-unique names taken k s t (i, ki, si, free_i, before_i) (j, kj, tj, free_j, before_j) =
    elim (ordered i j) [
      | inl less ↦ absurd (clash (before_j i ki less) free_i)
      | inr (inl same) ↦ si ∙ ap names same ∙ sym tj
      | inr (inr more) ↦ absurd (clash (before_i j kj more) free_j)
    ]

module _ (services : BundleServices) (index : ℕ) (item : ReportItem) (original : Text)
    (taken : List Text) where
  -- the names that the loop of `_entry_name` goes through
  abbrev pub entry_names : ℕ → Text
  entry_names = candidate (entry_stem index item) (entry_suffix services original)

  -- `_entry_name` ends: with a turn for each name in `taken`, or with more, its loop gives the same
  -- name, which is the first of the names it goes through that is not in `taken`.
  pub entry_name_lem :
      (fuel : ℕ)
      → length taken ≤ fuel
      → (unused_name entry_names taken fuel 0 ≡ entry_name services index item original taken)
        × IsFirstUnused entry_names taken 0 (entry_name services index item original taken)
  unfolding entry_name
  entry_name_lem fuel h =
      let different =
        candidate-injective (entry_stem index item) (entry_suffix services original) in
      let found = unused_name_ends entry_names different taken (length taken) (omega arith) in
      (
        FirstUnused-unique entry_names taken 0 _ _
            (unused_name_ends entry_names different taken fuel h) found,
        found,
      )

  pub entry_name_free : contains (entry_name services index item original taken) taken ≡ false
  entry_name_free =
      let (j, _, e, free, _) = (entry_name_lem (length taken) (omega arith)).1 in
      subst (λ name. contains name taken ≡ false) (sym e) free
