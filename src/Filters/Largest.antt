-- ===== src/Filters/Largest.antt =====
-- Which of several amounts is found (src/ccreport/filters.py).
use mathlib.Core.Path.{subst}
use ccreport.Prelude.{
  ◌≤◌, ◌<◌, ◌≡◌, refl, sym, ap, ◌⊎◌, some, List, [], ◌∷◌, ◌++◌, arith, All, Bool-cases, inl, inr,
  ltb,
}
use ccreport.Prelude.Int.{ℤ}
use ccreport.Prelude.Texts.{Text}
use ccreport.Bundle.{abs_ℤ}
use ccreport.Filters.Amounts.{largest_from, largest}

abbrev pub Amount : Type 0
Amount = ℤ × Text

-- The amount stands in the list, what stands before it is smaller, and nothing behind it is larger.
abbrev pub IsFirstLargest : List Amount → Amount → Type 0
IsFirstLargest amounts best =
    (front : List Amount) × (back : List Amount) × (amounts ≡ front ++ best ∷ back)
    × All (λ a. abs_ℤ a.0 < abs_ℤ best.0) front
    × All (λ a. abs_ℤ a.0 ≤ abs_ℤ best.0) back

-- Either the amount that the search began with is kept, or a larger one of the list is found.
abbrev KeptOrLarger : Amount → List Amount → Amount → Type 0
KeptOrLarger best amounts r =
    ((r ≡ best) × All (λ a. abs_ℤ a.0 ≤ abs_ℤ r.0) amounts)
    ⊎ (IsFirstLargest amounts r × (abs_ℤ best.0 < abs_ℤ r.0))

replaced :
    (amounts : List Amount) (a best r : Amount)
    → abs_ℤ best.0 < abs_ℤ a.0
    → KeptOrLarger a amounts r
    → KeptOrLarger best (a ∷ amounts) r
replaced amounts a best r less (inl (same, all)) = inr (
  ([], amounts, ap (λ x. x ∷ amounts) (sym same), tt, all),
  subst (λ x. abs_ℤ best.0 < abs_ℤ x.0) (sym same) less,
)
replaced amounts a best r less (inr ((front, back, e, before, behind), larger)) =
    inr ((a ∷ front, back, ap (◌∷◌ a) e, (larger, before), behind), omega (arith, less, larger))

retained :
    (amounts : List Amount) (a best r : Amount)
    → abs_ℤ a.0 ≤ abs_ℤ best.0
    → KeptOrLarger best amounts r
    → KeptOrLarger best (a ∷ amounts) r
retained amounts a best r less (inl (same, all)) =
    inl (same, (subst (λ x. abs_ℤ a.0 ≤ abs_ℤ x.0) (sym same) less, all))
retained amounts a best r less (inr ((front, back, e, before, behind), larger)) =
    inr ((a ∷ front, back, ap (◌∷◌ a) e, (omega (arith, less, larger), before), behind), larger)

largest_from_lem :
    (amounts : List Amount) (best : Amount) → KeptOrLarger best amounts (largest_from best amounts)
unfolding largest_from
largest_from_lem [] best = inl (refl, tt)
largest_from_lem (a ∷ amounts) best = elim (Bool-cases (ltb (abs_ℤ best.0) (abs_ℤ a.0))) [
  | inl more ↦
      let next : largest_from a amounts ≡ largest_from best (a ∷ amounts) = rw more refl in
      subst (KeptOrLarger best (a ∷ amounts)) next
        (replaced amounts a best _ (ground (arith, more)) (largest_from_lem amounts a))
  | inr enough ↦
      let next : largest_from best amounts ≡ largest_from best (a ∷ amounts) = rw enough refl in
      subst (KeptOrLarger best (a ∷ amounts)) next
        (retained amounts a best _ (ground (arith, enough)) (largest_from_lem amounts best))
]

pub largest_lem :
    (amounts : List Amount) (best : Amount)
    → largest amounts ≡ some best
    → IsFirstLargest amounts best
unfolding largest
largest_lem [] best h = cc
largest_lem (a ∷ amounts) best h =
    let same : largest_from a amounts ≡ best = cc in
    subst (IsFirstLargest (a ∷ amounts)) same (elim (largest_from_lem amounts a) [
      | inl (kept, all) ↦ ([], amounts, ap (λ x. x ∷ amounts) (sym kept), tt, all)
      | inr ((front, back, e, before, behind), larger) ↦
          (a ∷ front, back, ap (◌∷◌ a) e, (larger, before), behind)
    ])
