-- ===== src/Filters/Bounds.antt =====
-- Which amounts can be found in a text (src/ccreport/filters.py).
use mathlib.Core.Path.{subst}
use ccreport.Prelude.{
  ℕ, zero, suc, ◌≤◌, ◌<◌, ◌≡◌, refl, Bool, true, false, Option, none, some, List, [], ◌∷◌, ◌++◌,
  arith, length, All, Bool-cases, Option-cases, inl, inr, if◌then◌else◌, ◌==◌,
}
use ccreport.Prelude.Int.{pos}
use ccreport.Prelude.Texts.{Text, contains}
use ccreport.Regex.{Match, find_matches}
use ccreport.Bundle.{abs_ℤ}
use ccreport.Filters.Digits.{parse_number_lt}
use ccreport.Filters.Largest.{Amount, IsFirstLargest, largest_lem}
use ccreport.Filters.Amounts.{
  amount_re, currency_codes, code_of_symbol, code_of_optional, currency_code, reject_number,
  negated, number_of, candidate_of, candidates_of, extract_amount, written_code, is_negative,
}
use ccreport.Filters.Numbers.{digits_of, parse_number}

-- At most 999,999,999.99 in one of the four currencies.
abbrev pub IsAmount : Amount → Type 0
IsAmount (cents, code) = (abs_ℤ cents < 100000000000) × (contains code currency_codes ≡ true)

few_digits : (m : Match) (raw : Text) → reject_number m raw ≡ false → length (digits_of raw) ≤ 9
unfolding reject_number
few_digits m raw h = ground (arith, h)

-- What is found is one of the four currencies.
abbrev IsListed : Option Text → Type 0
IsListed none = Unit
IsListed (some code) = contains code currency_codes ≡ true

if_IsListed :
    (b : Bool) (x y : Option Text) → IsListed x → IsListed y → IsListed (if b then x else y)
if_IsListed true x y h k = h
if_IsListed false x y h k = k

code_of_symbol-IsListed : (symbol : Text) → IsListed (code_of_symbol symbol)
unfolding code_of_symbol
code_of_symbol-IsListed [] = tt
code_of_symbol-IsListed (c ∷ []) = if_IsListed (c == b'$') _ _ refl (
    if_IsListed (c == 0x20ac) _ _ refl
      (if_IsListed (c == 0xa3) _ _ refl (if_IsListed (c == 0xa5) _ none refl tt)))
code_of_symbol-IsListed (c ∷ d ∷ s) = tt

code_of_optional-IsListed : (symbol : Option Text) → IsListed (code_of_optional symbol)
code_of_optional-IsListed none = tt
code_of_optional-IsListed (some symbol) = code_of_symbol-IsListed symbol

currency_code-IsListed : (m : Match) → IsListed (currency_code m)
unfolding currency_code
currency_code-IsListed m = elim (Bool-cases (contains (written_code m) currency_codes)) [
  | inl hit ↦ rw (hit, currency_code) hit
  | inr miss ↦ rw (miss, currency_code) (code_of_optional-IsListed _)
]

signed_lt :
    (negative : Bool) (cents : ℕ)
    → cents < 100000000000
    → abs_ℤ (if negative then negated cents else pos cents) < 100000000000
signed_lt true zero h = h
signed_lt true (suc n) h = omega (arith, h)
signed_lt false n h = omega (arith, h)

abbrev IsAmountIfAny : Option Amount → Type 0
IsAmountIfAny none = Unit
IsAmountIfAny (some a) = IsAmount a

candidate_of-IsAmount : (m : Match) → IsAmountIfAny (candidate_of m)
unfolding candidate_of
candidate_of-IsAmount m = elim (Option-cases (currency_code m)) [
  | inl absent ↦ rw (absent, candidate_of) tt
  | inr (code, found) ↦ elim (Bool-cases (reject_number m (number_of m))) [
    | inl refused ↦ rw (found, candidate_of, refused) tt
    | inr fine ↦ elim (Option-cases (parse_number (number_of m) code)) [
      | inl blank ↦ rw (found, candidate_of, fine, blank) tt
      | inr (cents, parsed) ↦
          let few = few_digits m (number_of m) fine in
          let less = parse_number_lt (number_of m) code {cents = cents} few parsed in
          let listed : contains code currency_codes ≡ true =
            subst IsListed found (currency_code-IsListed m) in
          rw (found, candidate_of, fine, parsed) (signed_lt (is_negative m) cents less, listed)
    ]
  ]
]

candidates_of-IsAmount : (ms : List Match) → All IsAmount (candidates_of ms)
unfolding candidates_of
candidates_of-IsAmount [] = tt
candidates_of-IsAmount (m ∷ ms) = elim (Option-cases (candidate_of m)) [
  | inl absent ↦
      let skipped : candidates_of ms ≡ candidates_of (m ∷ ms) = rw (absent, candidates_of) refl in
      subst (All IsAmount) skipped (candidates_of-IsAmount ms)
  | inr (a, found) ↦
      let fact : IsAmount a = subst IsAmountIfAny found (candidate_of-IsAmount m) in
      let added : a ∷ candidates_of ms ≡ candidates_of (m ∷ ms) = rw (found, candidates_of) refl in
      subst (All IsAmount) added (fact, candidates_of-IsAmount ms)
]

All-middle :
    {A : Type 0} (P : A → Type 0) (front : List A) (x : A) (back : List A)
    → All P (front ++ x ∷ back)
    → P x
All-middle P [] x back h = h.0
All-middle P (y ∷ front) x back h = All-middle P front x back h.1

-- If `extract_amount` returns an amount, it is the first of the largest among the amounts that the
-- matches of the pattern stand for, its currency is one of the four that are known, and it is below
-- 100,000,000,000 minor units on either side of zero, so it fits a 64-bit column.
pub extract_amount_bounds :
    (text : Text) (best : Amount)
    → extract_amount text ≡ some best
    → IsFirstLargest (candidates_of (find_matches amount_re text)) best × IsAmount best
unfolding extract_amount
extract_amount_bounds text best h =
    let amounts = candidates_of (find_matches amount_re text) in
    let found = largest_lem amounts best h in
    let all : All IsAmount (found.0 ++ best ∷ found.1) =
      subst (All IsAmount) found.2 (candidates_of-IsAmount (find_matches amount_re text)) in
    (found, All-middle IsAmount found.0 best found.1 all)
