-- ===== src/Filters/Digits.antt =====
-- How large a number of few digits is (src/ccreport/filters.py).
use mathlib.Core.Path.{subst}
use ccreport.Prelude.{
  ℕ, zero, suc, ◌+◌, ◌*◌, ◌≤◌, ◌<◌, ◌≡◌, true, some, [], ◌∷◌, arith, length, keep-All, All,
  Bool-cases, Option-cases, inl, inr, ◌==◌,
}
use ccreport.Prelude.Texts.{Text}
use ccreport.Regex.{is_digit_code}
use ccreport.Period.{digit}
use ccreport.Bundle.Amounts.{int_from}
use ccreport.Filters.Numbers.{
  digits_of, rpartition, decimal_separator, two_digits, number_parts, parse_number,
}

-- the bound of numbers that have k more digits than n
abbrev bound : ℕ → ℕ → ℕ
bound zero n = n
bound (suc k) n = bound k (n * 10)

bound_le : (k l m n : ℕ) → k ≤ l → m ≤ n → 1 ≤ n → bound k m ≤ bound l n
bound_le zero zero m n h le one = le
bound_le zero (suc l) m n h le one =
    bound_le zero l m (n * 10) (omega arith) (omega (arith, le)) (omega (arith, one))
bound_le (suc k) zero m n h le one = absurd (omega (arith, h))
bound_le (suc k) (suc l) m n h le one =
    bound_le k l (m * 10) (n * 10) (omega (arith, h)) (omega (arith, le)) (omega (arith, one))

abbrev pub AllDigits : Text → Type 0
AllDigits s = All (λ c. is_digit_code c ≡ true) s

pub digit_lt : (c : ℕ) → is_digit_code c ≡ true → digit c < 10
digit_lt c h = ground (arith, h)

int_from_lt : (s : Text) (m n : ℕ) → AllDigits s → m < n → int_from m s < bound (length s) n
int_from_lt [] m n h le = le
int_from_lt (c ∷ s) m n h le =
    int_from_lt s (m * 10 + digit c) (n * 10) h.1 (omega (arith, digit_lt c h.0, le))

two_digits_lt : (s : Text) → AllDigits s → int_from 0 (two_digits s) < 100
two_digits_lt [] h = omega arith
two_digits_lt (c ∷ []) h = omega (arith, digit_lt c h.0)
two_digits_lt (c ∷ d ∷ s) h = omega (arith, digit_lt c h.0, digit_lt d h.1.0)

more_digits :
    (c : ℕ) (s t : Text)
    → length (digits_of s) ≤ length (digits_of t)
    → length (digits_of (c ∷ s)) ≤ length (digits_of (c ∷ t))
more_digits c s t h = elim (Bool-cases (is_digit_code c)) [
  | inl hit ↦ rw hit (omega (arith, h))
  | inr miss ↦ rw miss h
]

-- What stands before a separator has no more digits than the whole.
length-rpartition :
    (sep : ℕ) (raw : Text) {whole frac : Text}
    → rpartition sep raw ≡ some (whole, frac)
    → length (digits_of whole) ≤ length (digits_of raw)
unfolding rpartition
length-rpartition sep [] h = cc
length-rpartition sep (c ∷ s) {whole} {frac} h = elim (Option-cases (rpartition sep s)) [
  | inl absent ↦ elim (Bool-cases (c == sep)) [
    | inl hit ↦
        let same : ◌≡◌ {A = Text} [] whole = ground (arith, h, absent, hit) in
        subst (λ w. length (digits_of w) ≤ length (digits_of (c ∷ s))) same (omega arith)
    | inr miss ↦ absurd (ground (arith, h, absent, miss))
  ]
  | inr ((front, back), there) ↦
      let same : c ∷ front ≡ whole = ground (arith, h, there) in
      subst (λ w. length (digits_of w) ≤ length (digits_of (c ∷ s))) same
        (more_digits c front s (length-rpartition sep s {whole = front} {frac = back} there))
]

abbrev IsSmall : Text × Text → Type 0
IsSmall (whole, frac) = (int_from 0 whole < 1000000000) × (int_from 0 frac < 100)

digits-AllDigits : (s : Text) → AllDigits (digits_of s)
digits-AllDigits s = keep-All is_digit_code s

whole_lt :
    (s raw : Text)
    → length (digits_of s) ≤ length (digits_of raw)
    → length (digits_of raw) ≤ 9
    → int_from 0 (digits_of s) < 1000000000
whole_lt s raw h few =
    let less = int_from_lt (digits_of s) 0 1 (digits-AllDigits s) (omega arith) in
    let most : bound (length (digits_of s)) 1 ≤ bound 9 1 =
      bound_le (length (digits_of s)) 9 1 1 (omega (arith, h, few)) (omega arith) (omega arith) in
    omega (arith, less, most)

number_parts-IsSmall : (raw : Text) → length (digits_of raw) ≤ 9 → IsSmall (number_parts raw)
unfolding number_parts
number_parts-IsSmall raw few = elim (Option-cases (decimal_separator raw)) [
  | inl absent ↦ rw (absent, number_parts) (whole_lt raw raw (omega arith) few, omega arith)
  | inr (sep, found) ↦ elim (Option-cases (rpartition sep raw)) [
    | inl nowhere ↦
        rw (found, number_parts, nowhere)
          (omega arith, two_digits_lt (digits_of raw) (digits-AllDigits raw))
    | inr ((whole, frac), split) ↦
        rw (found, number_parts, split)
          (
            whole_lt whole raw (length-rpartition sep raw {whole = whole} {frac = frac} split) few,
            two_digits_lt (digits_of frac) (digits-AllDigits frac),
          )
  ]
]

pub parse_number_lt :
    (raw code : Text) {cents : ℕ}
    → length (digits_of raw) ≤ 9
    → parse_number raw code ≡ some cents
    → cents < 100000000000
unfolding parse_number
parse_number_lt raw code {cents} few h =
    let small = number_parts-IsSmall raw few in ground (arith, h, small)
