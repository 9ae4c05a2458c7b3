-- ===== src/Filters/Printed.antt =====
-- Amounts that src/ccreport/bundle.py prints, read by src/ccreport/filters.py.
use mathlib.Core.List.{append_assoc}
use ccreport.Prelude.{
  ℕ, zero, suc, ◌+◌, ◌*◌, ◌/◌, ◌%◌, ◌<◌, ◌≡◌, refl, ap, ◌∙◌, true, false, none, some, [], ◌∷◌, ◌++◌,
  ◌||◌, arith, Bool-cases, inl, inr, ltb, ◌==◌, if◌then◌else◌,
}
use ccreport.Prelude.Int.{pos}
use ccreport.Prelude.Texts.{Text, codes, contains, upper}
use ccreport.Regex.{is_digit_code}
use ccreport.Period.{decimal_from, decimal}
use ccreport.Period.Printing.{zero_padded_two}
use ccreport.Storage.{is_empty}
use ccreport.Bundle.{abs_ℤ, zero_minor, sign_of, print_cents}
use ccreport.Bundle.Amounts.{int_from, int-decimal}
use ccreport.Filters.Digits.{AllDigits}
use ccreport.Filters.Numbers.{
  has_char, digits_of, rpartition, length_behind, decimal_separator, number_parts, parse_number,
}

digit_code : (d : ℕ) → d < 10 → is_digit_code (b'0' + d) ≡ true
digit_code d h = ground (arith, h)

decimal_from-AllDigits :
    (fuel n : ℕ) (acc : Text) → AllDigits acc → AllDigits (decimal_from fuel n acc)
unfolding decimal_from
decimal_from-AllDigits zero n acc h = h
decimal_from-AllDigits (suc fuel) n acc h = elim (Bool-cases (ltb n 10)) [
  | inl one ↦ rw one (digit_code n (ground (arith, one)), h)
  | inr more ↦ rw more (
      decimal_from-AllDigits fuel (n / 10) ((b'0' + n % 10) ∷ acc)
        (digit_code (n % 10) (omega arith), h))
]

decimal-AllDigits : (n : ℕ) → AllDigits (decimal n)
unfolding decimal
decimal-AllDigits n = decimal_from-AllDigits (suc n) n [] tt

decimal_from_some : (fuel n c : ℕ) (acc : Text) → is_empty (decimal_from fuel n (c ∷ acc)) ≡ false
unfolding decimal_from
decimal_from_some zero n c acc = refl
decimal_from_some (suc fuel) n c acc = elim (Bool-cases (ltb n 10)) [
  | inl one ↦ rw one refl
  | inr more ↦ rw more (decimal_from_some fuel (n / 10) (b'0' + n % 10) (c ∷ acc))
]

decimal_some : (n : ℕ) → is_empty (decimal n) ≡ false
unfolding decimal decimal_from
decimal_some n = elim (Bool-cases (ltb n 10)) [
  | inl one ↦ rw one refl
  | inr more ↦ rw more (decimal_from_some n (n / 10) (b'0' + n % 10) [])
]

digits_of_digits : (s : Text) → AllDigits s → digits_of s ≡ s
digits_of_digits [] h = refl
digits_of_digits (c ∷ s) h = rw (h.0, digits_of_digits s h.1) refl

no_separator :
    (sep : ℕ) (s : Text) → is_digit_code sep ≡ false → AllDigits s → has_char sep s ≡ false
no_separator sep [] n h = refl
no_separator sep (c ∷ s) n h = elim (Bool-cases (c == sep)) [
  | inl hit ↦ absurd (ground (arith, hit, n, h.0))
  | inr miss ↦ rw miss (no_separator sep s n h.1)
]

has_char-append :
    (sep : ℕ) (s t : Text) → has_char sep (s ++ t) ≡ (has_char sep s || has_char sep t)
has_char-append sep [] t = refl
has_char-append sep (c ∷ s) t = ground (arith, has_char-append sep s t)

rpartition-none : (sep : ℕ) (s : Text) → has_char sep s ≡ false → rpartition sep s ≡ none
unfolding rpartition
rpartition-none sep [] h = refl
rpartition-none sep (c ∷ s) h = ground (arith, rpartition-none sep s)

rpartition_last :
    (sep : ℕ) (s t : Text) → has_char sep t ≡ false → rpartition sep (s ++ sep ∷ t) ≡ some (s, t)
unfolding rpartition
rpartition_last sep [] t h = rw (rpartition-none sep t h) (ground arith)
rpartition_last sep (c ∷ s) t h = rw (rpartition_last sep s t h) refl

separator_none : (s : Text) → AllDigits s → decimal_separator s ≡ none
unfolding decimal_separator
separator_none s h =
    rw (decimal_separator, no_separator b',' s refl h, no_separator b'.' s refl h) refl

number_parts_whole : (s : Text) → AllDigits s → number_parts s ≡ (s, codes "00")
unfolding number_parts
number_parts_whole s h =
    rw (number_parts, separator_none s h) (ap (λ t. (t, codes "00")) (digits_of_digits s h))

module _ (whole : Text) (c d : ℕ) (h : AllDigits whole) (hc : is_digit_code c ≡ true)
    (hd : is_digit_code d ≡ true) where
  abbrev with_minor : Text
  with_minor = whole ++ b'.' ∷ c ∷ d ∷ []

  minor-AllDigits : AllDigits (c ∷ d ∷ [])
  minor-AllDigits = (hc, (hd, tt))

  no_comma : has_char b',' with_minor ≡ false
  no_comma =
      has_char-append b',' whole (b'.' ∷ c ∷ d ∷ [])
      ∙ rw (no_separator b',' whole refl h) (no_separator b',' (c ∷ d ∷ []) refl minor-AllDigits)

  a_point : has_char b'.' with_minor ≡ true
  a_point =
      has_char-append b'.' whole (b'.' ∷ c ∷ d ∷ []) ∙ rw (no_separator b'.' whole refl h) refl

  split_minor : rpartition b'.' with_minor ≡ some (whole, c ∷ d ∷ [])
  split_minor =
      rpartition_last b'.' whole (c ∷ d ∷ []) (no_separator b'.' (c ∷ d ∷ []) refl minor-AllDigits)

  two_behind : length_behind b'.' with_minor ≡ 2
  two_behind = rw (length_behind, split_minor) refl

  separator_point : decimal_separator with_minor ≡ some b'.'
  unfolding decimal_separator
  separator_point = rw (decimal_separator, no_comma, a_point, two_behind) refl

  number_parts_minor : number_parts with_minor ≡ (whole, c ∷ d ∷ [])
  unfolding number_parts
  number_parts_minor =
      rw (number_parts, separator_point, split_minor)
        (cc (digits_of_digits whole h, digits_of_digits (c ∷ d ∷ []) minor-AllDigits))

parse_of_parts :
    (raw code whole frac : Text)
    → number_parts raw ≡ (whole, frac)
    → is_empty whole ≡ false
    → parse_number raw code ≡ (
        if contains code zero_minor
        then some (int_from 0 whole)
        else some (int_from 0 whole * 100 + int_from 0 frac))
unfolding parse_number
parse_of_parts raw code whole frac parts some_digits = rw (parse_number, parts, some_digits) refl

sign_none : (n : ℕ) → sign_of (pos n) ≡ []
sign_none n = ground arith

abs_pos : (n : ℕ) → abs_ℤ (pos n) ≡ n
abs_pos n = omega arith

print_whole :
    (n : ℕ) (code : Text)
    → contains (upper code) zero_minor ≡ true
    → print_cents (pos n) (some code) ≡ decimal n
unfolding print_cents
print_whole n code h = rw (print_cents, h, sign_none n) (ap decimal (abs_pos n))

print_minor :
    (n : ℕ) (code : Text)
    → contains (upper code) zero_minor ≡ false
    → print_cents (pos n) (some code)
      ≡ decimal (n / 100) ++ b'.' ∷ (b'0' + n % 100 / 10) ∷ (b'0' + n % 100 % 10) ∷ []
unfolding print_cents
print_minor n code h =
    rw (print_cents, h, sign_none n, abs_pos n, zero_padded_two (n % 100) (omega arith))
      (append_assoc (decimal (n / 100)) (codes ".")
        ((b'0' + n % 100 / 10) ∷ (b'0' + n % 100 % 10) ∷ []))

-- An amount of zero or more that a bundle prints in a currency whose code is in upper case is read back
-- as the same number of minor units, with or without minor units in print.
pub parse-print_cents :
    (n : ℕ) (code : Text)
    → upper code ≡ code
    → parse_number (print_cents (pos n) (some code)) code ≡ some n
parse-print_cents n code capital = elim (Bool-cases (contains code zero_minor)) [
  | inl whole ↦
      let printed = print_whole n code (ap (λ c. contains c zero_minor) capital ∙ whole) in
      let parsed : parse_number (decimal n) code ≡ some (int_from 0 (decimal n)) =
        parse_of_parts (decimal n) code (decimal n) (codes "00")
          (number_parts_whole (decimal n) (decimal-AllDigits n)) (decimal_some n)
        ∙ rw whole refl in
      ap (λ s. parse_number s code) printed ∙ parsed ∙ ap some (int-decimal n)
  | inr minor ↦
      let printed = print_minor n code (ap (λ c. contains c zero_minor) capital ∙ minor) in
      let c = b'0' + n % 100 / 10 in
      let d = b'0' + n % 100 % 10 in
      let raw = decimal (n / 100) ++ b'.' ∷ c ∷ d ∷ [] in
      let parsed : parse_number raw code
          ≡ some (int_from 0 (decimal (n / 100)) * 100 + int_from 0 (c ∷ d ∷ [])) =
        parse_of_parts raw code (decimal (n / 100)) (c ∷ d ∷ [])
          (number_parts_minor (decimal (n / 100)) c d (decimal-AllDigits (n / 100))
            (digit_code (n % 100 / 10) (omega arith)) (digit_code (n % 100 % 10) (omega arith)))
          (decimal_some (n / 100))
        ∙ rw minor refl in
      let value : int_from 0 (decimal (n / 100)) * 100 + int_from 0 (c ∷ d ∷ []) ≡ n =
        omega (arith, int-decimal (n / 100)) in
      ap (λ s. parse_number s code) printed ∙ parsed ∙ ap some value
]
