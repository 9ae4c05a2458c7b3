-- ===== src/Period/Printing.antt =====
-- `parse_period` and `format_period` are inverse to one another (src/ccreport/period.py).
use ccreport.Prelude.{
  ℕ, zero, suc, ◌+◌, ◌-◌, ◌*◌, ◌/◌, ◌%◌, ◌≤◌, ◌<◌, ◌≡◌, ◌∙◌, ◌⊎◌, inl, inr, false, [], ◌∷◌, sym,
  some, arith,
}
use ccreport.Prelude.Texts.{Text, strip, is_space, printable-is_space, strip_solid}
use ccreport.Errors.{ok}
use ccreport.Period.{
  is_digit, digit, match_period, check_month, parse_period, decimal_from, decimal, zero_padded,
  format_period,
}

module _ (f n : ℕ) (acc : Text) (enough : n < f) where
  digits_one : n < 10 → decimal_from f n acc ≡ (b'0' + n) ∷ acc
  unfolding decimal_from
  digits_one h = let e : f ≡ suc (f - 1) = omega arith in rw e (ground arith)

digits_two :
    (f n : ℕ) (acc : Text)
    → n < f
    → 10 ≤ n
    → n < 100
    → decimal_from f n acc ≡ (b'0' + n / 10) ∷ (b'0' + n % 10) ∷ acc
unfolding decimal_from
digits_two zero n acc e l h = absurd (omega arith)
digits_two (suc f) n acc e l h =
    ground (arith, digits_one f (n / 10) ((b'0' + n % 10) ∷ acc) (omega arith) (omega arith))

digits_three :
    (f n : ℕ) (acc : Text)
    → n < f
    → 100 ≤ n
    → n < 1000
    → decimal_from f n acc ≡ (b'0' + n / 100) ∷ (b'0' + n / 10 % 10) ∷ (b'0' + n % 10) ∷ acc
unfolding decimal_from
digits_three zero n acc e l h = absurd (omega arith)
digits_three (suc f) n acc e l h =
    ground (
      arith,
      digits_two f (n / 10) ((b'0' + n % 10) ∷ acc) (omega arith) (omega arith) (omega arith),
    )

digits_four :
    (f n : ℕ) (acc : Text)
    → n < f
    → 1000 ≤ n
    → n < 10000
    → decimal_from f n acc
      ≡ (b'0' + n / 1000) ∷ (b'0' + n / 100 % 10) ∷ (b'0' + n / 10 % 10) ∷ (b'0' + n % 10) ∷ acc
unfolding decimal_from
digits_four zero n acc e l h = absurd (omega arith)
digits_four (suc f) n acc e l h = ground (
  arith,
  digits_three f (n / 10) ((b'0' + n % 10) ∷ acc) (omega arith) (omega arith) (omega arith),
)

-- The four digits of a year.
abbrev four_digits : ℕ → Text
four_digits n =
    (b'0' + n / 1000) ∷ (b'0' + n / 100 % 10) ∷ (b'0' + n / 10 % 10) ∷ (b'0' + n % 10) ∷ []

ranges : (n : ℕ) → (n < 10) ⊎ ((10 ≤ n) × (n < 100)) ⊎ ((100 ≤ n) × (n < 1000)) ⊎ (1000 ≤ n)
ranges n = omega arith

pub zero_padded_four : (n : ℕ) → n < 10000 → zero_padded 4 n ≡ four_digits n
unfolding zero_padded decimal
zero_padded_four n h = elim (ranges n) [
  | inl one ↦ simp (digits_one (suc n) n [] (omega arith) one) (ground arith)
  | inr (inl (lo, hi)) ↦ simp (digits_two (suc n) n [] (omega arith) lo hi) (ground arith)
  | inr (inr (inl (lo, hi))) ↦ simp (digits_three (suc n) n [] (omega arith) lo hi) (ground arith)
  | inr (inr (inr lo)) ↦ simp (digits_four (suc n) n [] (omega arith) lo h) (ground arith)
]

pub zero_padded_two : (n : ℕ) → n < 100 → zero_padded 2 n ≡ (b'0' + n / 10) ∷ (b'0' + n % 10) ∷ []
unfolding zero_padded decimal
zero_padded_two n h = elim (ranges n) [
  | inl one ↦ simp (digits_one (suc n) n [] (omega arith) one) (ground arith)
  | inr (inl (lo, hi)) ↦ simp (digits_two (suc n) n [] (omega arith) lo hi) (ground arith)
  | inr (inr other) ↦ absurd (omega arith)
]

-- Seven characters that are equal one by one.
same_seven :
    (a b c d e f g a' b' c' d' e' f' g' : ℕ)
    → (a ≡ a') × (b ≡ b') × (c ≡ c') × (d ≡ d') × (e ≡ e') × (f ≡ f') × (g ≡ g')
    → ◌≡◌ {A = Text} (a ∷ b ∷ c ∷ d ∷ e ∷ f ∷ g ∷ []) (a' ∷ b' ∷ c' ∷ d' ∷ e' ∷ f' ∷ g' ∷ [])
same_seven a b c d e f g a' b' c' d' e' f' g' h = cc

digit_solid : (d : ℕ) → d < 10 → is_space (b'0' + d) ≡ false
digit_solid d h = printable-is_space (b'0' + d) (omega arith) (omega arith)

-- The shape of every printed month of a four-digit year.
pub format_period_shape :
    (y m : ℕ)
    → y < 10000
    → m < 100
    → format_period y m
      ≡ (b'0' + y / 1000)
        ∷ (b'0' + y / 100 % 10)
        ∷ (b'0' + y / 10 % 10)
        ∷ (b'0' + y % 10)
        ∷ b'-'
        ∷ (b'0' + m / 10)
        ∷ (b'0' + m % 10)
        ∷ []
unfolding format_period
format_period_shape y m hy hm = rw (zero_padded_four y hy, zero_padded_two m hm)

match_period_shape :
    (a b c d e f : ℕ)
    → a < 10
    → b < 10
    → c < 10
    → d < 10
    → e < 10
    → f < 10
    → match_period
        ((b'0' + a) ∷ (b'0' + b) ∷ (b'0' + c) ∷ (b'0' + d) ∷ b'-' ∷ (b'0' + e) ∷ (b'0' + f) ∷ [])
      ≡ some (a * 1000 + b * 100 + c * 10 + d, e * 10 + f)
unfolding match_period is_digit
match_period_shape a b c d e f ha hb hc hd he hf = ground arith

strip-format_period :
    (y m : ℕ) → y < 10000 → m < 100 → strip (format_period y m) ≡ format_period y m
strip-format_period y m hy hm = rw (format_period_shape y m hy hm) (
    strip_solid _ (
      digit_solid _ (omega arith),
      (
        digit_solid _ (omega arith),
        (
          digit_solid _ (omega arith),
          (
            digit_solid _ (omega arith),
            (
              printable-is_space b'-' (omega arith) (omega arith),
              (digit_solid _ (omega arith), (digit_solid _ (omega arith), tt)),
            ),
          ),
        ),
      ),
    ))

-- The pattern matches every printed month, and its groups are the year and the month.
pub match-format : (y m : ℕ) → y < 10000 → m < 100 → match_period (format_period y m) ≡ some (y, m)
match-format y m hy hm = rw (format_period_shape y m hy hm) (
    match_period_shape (y / 1000) (y / 100 % 10) (y / 10 % 10) (y % 10) (m / 10) (m % 10)
      (omega arith) (omega arith) (omega arith) (omega arith) (omega arith) (omega arith)
    ∙ ground arith)

-- A year of four digits and a month survive being printed and parsed.
pub parse-format :
    (y m : ℕ) → y < 10000 → 1 ≤ m → m ≤ 12 → parse_period (format_period y m) ≡ ok (y, m)
unfolding parse_period check_month
parse-format y m hy lo hi =
    ground (arith, strip-format_period y m hy (omega arith), match-format y m hy (omega arith))

abbrev IsDigit : ℕ → Type 0
IsDigit c = (b'0' ≤ c) × (c ≤ b'9')

-- What a match says of the seven characters.
matched_characters :
    (a b c d dash e f : ℕ) {y m : ℕ}
    → match_period (a ∷ b ∷ c ∷ d ∷ dash ∷ e ∷ f ∷ []) ≡ some (y, m)
    → IsDigit a
      × IsDigit b
      × IsDigit c
      × IsDigit d
      × IsDigit e
      × IsDigit f
      × (dash ≡ b'-')
      × (y ≡ digit a * 1000 + digit b * 100 + digit c * 10 + digit d)
      × (m ≡ digit e * 10 + digit f)
unfolding match_period is_digit
matched_characters a b c d dash e f h = ground arith

-- What the pattern matches is the printed form of its groups.
match_period_sound :
    (s : Text) {y m : ℕ}
    → match_period s ≡ some (y, m)
    → (y < 10000) × (m < 100) × (s ≡ format_period y m)
unfolding match_period
match_period_sound (a ∷ b ∷ c ∷ d ∷ dash ∷ e ∷ f ∷ []) {y} {m} h =
    let facts = matched_characters a b c d dash e f {y = y} {m = m} h in
    let hy : y < 10000 = omega arith in
    let hm : m < 100 = omega arith in
    (
      hy,
      hm,
      same_seven _ _ _ _ _ _ _ _ _ _ _ _ _ _ (omega arith) ∙ sym (format_period_shape y m hy hm),
    )
match_period_sound _ h = cc

-- Whatever is parsed is a month of a four-digit year, and is the printed form of the result but
-- for white space around it.
pub parse_period_sound :
    (value : Text) {y m : ℕ}
    → parse_period value ≡ ok (y, m)
    → (y < 10000) × (1 ≤ m) × (m ≤ 12) × (strip value ≡ format_period y m)
unfolding parse_period check_month
parse_period_sound value {y} {m} h =
    ground (arith, match_period_sound (strip value) {y = y} {m = m})
