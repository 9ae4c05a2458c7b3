-- ===== src/Bundle/Amounts.antt =====
-- Printed numbers are read back (`str` and `int` of Python, as src/ccreport/bundle.py uses them).
use ccreport.Prelude.{
  ℕ, zero, suc, ◌+◌, ◌*◌, ◌/◌, ◌%◌, ◌≤◌, ◌<◌, ◌≡◌, sym, ap, ◌∙◌, [], ◌∷◌, arith, Bool-cases, inl,
  inr, ltb,
}
use ccreport.Prelude.Texts.{Text}
use ccreport.Period.{digit, decimal_from, decimal}

-- `int(digits)`, with the digits before these worth `n`
abbrev pub int_from : ℕ → Text → ℕ
int_from n [] = n
int_from n (c ∷ s) = int_from (n * 10 + digit c) s

pub int_from-decimal_from :
    (fuel n : ℕ) (acc : Text) → n < fuel → int_from 0 (decimal_from fuel n acc) ≡ int_from n acc
unfolding decimal_from
int_from-decimal_from zero n acc h = absurd (omega arith)
int_from-decimal_from (suc fuel) n acc h = elim (Bool-cases (ltb n 10)) [
  | inl one ↦
      let value : 0 * 10 + digit (b'0' + n) ≡ n = omega arith in
      rw one (ap (λ k. int_from k acc) value)
  | inr more ↦
      let least : 10 ≤ n = ground arith in
      let value : n / 10 * 10 + digit (b'0' + n % 10) ≡ n = omega arith in
      rw more (
        int_from-decimal_from fuel (n / 10) ((b'0' + n % 10) ∷ acc) (omega arith)
        ∙ ap (λ k. int_from k acc) value)
]

pub int-decimal : (n : ℕ) → int_from 0 (decimal n) ≡ n
unfolding decimal
int-decimal n = int_from-decimal_from (suc n) n [] (omega arith)

pub decimal-injective : (m n : ℕ) → decimal m ≡ decimal n → m ≡ n
decimal-injective m n e = sym (int-decimal m) ∙ ap (int_from 0) e ∙ int-decimal n
