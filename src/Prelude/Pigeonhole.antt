-- ===== src/Prelude/Pigeonhole.antt =====
-- Among more different texts than a list is long, one is not in the list.
use ccreport.Prelude.{
  ℕ, zero, suc, ◌+◌, ◌≤◌, ◌<◌, ◌≡◌, ◌≢◌, refl, sym, ◌∙◌, not, true, List, [], ◌∷◌, arith, length,
  keep, length-keep-le, Bool-cases, inl, inr,
}
use ccreport.Prelude.Texts.{Text, text_eq, text_eq_iff, contains}

-- the list without this text
abbrev without : Text → List Text → List Text
without x xs = keep (λ y. not (text_eq x y)) xs

length-without :
    (x : Text) (xs : List Text) → contains x xs ≡ true → length (without x xs) < length xs
length-without x [] h = cc
length-without x (y ∷ xs) h = elim (Bool-cases (text_eq x y)) [
  | inl hit ↦ rw hit (omega (arith, length-keep-le (λ z. not (text_eq x z)) xs))
  | inr miss ↦
      let there : contains x xs ≡ true = ground (arith, h, miss) in
      rw miss (omega (arith, length-without x xs there))
]

-- Another text stays.
contains-without :
    (x z : Text) (xs : List Text) → x ≢ z → contains z xs ≡ true → contains z (without x xs) ≡ true
contains-without x z [] apart h = h
contains-without x z (y ∷ xs) apart h = elim (Bool-cases (text_eq z y)) [
  | inl hit ↦
      let same : z ≡ y = (text_eq_iff z y).0 hit in
      elim (Bool-cases (text_eq x y)) [
        | inl clash ↦ absurd (apart ((text_eq_iff x y).0 clash ∙ sym same))
        | inr miss ↦ rw (miss, hit) refl
      ]
  | inr other ↦
      let there : contains z xs ≡ true = ground (arith, h, other) in
      let rest = contains-without x z xs apart there in
      elim (Bool-cases (text_eq x y)) [ inl gone ↦ rw gone rest | inr kept ↦ rw (kept, other) rest ]
]

pub pigeonhole :
    (f : ℕ → Text)
    → ((i j : ℕ) → f i ≡ f j → i ≡ j)
    → (n k : ℕ) (xs : List Text) → ((i : ℕ) → k ≤ i → i < k + n → contains (f i) xs ≡ true)
    → n ≤ length xs
pigeonhole f inj zero k xs h = omega arith
pigeonhole f inj (suc n) k xs h =
    let first : contains (f k) xs ≡ true = h k (omega arith) (omega arith) in
    let shorter = length-without (f k) xs first in
    let rest = pigeonhole f inj n (k + 1) (without (f k) xs) λ i lo hi.
      contains-without (f k) (f i) xs (λ e. absurd (omega (arith, inj k i e, lo)))
        (h i (omega arith) (omega arith)) in
    omega (arith, shorter, rest)
