-- ===== src/Prelude/Texts/Normal.antt =====
-- Stripping and lowering commute, and doing both twice is doing both once.
use ccreport.Prelude.{ℕ, ◌≡◌, refl, ap, ◌∙◌, true, false, [], ◌∷◌, arith, Bool-cases, inl, inr}
use ccreport.Prelude.Texts.{
  Text, is_space, lstrip, rstrip, strip, push_unless_blank, lower_code, lower, normalised,
}

is_space-lower_code : (c : ℕ) → is_space (lower_code c) ≡ is_space c
unfolding is_space lower_code
is_space-lower_code c = ground arith

lower_code-lower_code : (c : ℕ) → lower_code (lower_code c) ≡ lower_code c
unfolding lower_code
lower_code-lower_code c = ground arith

lower-lower : (s : Text) → lower (lower s) ≡ lower s
unfolding lower
lower-lower [] = refl
lower-lower (c ∷ s) = cc (lower_code-lower_code c, lower-lower s)

lstrip-lower : (s : Text) → lstrip (lower s) ≡ lower (lstrip s)
unfolding lstrip lower
lstrip-lower [] = refl
lstrip-lower (c ∷ s) = ground (arith, is_space-lower_code c, lstrip-lower s)

push_unless_blank-lower :
    (c : ℕ) (s : Text) → push_unless_blank (lower_code c) (lower s) ≡ lower (push_unless_blank c s)
unfolding push_unless_blank lower
push_unless_blank-lower c [] = ground (arith, is_space-lower_code c)
push_unless_blank-lower c (d ∷ s) = refl

rstrip-lower : (s : Text) → rstrip (lower s) ≡ lower (rstrip s)
unfolding rstrip lower
rstrip-lower [] = refl
rstrip-lower (c ∷ s) =
    ap (push_unless_blank (lower_code c)) (rstrip-lower s) ∙ push_unless_blank-lower c (rstrip s)

strip-lower : (s : Text) → strip (lower s) ≡ lower (strip s)
unfolding strip
strip-lower s = ap rstrip (lstrip-lower s) ∙ rstrip-lower (lstrip s)

lstrip-push :
    (c : ℕ) (s : Text) → is_space c ≡ false → lstrip (push_unless_blank c s) ≡ push_unless_blank c s
unfolding lstrip push_unless_blank
lstrip-push c [] h = ground arith
lstrip-push c (d ∷ s) h = ground arith

lstrip-push_blank :
    (c : ℕ) (s : Text) → is_space c ≡ true → lstrip (push_unless_blank c s) ≡ lstrip s
unfolding lstrip push_unless_blank
lstrip-push_blank c [] h = ground arith
lstrip-push_blank c (d ∷ s) h = ground arith

lstrip-rstrip : (s : Text) → lstrip (rstrip s) ≡ rstrip (lstrip s)
unfolding lstrip rstrip
lstrip-rstrip [] = refl
lstrip-rstrip (c ∷ s) = elim (Bool-cases (is_space c)) [
  | inl blank ↦ rw (blank, lstrip-push_blank c (rstrip s) blank) (lstrip-rstrip s)
  | inr solid ↦ rw (solid, lstrip-push c (rstrip s) solid) refl
]

lstrip-lstrip : (s : Text) → lstrip (lstrip s) ≡ lstrip s
unfolding lstrip
lstrip-lstrip [] = refl
lstrip-lstrip (c ∷ s) = ground (arith, lstrip-lstrip s)

push-push :
    (c : ℕ) (s : Text) → rstrip s ≡ s → rstrip (push_unless_blank c s) ≡ push_unless_blank c s
unfolding rstrip push_unless_blank
push-push c [] h = ground arith
push-push c (d ∷ s) h = rw h

rstrip-rstrip : (s : Text) → rstrip (rstrip s) ≡ rstrip s
unfolding rstrip
rstrip-rstrip [] = refl
rstrip-rstrip (c ∷ s) = push-push c (rstrip s) (rstrip-rstrip s)

pub strip-strip : (s : Text) → strip (strip s) ≡ strip s
unfolding strip
strip-strip s =
    ap rstrip (lstrip-rstrip (lstrip s))
    ∙ rstrip-rstrip (lstrip (lstrip s))
    ∙ ap rstrip (lstrip-lstrip s)

pub normalised-normalised : (s : Text) → normalised (normalised s) ≡ normalised s
normalised-normalised s =
    ap lower (strip-lower (strip s)) ∙ lower-lower (strip (strip s)) ∙ ap lower (strip-strip s)
