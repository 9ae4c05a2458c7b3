-- ===== src/Bundle/Slugs.antt =====
-- The characters in slugs and printed numbers (src/ccreport/bundle.py).
use ccreport.Prelude.{
  ℕ, zero, suc, ◌+◌, ◌-◌, ◌/◌, ◌%◌, ◌<◌, ◌≡◌, refl, Bool, true, false, [], ◌∷◌, arith, Bool-cases,
  inl, inr, replicate, ltb, ◌==◌, length,
}
use ccreport.Prelude.Texts.{Text, lower, strip}
use ccreport.Storage.{is_safe, take}
use ccreport.Storage.Safe.{IsSafe, take-IsSafe, append-IsSafe}
use ccreport.Period.{decimal_from, decimal, zero_padded}
use ccreport.Bundle.{
  is_slug_char, slug_runs, lstrip_dash, push_unless_last_dash, rstrip_dash, strip_dash, or_default,
  max_slug, slugify,
}

slug_char_safe : (c : ℕ) → is_slug_char c ≡ true → is_safe c ≡ true
unfolding is_slug_char is_safe
slug_char_safe c h = ground (arith, h)

pub dash_safe : is_safe b'-' ≡ true
unfolding is_safe
dash_safe = refl

slug_runs-IsSafe : (in_run : Bool) (s : Text) → IsSafe (slug_runs in_run s)
unfolding slug_runs
slug_runs-IsSafe in_run [] = tt
slug_runs-IsSafe in_run (c ∷ s) = elim (Bool-cases (is_slug_char c)) [
  | inl kept ↦ rw kept (slug_char_safe c kept, slug_runs-IsSafe false s)
  | inr other ↦ elim (Bool-cases in_run) [
    | inl open_run ↦ rw (other, open_run) (slug_runs-IsSafe true s)
    | inr new_run ↦ rw (other, new_run) (dash_safe, slug_runs-IsSafe true s)
  ]
]

lstrip_dash-IsSafe : (s : Text) → IsSafe s → IsSafe (lstrip_dash s)
unfolding lstrip_dash
lstrip_dash-IsSafe [] h = tt
lstrip_dash-IsSafe (c ∷ s) h = elim (Bool-cases (c == b'-')) [
  | inl hit ↦ rw hit (lstrip_dash-IsSafe s h.1)
  | inr miss ↦ rw miss h
]

push_unless_last_dash-IsSafe :
    (c : ℕ) (s : Text) → is_safe c ≡ true → IsSafe s → IsSafe (push_unless_last_dash c s)
unfolding push_unless_last_dash
push_unless_last_dash-IsSafe c [] h k = elim (Bool-cases (c == b'-')) [
  | inl hit ↦ rw hit tt
  | inr miss ↦ rw miss (h, tt)
]
push_unless_last_dash-IsSafe c (d ∷ s) h k = (h, k)

rstrip_dash-IsSafe : (s : Text) → IsSafe s → IsSafe (rstrip_dash s)
unfolding rstrip_dash
rstrip_dash-IsSafe [] h = tt
rstrip_dash-IsSafe (c ∷ s) h =
    push_unless_last_dash-IsSafe c (rstrip_dash s) h.0 (rstrip_dash-IsSafe s h.1)

strip_dash-IsSafe : (s : Text) → IsSafe s → IsSafe (strip_dash s)
strip_dash-IsSafe s h = rstrip_dash-IsSafe (lstrip_dash s) (lstrip_dash-IsSafe s h)

pub or_default-IsSafe :
    (s default : Text) → IsSafe s → IsSafe default → IsSafe (or_default s default)
or_default-IsSafe [] default h k = k
or_default-IsSafe (c ∷ s) default h k = h

pub slugify-IsSafe : (value default : Text) → IsSafe default → IsSafe (slugify value default)
unfolding slugify
slugify-IsSafe value default h =
    let slug = strip_dash (slug_runs false (lower (strip value))) in
    or_default-IsSafe (strip_dash (take max_slug slug)) default
      (strip_dash-IsSafe (take max_slug slug)
        (take-IsSafe max_slug slug (strip_dash-IsSafe _ (slug_runs-IsSafe false _))))
      h

digit_safe : (d : ℕ) → d < 10 → is_safe (b'0' + d) ≡ true
unfolding is_safe
digit_safe d h = ground (arith, h)

decimal_from-IsSafe : (fuel n : ℕ) (acc : Text) → IsSafe acc → IsSafe (decimal_from fuel n acc)
unfolding decimal_from
decimal_from-IsSafe zero n acc h = h
decimal_from-IsSafe (suc fuel) n acc h = elim (Bool-cases (ltb n 10)) [
  | inl one ↦ rw one (digit_safe n (ground (arith, one)), h)
  | inr more ↦ rw more (
      decimal_from-IsSafe fuel (n / 10) ((b'0' + n % 10) ∷ acc)
        (digit_safe (n % 10) (omega arith), h))
]

pub decimal-IsSafe : (n : ℕ) → IsSafe (decimal n)
unfolding decimal
decimal-IsSafe n = decimal_from-IsSafe (suc n) n [] tt

replicate-IsSafe : (n : ℕ) → IsSafe (replicate n b'0')
unfolding is_safe
replicate-IsSafe zero = tt
replicate-IsSafe (suc n) = (refl, replicate-IsSafe n)

pub zero_padded-IsSafe : (w n : ℕ) → IsSafe (zero_padded w n)
unfolding zero_padded
zero_padded-IsSafe w n =
    append-IsSafe (replicate (w - length (decimal n)) b'0') (decimal n)
      (replicate-IsSafe (w - length (decimal n))) (decimal-IsSafe n)
