-- ===== src/Storage/Safe.antt =====
-- What file names src/ccreport/storage.py stores under.
use ccreport.Prelude.{
  ℕ, zero, suc, ◌≤◌, ◌≡◌, refl, Bool, true, false, [], ◌∷◌, ◌++◌, arith, if◌then◌else◌, length,
  length-append, length-keep-le, keep, keep-All, All, Bool-cases, inl, inr,
}
use ccreport.Prelude.Texts.{Text, codes}
use ccreport.Storage.{
  take, is_safe, dash_runs, is_dash_or_dot, lstrip_dashes, push_unless_dash, rstrip_dashes,
  is_empty, max_stem, safe_of_parts, safe_filename,
}

-- Every character is a letter of ASCII, a digit, a dot, an underscore or a dash.
abbrev pub IsSafe : Text → Type 0
IsSafe s = All (λ c. is_safe c ≡ true) s

dash_safe : is_safe b'-' ≡ true
unfolding is_safe
dash_safe = refl

dash_runs-IsSafe : (in_run : Bool) (s : Text) → IsSafe (dash_runs in_run s)
unfolding dash_runs
dash_runs-IsSafe in_run [] = tt
dash_runs-IsSafe in_run (c ∷ s) = elim (Bool-cases (is_safe c)) [
  | inl safe ↦ rw safe (safe, dash_runs-IsSafe false s)
  | inr unsafe ↦ elim (Bool-cases in_run) [
    | inl open_run ↦ rw (unsafe, open_run) (dash_runs-IsSafe true s)
    | inr new_run ↦ rw (unsafe, new_run) (dash_safe, dash_runs-IsSafe true s)
  ]
]

lstrip_dashes-IsSafe : (s : Text) → IsSafe s → IsSafe (lstrip_dashes s)
unfolding lstrip_dashes
lstrip_dashes-IsSafe [] h = tt
lstrip_dashes-IsSafe (c ∷ s) h = elim (Bool-cases (is_dash_or_dot c)) [
  | inl hit ↦ rw hit (lstrip_dashes-IsSafe s h.1)
  | inr miss ↦ rw miss h
]

push_unless_dash-IsSafe :
    (c : ℕ) (s : Text) → is_safe c ≡ true → IsSafe s → IsSafe (push_unless_dash c s)
unfolding push_unless_dash
push_unless_dash-IsSafe c [] h k = elim (Bool-cases (is_dash_or_dot c)) [
  | inl hit ↦ rw hit tt
  | inr miss ↦ rw miss (h, tt)
]
push_unless_dash-IsSafe c (d ∷ s) h k = (h, k)

rstrip_dashes-IsSafe : (s : Text) → IsSafe s → IsSafe (rstrip_dashes s)
unfolding rstrip_dashes
rstrip_dashes-IsSafe [] h = tt
rstrip_dashes-IsSafe (c ∷ s) h =
    push_unless_dash-IsSafe c (rstrip_dashes s) h.0 (rstrip_dashes-IsSafe s h.1)

pub take-IsSafe : (n : ℕ) (s : Text) → IsSafe s → IsSafe (take n s)
take-IsSafe zero s h = tt
take-IsSafe (suc n) [] h = tt
take-IsSafe (suc n) (c ∷ s) h = (h.0, take-IsSafe n s h.1)

pub append-IsSafe : (s t : Text) → IsSafe s → IsSafe t → IsSafe (s ++ t)
append-IsSafe [] t h k = k
append-IsSafe (c ∷ s) t h k = (h.0, append-IsSafe s t h.1 k)

pub length-take-le : (n : ℕ) (s : Text) → length (take n s) ≤ n
length-take-le zero s = omega arith
length-take-le (suc n) [] = omega arith
length-take-le (suc n) (c ∷ s) = omega (arith, length-take-le n s)

-- The text starts with no dash and no dot.
abbrev pub StartsClean : Text → Type 0
StartsClean [] = ⊥
StartsClean (c ∷ s) = is_dash_or_dot c ≡ false

abbrev IsBlankOrClean : Text → Type 0
IsBlankOrClean [] = Unit
IsBlankOrClean (c ∷ s) = is_dash_or_dot c ≡ false

lstrip_dashes-IsBlankOrClean : (s : Text) → IsBlankOrClean (lstrip_dashes s)
unfolding lstrip_dashes
lstrip_dashes-IsBlankOrClean [] = tt
lstrip_dashes-IsBlankOrClean (c ∷ s) = elim (Bool-cases (is_dash_or_dot c)) [
  | inl hit ↦ rw hit (lstrip_dashes-IsBlankOrClean s)
  | inr miss ↦ rw miss miss
]

push_unless_dash-IsBlankOrClean :
    (c : ℕ) (s : Text) → is_dash_or_dot c ≡ false → IsBlankOrClean (push_unless_dash c s)
unfolding push_unless_dash
push_unless_dash-IsBlankOrClean c [] h = rw h h
push_unless_dash-IsBlankOrClean c (d ∷ s) h = h

rstrip_dashes-IsBlankOrClean : (s : Text) → IsBlankOrClean s → IsBlankOrClean (rstrip_dashes s)
unfolding rstrip_dashes
rstrip_dashes-IsBlankOrClean [] h = tt
rstrip_dashes-IsBlankOrClean (c ∷ s) h = push_unless_dash-IsBlankOrClean c (rstrip_dashes s) h

take-IsBlankOrClean : (n : ℕ) (s : Text) → IsBlankOrClean s → IsBlankOrClean (take n s)
take-IsBlankOrClean zero s h = tt
take-IsBlankOrClean (suc n) [] h = tt
take-IsBlankOrClean (suc n) (c ∷ s) h = h

-- the stem, or `attachment` where nothing is left of it
abbrev stem_or_default : Text → Text
stem_or_default s = if is_empty s then codes "attachment" else s

stem_or_default-IsSafe : (s : Text) → IsSafe s → IsSafe (stem_or_default s)
unfolding is_safe
stem_or_default-IsSafe [] h = keep-All is_safe (codes "attachment")
stem_or_default-IsSafe (c ∷ s) h = h

stem_or_default-StartsClean : (s t : Text) → IsBlankOrClean s → StartsClean (stem_or_default s ++ t)
stem_or_default-StartsClean [] t h = refl
stem_or_default-StartsClean (c ∷ s) t h = h

length-stem_or_default : (s : Text) → length s ≤ 64 → length (stem_or_default s) ≤ 64
length-stem_or_default [] h = omega arith
length-stem_or_default (c ∷ s) h = h

-- A name that is safe to store: only safe characters, so no slash; not empty, and no dot or dash at its
-- front, so neither `.` nor `..`; and at most 80 characters.
pub record IsStorable (s : Text) : Type 0 where
  pub safe : IsSafe s
  pub clean : StartsClean s
  pub short : length s ≤ 80

safe_of_parts-IsStorable :
    (stem suffix : Text) → length suffix ≤ 16 → IsStorable (safe_of_parts stem suffix)
unfolding safe_of_parts
safe_of_parts-IsStorable stem suffix h =
    let dashed = dash_runs false stem in
    let left = lstrip_dashes dashed in
    let clean = take max_stem (rstrip_dashes left) in
    record {
      safe =
          append-IsSafe (stem_or_default clean) (keep is_safe suffix)
            (stem_or_default-IsSafe clean (
              take-IsSafe max_stem (rstrip_dashes left) (
                rstrip_dashes-IsSafe left
                  (lstrip_dashes-IsSafe dashed (dash_runs-IsSafe false stem)))))
            (keep-All is_safe suffix);
      clean = stem_or_default-StartsClean clean (keep is_safe suffix) (
          take-IsBlankOrClean max_stem (rstrip_dashes left)
            (rstrip_dashes-IsBlankOrClean left (lstrip_dashes-IsBlankOrClean dashed)));
      short = omega (
        arith,
        length-append (stem_or_default clean) (keep is_safe suffix),
        length-stem_or_default clean (length-take-le max_stem (rstrip_dashes left)),
        length-keep-le is_safe suffix,
        h,
      );
    }

-- Whatever name comes with an attachment, the name that it is stored under has only letters, digits,
-- dots, underscores and dashes, so no slash, is not empty, starts with neither dot nor dash, and has
-- at most 80 characters.
pub safe_filename-IsStorable :
    (nfkd : Text → Text) (raw : Text) → IsStorable (safe_filename nfkd raw)
unfolding safe_filename
safe_filename-IsStorable nfkd raw = safe_of_parts-IsStorable _ (take 16 _) (length-take-le 16 _)
