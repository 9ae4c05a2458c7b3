-- ===== src/Filters/Numbers.antt =====
-- Numbers written with separators: `_parse_number` of src/ccreport/filters.py.
use ccreport.Prelude.{
  ℕ, ◌+◌, ◌*◌, Bool, ◌&&◌, Option, none, some, [], ◌∷◌, if◌then◌else◌, ltb, ◌==◌, length, keep, any,
}
use ccreport.Prelude.Texts.{Text, codes, contains}
use ccreport.Regex.{is_digit_code}
use ccreport.Storage.{is_empty}
use ccreport.Bundle.Amounts.{int_from}
use ccreport.Bundle.{zero_minor}

abbrev pub has_char : ℕ → Text → Bool
has_char c s = any (λ d. d == c) s

-- `re.sub(r"\D", "", s)`
abbrev pub digits_of : Text → Text
digits_of s = keep is_digit_code s

-- the text behind the last such character, and the text before it, if there is one
unfoldable pub rpartition : ℕ → Text → Option (Text × Text)
rpartition sep [] = none
rpartition sep (c ∷ s) = elim (rpartition sep s) [
  | some (whole, frac) ↦ some (c ∷ whole, frac)
  | none ↦ if c == sep then some ([], s) else none
]

-- `len(raw.split(sep)[-1])`
abbrev pub length_behind : ℕ → Text → ℕ
length_behind sep raw = elim (rpartition sep raw) [
  | none ↦ length raw
  | some (whole, frac) ↦ length frac
]

-- `decimal_sep`: the character that stands before the minor units, if one does
unfoldable pub decimal_separator : Text → Option ℕ
decimal_separator raw =
    if has_char b',' raw && has_char b'.' raw
    then some (if ltb (length_behind b',' raw) (length_behind b'.' raw) then b',' else b'.')
    else (if has_char b',' raw
        then (if length_behind b',' raw == 2 then some b',' else none)
        else (if has_char b'.' raw
            then (if length_behind b'.' raw == 2 then some b'.' else none)
            else none))

-- `frac[:2].ljust(2, "0")`
abbrev pub two_digits : Text → Text
two_digits [] = codes "00"
two_digits (c ∷ []) = c ∷ codes "0"
two_digits (c ∷ d ∷ s) = c ∷ d ∷ []

-- `whole_digits` and `frac_digits`
unfoldable pub number_parts : Text → Text × Text
number_parts raw = elim (decimal_separator raw) [
  | none ↦ (digits_of raw, codes "00")
  | some sep ↦ elim (rpartition sep raw) [
    | none ↦ ([], two_digits (digits_of raw))
    | some (whole, frac) ↦ (digits_of whole, two_digits (digits_of frac))
  ]
]

unfoldable pub parse_number : Text → Text → Option ℕ
parse_number raw code =
    let (whole, frac) = number_parts raw in
    if is_empty whole
    then none
    else (if contains code zero_minor
        then some (int_from 0 whole)
        else some (int_from 0 whole * 100 + int_from 0 frac))
