-- ===== src/Filters/Amounts.antt =====
-- Amounts of money in a text: `extract_amount` of src/ccreport/filters.py.
use ccreport.Prelude.{
  ℕ, zero, suc, Bool, not, ◌&&◌, ◌||◌, Option, none, some, List, [], ◌∷◌, if◌then◌else◌, ltb, leb,
  ◌==◌, length, any, is_some,
}
use ccreport.Prelude.Int.{ℤ, pos, negsuc}
use ccreport.Prelude.Texts.{Text, codes, contains, lower, upper}
use ccreport.Regex.{
  Regex, one, seq, alt, group, optional, plus, char, word, one_of, all_of, word_edge, search,
  not_behind, not_ahead, is_word, is_digit_code, spaces, Match, match_here, find_matches, group_of,
}
use ccreport.Storage.{take}
use ccreport.Filters.Numbers.{has_char, digits_of, parse_number}
use ccreport.Bundle.Amounts.{int_from}
use ccreport.Bundle.{abs_ℤ}

-- the names of the groups of `_AMOUNT_RE`
abbrev pub opening : ℕ
opening = 0

abbrev pub negative : ℕ
negative = 1

abbrev pub prefix_code : ℕ
prefix_code = 2

abbrev pub prefix_sym : ℕ
prefix_sym = 3

abbrev pub number : ℕ
number = 4

abbrev pub suffix_sym : ℕ
suffix_sym = 5

abbrev pub suffix_code : ℕ
suffix_code = 6

abbrev pub closing : ℕ
closing = 7

-- the dollar, the euro, the pound and the yen sign
abbrev pub is_symbol : ℕ → Bool
is_symbol c = (c == b'$') || (c == 0x20ac) || (c == 0xa3) || (c == 0xa5)

abbrev pub currency_codes : List Text
currency_codes = codes "USD" ∷ codes "EUR" ∷ codes "GBP" ∷ codes "JPY" ∷ []

abbrev pub currency_re : Regex
currency_re =
    one_of (word (codes "USD")) (word (codes "EUR") ∷ word (codes "GBP") ∷ word (codes "JPY") ∷ [])

abbrev pub digit_re : Regex
digit_re = one is_digit_code

abbrev pub is_separator : ℕ → Bool
is_separator c = (c == b',') || (c == b'.')

-- `(?:\d{1,3}(?:[,.]\d{3})+|\d+)(?:[,.]\d{2})?`
abbrev pub number_re : Regex
number_re =
    seq
      (alt
        (seq (seq digit_re (optional (seq digit_re (optional digit_re))))
          (plus (all_of (one is_separator ∷ digit_re ∷ digit_re ∷ digit_re ∷ []))))
        (plus digit_re))
      (optional (all_of (one is_separator ∷ digit_re ∷ digit_re ∷ [])))

-- `_AMOUNT_RE`
abbrev pub amount_re : Regex
amount_re = all_of (
    not_behind is_word
    ∷ optional (group opening (char b'('))
    ∷ spaces
    ∷ optional (group negative (char b'-'))
    ∷ spaces
    ∷ optional (seq (group prefix_code currency_re) spaces)
    ∷ optional (group prefix_sym (one is_symbol))
    ∷ spaces
    ∷ group number number_re
    ∷ spaces
    ∷ optional (group suffix_sym (one is_symbol))
    ∷ spaces
    ∷ optional (group suffix_code currency_re)
    ∷ spaces
    ∷ optional (group closing (char b')'))
    ∷ not_ahead (λ c. is_word c || (c == b'%'))
    ∷ [])

-- `a or b`, for groups; a group that matched is not empty
abbrev pub or_else : Option Text → Option Text → Option Text
or_else none second = second
or_else (some text) second = some text

-- `_SYMBOL_TO_CODE`
unfoldable pub code_of_symbol : Text → Option Text
code_of_symbol (c ∷ []) =
    if c == b'$'
    then some (codes "USD")
    else (if c == 0x20ac
        then some (codes "EUR")
        else (if c == 0xa3
            then some (codes "GBP")
            else (if c == 0xa5 then some (codes "JPY") else none)))
code_of_symbol _ = none

abbrev pub code_of_optional : Option Text → Option Text
code_of_optional none = none
code_of_optional (some symbol) = code_of_symbol symbol

-- `(prefix_code or suffix_code or "").upper()`
abbrev pub written_code : Match → Text
written_code m = elim (or_else (group_of prefix_code m.groups) (group_of suffix_code m.groups)) [
  | none ↦ []
  | some code ↦ upper code
]

unfoldable pub currency_code : Match → Option Text
currency_code m =
    let code = written_code m in
    if contains code currency_codes
    then some code
    else code_of_optional (or_else (group_of prefix_sym m.groups) (group_of suffix_sym m.groups))

abbrev pub looks_like_year : Text → Bool
looks_like_year raw =
    let digits = digits_of raw in
    (length digits == 4)
    && leb 1900 (int_from 0 digits)
    && leb (int_from 0 digits) 2100
    && not (has_char b'.' raw)
    && not (has_char b',' raw)

-- `^\s*(%|percent|tracking|order)`
abbrev pub no_money_re : Regex
no_money_re = seq spaces (
    one_of (char b'%')
      (word (codes "percent") ∷ word (codes "tracking") ∷ word (codes "order") ∷ []))

unfoldable pub reject_number : Match → Text → Bool
reject_number m raw =
    let after = lower (take 20 m.after) in
    has_char b'%' (take 2 after)
    || (not (any is_symbol m.matched)
        && not (search (all_of (word_edge ∷ currency_re ∷ word_edge ∷ [])) m.matched))
    || looks_like_year raw
    || ltb 9 (length (digits_of raw))
    || is_some (match_here no_money_re none after)

-- `-cents`
abbrev pub negated : ℕ → ℤ
negated zero = pos 0
negated (suc n) = negsuc n

abbrev pub is_negative : Match → Bool
is_negative m =
    is_some (group_of negative m.groups)
    || (is_some (group_of opening m.groups) && is_some (group_of closing m.groups))

-- `match.group("number")`; the group is part of every match
abbrev pub number_of : Match → Text
number_of m = elim (group_of number m.groups) [ none ↦ [] | some raw ↦ raw ]

-- one turn of the loop: the amount that a match stands for, if it stands for one
unfoldable pub candidate_of : Match → Option (ℤ × Text)
candidate_of m = elim (currency_code m) [
  | none ↦ none
  | some code ↦
      if reject_number m (number_of m) then none else elim (parse_number (number_of m) code) [
        | none ↦ none
        | some cents ↦ some (if is_negative m then negated cents else pos cents, code)
      ]
]

unfoldable pub candidates_of : List Match → List (ℤ × Text)
candidates_of [] = []
candidates_of (m ∷ ms) =
    let rest = candidates_of ms in
    elim (candidate_of m) [ none ↦ rest | some amount ↦ amount ∷ rest ]

-- `max(candidates, key=lambda item: abs(item[0]))`: the first of the largest, from `best` on
unfoldable pub largest_from : ℤ × Text → List (ℤ × Text) → ℤ × Text
largest_from best [] = best
largest_from best (amount ∷ amounts) =
    largest_from (if ltb (abs_ℤ best.0) (abs_ℤ amount.0) then amount else best) amounts

unfoldable pub largest : List (ℤ × Text) → Option (ℤ × Text)
largest [] = none
largest (amount ∷ amounts) = some (largest_from amount amounts)

unfoldable pub extract_amount : Text → Option (ℤ × Text)
extract_amount text = largest (candidates_of (find_matches amount_re text))
