-- ===== src/Period.antt =====
-- src/ccreport/period.py: parsing and printing a month, the window of months that may be used, and
-- the bounds of a month.

pub mod Printing
pub mod Window
pub mod Calendar
pub mod Bounds
mod Tests
use ccreport.Prelude.{
  not, ℕ, zero, suc, ◌+◌, ◌-◌, ◌*◌, ◌/◌, ◌%◌, Bool, true, false, ◌&&◌, Option, none, some, List, [],
  ◌∷◌, ◌++◌, leb, ltb, ◌==◌, if◌then◌else◌, length, replicate, any,
}
use ccreport.Prelude.Texts.{Text, text_eq, strip}
use ccreport.Errors.{Result, ok, err, invalid_period, ◌>>=◌, ◌>>◌, raise_if}

-- `\d`
unfoldable pub is_digit : ℕ → Bool
is_digit c = leb b'0' c && leb c b'9'

abbrev pub digit : ℕ → ℕ
digit c = c - b'0'

-- `_PERIOD_RE` matched against the stripped value: `^(\d{4})-(\d{2})$`, with the groups as numbers
unfoldable pub match_period : Text → Option (ℕ × ℕ)
match_period (a ∷ b ∷ c ∷ d ∷ dash ∷ e ∷ f ∷ []) =
    if is_digit a
      && is_digit b
      && is_digit c
      && is_digit d
      && (dash == b'-')
      && is_digit e
      && is_digit f
    then some (digit a * 1000 + digit b * 100 + digit c * 10 + digit d, digit e * 10 + digit f)
    else none
match_period _ = none

-- `if not 1 <= month <= 12: raise`
unfoldable pub check_month : ℕ × ℕ → Result (ℕ × ℕ)
check_month (year, month) =
    if leb 1 month && leb month 12 then ok (year, month) else err invalid_period

unfoldable pub parse_period : Text → Result (ℕ × ℕ)
parse_period value = elim (match_period (strip value)) [
  | none ↦ err invalid_period
  | some parsed ↦ check_month parsed
]

-- `str(n)` for a natural number, its digits before those in `acc`; `fuel` above `n` is enough
unfoldable pub decimal_from : ℕ → ℕ → Text → Text
decimal_from zero n acc = acc
decimal_from (suc fuel) n acc =
    let rest = decimal_from fuel (n / 10) ((b'0' + n % 10) ∷ acc) in
    if ltb n 10 then (b'0' + n) ∷ acc else rest

unfoldable pub decimal : ℕ → Text
decimal n = decimal_from (suc n) n []

-- the format `{n:0wd}`
unfoldable pub zero_padded : ℕ → ℕ → Text
zero_padded w n = let s = decimal n in replicate (w - length s) b'0' ++ s

unfoldable pub format_period : ℕ → ℕ → Text
format_period year month = zero_padded 4 year ++ b'-' ∷ zero_padded 2 month

-- one turn of the loop of `available_periods`: the month before
unfoldable pub previous_month : ℕ × ℕ → ℕ × ℕ
previous_month (year, month) = if month - 1 == 0 then (year - 1, 12) else (year, month - 1)

-- `for _ in range(window)`
unfoldable pub periods_from : ℕ → ℕ × ℕ → List Text
periods_from zero _ = []
periods_from (suc rounds) (year, month) =
    format_period year month ∷ periods_from rounds (previous_month (year, month))

-- The window is the setting `month_window`, and `now` the year and month of the current time.
unfoldable pub available_periods : ℕ → ℕ × ℕ → List Text
available_periods window now = if ltb window 1 then [] else periods_from window now

unfoldable pub clamp_period : Text → ℕ → ℕ × ℕ → Result (ℕ × ℕ)
clamp_period value window now = do
  (year, month) ← parse_period value
  let allowed = available_periods window now
  raise_if (not (any (text_eq (format_period year month)) allowed)) invalid_period
  ok (year, month)
