-- ===== src/Period/Tests.antt =====
-- Runs of src/ccreport/period.py on small inputs, and each theorem at a concrete input.
use ccreport.Prelude.{◌≡◌, ◌↔◌, refl, [], ◌∷◌, true, false, arith}
use ccreport.Prelude.Texts.{codes, strip, lstrip, rstrip, push_unless_blank, is_space}
use ccreport.Errors.{ok, err, invalid_period, overflow_error}
use ccreport.Period.{
  is_digit, match_period, check_month, parse_period, decimal_from, decimal, zero_padded,
  format_period, previous_month, periods_from, available_periods, clamp_period,
}
use ccreport.Period.Printing.{parse-format}
use ccreport.Period.Calendar.{
  DateTime, is_leap, days_in_month, make_datetime, next_midnight, add_microsecond, first_instant,
  month_bounds, current_period, earlier,
}
use ccreport.Period.Bounds.{month_bounds_lem, month_bounds-earlier}

program : Unit {0}
unfolding strip lstrip rstrip push_unless_blank is_space is_digit match_period check_month
    parse_period decimal_from decimal zero_padded format_period previous_month periods_from
    available_periods clamp_period is_leap days_in_month make_datetime next_midnight add_microsecond
    month_bounds current_period earlier
program = tt

-- The window crosses a new year.
available_periods-new_year :
    available_periods 3 (2026, 2) ≡ codes "2026-02" ∷ codes "2026-01" ∷ codes "2025-12" ∷ []
unfolding program
available_periods-new_year = refl

parse_errors :
    (parse_period (codes "2026-13") ≡ err invalid_period)
    × (parse_period (codes "2026-7") ≡ err invalid_period)
    × (clamp_period (codes "2025-11") 3 (2026, 2) ≡ err invalid_period)
unfolding program
parse_errors = (refl, refl, refl)

month_bounds-february : month_bounds 2024 2 ≡ ok (first_instant 2024 2, first_instant 2024 3)
unfolding program
month_bounds-february = refl

last_month_overflows : month_bounds 9999 12 ≡ err overflow_error
unfolding program
last_month_overflows = refl

parse-spaced : parse_period (codes " 2026-07 ") ≡ ok (2026, 7)
unfolding program
parse-spaced = refl

parse-format_example : parse_period (format_period 2026 7) ≡ ok (2026, 7)
parse-format_example = parse-format 2026 7 (omega arith) (omega arith) (omega arith)

month_bounds_lem_example : month_bounds 2026 12 ≡ ok (first_instant 2026 12, first_instant 2027 1)
month_bounds_lem_example =
    month_bounds_lem 2026 12 (omega arith) (omega arith) (omega arith) (omega arith)

abbrev leap_day : DateTime
leap_day = record (first_instant 2024 2) { day = 29; hour = 23; minute = 59; second = 59 }

leap_day-exists : make_datetime leap_day ≡ ok leap_day
unfolding program
leap_day-exists = refl

month_bounds-earlier_example :
    ((earlier leap_day (first_instant 2024 2) ≡ false)
      × (earlier leap_day (first_instant 2024 3) ≡ true))
    ↔ (current_period leap_day ≡ (2024, 2))
month_bounds-earlier_example =
    month_bounds-earlier 2024 2 leap_day (first_instant 2024 2) (first_instant 2024 3)
      leap_day-exists month_bounds-february
