-- ===== src/Period/Bounds.antt =====
-- The bounds of a month are the first instants of it and of the next, and hold exactly the times of
-- that month (src/ccreport/period.py, `month_bounds`).
use ccreport.Prelude.{
  ℕ, ◌+◌, ◌≤◌, ◌≡◌, ◌↔◌, true, false, ◌&&◌, ◌||◌, arith, ltb, ◌==◌, if◌then◌else◌,
}
use ccreport.Errors.{ok, err, overflow_error}
use ccreport.Period.Calendar.{
  DateTime, days_in_month, make_datetime, next_midnight, add_microsecond, first_instant,
  month_bounds, current_period, earlier,
}

days_in_month_range : (y m : ℕ) → (28 ≤ days_in_month y m) × (days_in_month y m ≤ 31)
unfolding days_in_month
days_in_month_range y m = ground arith

-- The month after.
abbrev pub next_month : ℕ × ℕ → ℕ × ℕ
next_month (y, m) = if m == 12 then (y + 1, 1) else (y, m + 1)

-- The bounds are the first instant of the month and that of the month after it; only the last
-- month that `datetime` can hold overflows.
pub month_bounds_lem :
    (y m : ℕ)
    → 1 ≤ y
    → y ≤ 9999
    → 1 ≤ m
    → m ≤ 12
    → month_bounds y m ≡ (
        if (y == 9999) && (m == 12)
        then err overflow_error
        else ok (first_instant y m, first_instant (next_month (y, m)).0 (next_month (y, m)).1))
unfolding month_bounds make_datetime add_microsecond next_midnight
month_bounds_lem y m y1 y2 m1 m2 = ground (arith, days_in_month_range y m)

-- A month that has bounds is one that `datetime` can hold, and these are its bounds.
month_bounds-eq-ok :
    (y m : ℕ) {b : DateTime × DateTime}
    → month_bounds y m ≡ ok b
    → (1 ≤ m)
      × (m ≤ 12)
      × (b ≡ (first_instant y m, first_instant (next_month (y, m)).0 (next_month (y, m)).1))
unfolding month_bounds make_datetime add_microsecond next_midnight
month_bounds-eq-ok y m h = ground (arith, days_in_month_range y m)

make_datetime-eq-ok :
    (t : DateTime) → make_datetime t ≡ ok t → (1 ≤ t.day) × (1 ≤ t.month) × (t.month ≤ 12)
unfolding make_datetime
make_datetime-eq-ok t h = ground arith

-- No time of a month is earlier than its first instant.
earlier-first_instant :
    (t : DateTime) (y m : ℕ)
    → 1 ≤ t.day
    → earlier t (first_instant y m) ≡ (ltb t.year y || ((t.year == y) && ltb t.month m))
unfolding earlier
earlier-first_instant t y m h = ground arith

-- A time lies between the bounds of a month exactly when its year and month are that month.
pub month_bounds-earlier :
    (y m : ℕ) (t start end : DateTime)
    → make_datetime t ≡ ok t
    → month_bounds y m ≡ ok (start, end)
    → ((earlier t start ≡ false) × (earlier t end ≡ true)) ↔ (current_period t ≡ (y, m))
unfolding current_period
month_bounds-earlier y m t start end ht h =
    let bounds = month_bounds-eq-ok y m h in
    let valid = make_datetime-eq-ok t ht in
    let (ny, nm) = next_month (y, m) in
    let a = earlier-first_instant t y m valid.0 in
    let b = earlier-first_instant t ny nm valid.0 in (λ e. ground arith, λ e. ground arith)
