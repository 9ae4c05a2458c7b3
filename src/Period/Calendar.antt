-- ===== src/Period/Calendar.antt =====
-- `month_bounds` and `current_period` of src/ccreport/period.py, over the part of Python's
-- `datetime` and `calendar` that they use. All times are in UTC.
use ccreport.Prelude.{ℕ, ◌+◌, ◌%◌, Bool, not, ◌&&◌, ◌||◌, leb, ltb, ◌==◌, if◌then◌else◌}
use ccreport.Errors.{Result, ok, err, value_error, overflow_error, ◌>>=◌}

-- a `datetime.datetime` with `tzinfo=UTC`
pub record DateTime : Type 0 where
  pub year : ℕ
  pub month : ℕ
  pub day : ℕ
  pub hour : ℕ
  pub minute : ℕ
  pub second : ℕ
  pub microsecond : ℕ

-- `calendar.isleap`
unfoldable pub is_leap : ℕ → Bool
is_leap y = (y % 4 == 0) && (not (y % 100 == 0) || (y % 400 == 0))

-- `calendar.monthrange(year, month)[1]`
unfoldable pub days_in_month : ℕ → ℕ → ℕ
days_in_month y m =
    if m == 2
    then (if is_leap y then 29 else 28)
    else (if (m == 4) || (m == 6) || (m == 9) || (m == 11) then 30 else 31)

-- the range check of the `datetime` constructor
unfoldable pub make_datetime : DateTime → Result DateTime
make_datetime t =
    if leb 1 t.year
      && leb t.year 9999
      && leb 1 t.month
      && leb t.month 12
      && leb 1 t.day
      && leb t.day (days_in_month t.year t.month)
      && ltb t.hour 24
      && ltb t.minute 60
      && ltb t.second 60
      && ltb t.microsecond 1000000
    then ok t
    else err value_error

-- the midnight after the day of `t`
unfoldable pub next_midnight : DateTime → Result DateTime
next_midnight t =
    let midnight : DateTime = record t { hour = 0; minute = 0; second = 0; microsecond = 0 } in
    if ltb t.day (days_in_month t.year t.month)
    then ok (record midnight { day = t.day + 1 })
    else (if ltb t.month 12
        then ok (record midnight { month = t.month + 1; day = 1 })
        else (if ltb t.year 9999
            then ok (record midnight { year = t.year + 1; month = 1; day = 1 })
            else err overflow_error))

-- `t + timedelta(microseconds=1)`
unfoldable pub add_microsecond : DateTime → Result DateTime
add_microsecond t =
    if ltb t.microsecond 999999
    then ok (record t { microsecond = t.microsecond + 1 })
    else (if ltb t.second 59
        then ok (record t { second = t.second + 1; microsecond = 0 })
        else (if ltb t.minute 59
            then ok (record t { minute = t.minute + 1; second = 0; microsecond = 0 })
            else (if ltb t.hour 23
                then ok (record t { hour = t.hour + 1; minute = 0; second = 0; microsecond = 0 })
                else next_midnight t)))

-- the first instant of a month
abbrev pub first_instant : ℕ → ℕ → DateTime
first_instant y m = record {
  year = y;
  month = m;
  day = 1;
  hour = 0;
  minute = 0;
  second = 0;
  microsecond = 0;
}

unfoldable pub month_bounds : ℕ → ℕ → Result (DateTime × DateTime)
month_bounds year month = do
  start ← make_datetime (first_instant year month)
  last ← make_datetime (record {
    year = year;
    month = month;
    day = days_in_month year month;
    hour = 23;
    minute = 59;
    second = 59;
    microsecond = 999999;
  })
  end ← add_microsecond last
  ok (start, end)

-- `now` is the argument, or the current time where none was given
unfoldable pub current_period : DateTime → ℕ × ℕ
current_period now = (now.year, now.month)

-- `a < b`: field by field, the most significant first
unfoldable pub earlier : DateTime → DateTime → Bool
earlier a b =
    ltb a.year b.year
    || ((a.year == b.year)
        && (ltb a.month b.month
            || ((a.month == b.month)
                && (ltb a.day b.day
                    || ((a.day == b.day)
                        && (ltb a.hour b.hour
                            || ((a.hour == b.hour)
                                && (ltb a.minute b.minute
                                    || ((a.minute == b.minute)
                                        && (ltb a.second b.second
                                            || ((a.second == b.second)
                                                && ltb a.microsecond b.microsecond)))))))))))
