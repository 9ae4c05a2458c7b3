-- ===== src/Period/Window.antt =====
-- The window of permitted months (src/ccreport/period.py, `available_periods` and `clamp_period`).
use ccreport.Prelude.{
  ℕ, zero, suc, ◌+◌, ◌*◌, ◌≤◌, ◌<◌, ◌≡◌, ◌↔◌, refl, ap, false, some, arith, leb, ltb, ◌==◌, ◌&&◌,
  ◌||◌, Bool-eq_of_iff, ==_iff, any, get_elem?, length,
}
use ccreport.Prelude.Texts.{Text, text_eq, text_eq_iff}
use ccreport.Errors.{ok}
use ccreport.Period.{
  parse_period, format_period, previous_month, periods_from, available_periods, clamp_period,
}
use ccreport.Period.Printing.{parse-format, parse_period_sound}

-- Months counted from the beginning of the calendar.
abbrev pub month_index : ℕ × ℕ → ℕ
month_index (y, m) = 12 * y + m

abbrev pub IsMonth : ℕ × ℕ → Type 0
IsMonth (y, m) = (1 ≤ m) × (m ≤ 12)

previous_month-index :
    (p : ℕ × ℕ)
    → IsMonth p
    → 1 < month_index p
    → IsMonth (previous_month p) × (month_index (previous_month p) + 1 ≡ month_index p)
unfolding previous_month
previous_month-index (y, m) h k = ground arith

previous_month-year-le : (p : ℕ × ℕ) → (previous_month p).0 ≤ p.0
unfolding previous_month
previous_month-year-le (y, m) = ground arith

pub length-periods_from : (n : ℕ) (p : ℕ × ℕ) → length (periods_from n p) ≡ n
unfolding periods_from
length-periods_from zero p = refl
length-periods_from (suc n) p = ap suc (length-periods_from n (previous_month p))

-- The entry at place `i` is the month `i` months back.
pub periods_from-entry :
    (n : ℕ) (p : ℕ × ℕ) (i : ℕ)
    → IsMonth p
    → n < month_index p
    → i < n
    → (q : ℕ × ℕ) × IsMonth q
      × (month_index q + i ≡ month_index p)
      × (get_elem? (periods_from n p) i ≡ some (format_period q.0 q.1))
unfolding periods_from
periods_from-entry zero p i h w k = absurd (omega arith)
periods_from-entry (suc n) p zero h w k = (p, h, omega arith, refl)
periods_from-entry (suc n) p (suc i) h w k =
    let (h', e) = previous_month-index p h (omega arith) in
    let (q, hq, eq, found) =
      periods_from-entry n (previous_month p) i h' (omega arith) (omega arith) in
    (q, hq, omega arith, found)

format_period-injective :
    (p q : ℕ × ℕ)
    → IsMonth p
    → IsMonth q
    → p.0 < 10000
    → q.0 < 10000
    → format_period p.0 p.1 ≡ format_period q.0 q.1
    → p ≡ q
format_period-injective p q hp hq yp yq e =
    let a = parse-format p.0 p.1 yp hp.0 hp.1 in
    let b = parse-format q.0 q.1 yq hq.0 hq.1 in cc (a, b, ap parse_period e)

month_index-injective :
    (p q : ℕ × ℕ) → IsMonth p → IsMonth q → month_index p ≡ month_index q → p ≡ q
month_index-injective (y, m) (y', m') hp hq e =
    let same : (y ≡ y') × (m ≡ m') = omega arith in ground arith

-- Two printed months are the same text exactly when they are the same month.
text_eq-format_period :
    (p q : ℕ × ℕ)
    → IsMonth p
    → IsMonth q
    → p.0 < 10000
    → q.0 < 10000
    → text_eq (format_period p.0 p.1) (format_period q.0 q.1) ≡ (month_index p == month_index q)
text_eq-format_period p q hp hq yp yq =
    let s = format_period p.0 p.1 in
    let t = format_period q.0 q.1 in
    Bool-eq_of_iff _ _
      (λ e.
        let same = format_period-injective p q hp hq yp yq ((text_eq_iff s t).0 e) in
        (==_iff _ _).1 (ap month_index same))
      (λ e.
        let same = month_index-injective p q hp hq ((==_iff _ _).0 e) in
        (text_eq_iff s t).1 (ap (λ (r : ℕ × ℕ). format_period r.0 r.1) same))

step_back :
    (q p i n : ℕ)
    → i + 1 ≡ p
    → ((q == p) || (leb q i && ltb i (q + n))) ≡ (leb q p && ltb p (q + suc n))
step_back q p i n e = ground arith

any-periods_from :
    (n : ℕ) (q p : ℕ × ℕ)
    → IsMonth q
    → IsMonth p
    → q.0 < 10000
    → p.0 < 10000
    → n < month_index p
    → any (text_eq (format_period q.0 q.1)) (periods_from n p)
      ≡ (leb (month_index q) (month_index p) && ltb (month_index p) (month_index q + n))
unfolding periods_from
any-periods_from zero q p hq hp yq yp w = ground arith
any-periods_from (suc n) q p hq hp yq yp w =
    let (h', e) = previous_month-index p hp (omega arith) in
    let le = previous_month-year-le p in
    let i = month_index (previous_month p) in
    rw
      (
        text_eq-format_period q p hq hp yq yp,
        any-periods_from n q (previous_month p) hq h' yq (omega arith) (omega arith),
      )
      (step_back (month_index q) (month_index p) i n e)

-- Whether a month is offered, as a comparison of month indices.
pub any-available_periods :
    (window : ℕ) (q now : ℕ × ℕ)
    → IsMonth q
    → IsMonth now
    → q.0 < 10000
    → now.0 < 10000
    → window < month_index now
    → any (text_eq (format_period q.0 q.1)) (available_periods window now)
      ≡ (leb (month_index q) (month_index now) && ltb (month_index now) (month_index q + window))
unfolding available_periods
any-available_periods zero q now hq hn yq yn w = ground arith
any-available_periods (suc n) q now hq hn yq yn w =
    ground (arith, any-periods_from (suc n) q now hq hn yq yn w)

-- A month is accepted exactly when it parses and is this month or one of the `window - 1` before
-- it, and what is returned is the month that was asked for.
pub clamp_period_iff :
    (value : Text) (window : ℕ) (now : ℕ × ℕ) (y m : ℕ)
    → IsMonth now
    → now.0 < 10000
    → window < month_index now
    → (clamp_period value window now ≡ ok (y, m)) ↔ (
        (parse_period value ≡ ok (y, m))
        × (month_index (y, m) ≤ month_index now)
        × (month_index now < month_index (y, m) + window))
unfolding clamp_period
clamp_period_iff value window now y m h hy w = (
  λ e.
      ground
        (arith, parse_period_sound value {y = y} {m = m}, any-available_periods window (y, m) now),
  λ e.
      ground
        (arith, parse_period_sound value {y = y} {m = m}, any-available_periods window (y, m) now),
)

-- The window holds one entry for each of its months, this month first, and each next entry is
-- the month before.
pub available_periods_lem :
    (window : ℕ) (now : ℕ × ℕ)
    → IsMonth now
    → window < month_index now
    → (length (available_periods window now) ≡ window)
      × ((i : ℕ)
          → i < window
          → (q : ℕ × ℕ) × IsMonth q
            × (month_index q + i ≡ month_index now)
            × (get_elem? (available_periods window now) i ≡ some (format_period q.0 q.1)))
unfolding available_periods
available_periods_lem zero now h w = (refl, λ i k. absurd (omega arith))
available_periods_lem (suc n) now h w =
    let some_window : ltb (suc n) 1 ≡ false = ground arith in
    rw some_window (length-periods_from (suc n) now, λ i k. periods_from-entry (suc n) now i h w k)
