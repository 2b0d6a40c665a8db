-- ===== src/Calendar/Civil.antt =====
-- The UTC calendar of JavaScript's Date, from the year 0. An instant is a number of milliseconds
-- since the start of the year 0; dates before it are not in the model.
use titra.Common.{
  ℕ, zero, suc, ◌+◌, ◌-◌, ◌*◌, ◌/◌, ◌%◌, Bool, true, false, not, ◌&&◌, ◌||◌, ltb, eqb,
  if◌then◌else◌,
}

pub record Civil : Type 0 where
  pub year : ℕ
  pub month : ℕ
  pub day : ℕ

abbrev pub civil : ℕ → ℕ → ℕ → Civil
civil y m d = record { year = y; month = m; day = d }

abbrev pub day_ms : ℕ
day_ms = 24 * 60 * 60 * 1000

unfoldable pub is_leap : ℕ → Bool
is_leap y = eqb (y % 4) 0 && (not (eqb (y % 100) 0) || eqb (y % 400) 0)

unfoldable pub year_size : ℕ → ℕ
unfolding is_leap
year_size y = if is_leap y then 366 else 365

-- The number of days before the year.
unfoldable pub year_start : ℕ → ℕ
year_start y = y * 365 + (y + 3) / 4 + (y + 399) / 400 - (y + 99) / 100

-- Months are counted from 0 here.
unfoldable pub month_size : ℕ → ℕ → ℕ
unfolding is_leap
month_size y m =
    if eqb m 1
    then (if is_leap y then 29 else 28)
    else if eqb m 3 || eqb m 5 || eqb m 8 || eqb m 10
    then 30
    else 31

unfoldable pub month_start : ℕ → ℕ → ℕ
unfolding month_size
month_start y zero = 0
month_start y (suc m) = month_start y m + month_size y m

-- Which of the blocks from `i` on the day `d` falls into, and on which day of it.
unfoldable pub locate : (ℕ → ℕ) → ℕ → ℕ → ℕ → ℕ × ℕ
locate size zero i d = (i, d)
locate size (suc fuel) i d = elim (ltb d (size i)) [
  | true ↦ (i, d)
  | false ↦ locate size fuel (i + 1) (d - size i)
]

-- The day number of a date. A day beyond the month's end runs on into the next month.
unfoldable pub days_of : Civil → ℕ
unfolding year_start month_start
days_of c = year_start c.year + month_start c.year (c.month - 1) + (c.day - 1)

-- No year is shorter than a day, so `n + 1` rounds are enough.
unfoldable pub civil_of_days : ℕ → Civil
unfolding locate year_size month_size
civil_of_days n =
    let (y, rest) = locate year_size (n + 1) 0 n in
    let (m, d) = locate (month_size y) 12 0 rest in civil y (m + 1) (d + 1)

-- `getUTCFullYear`, `getUTCMonth` and `getUTCDate` of an instant.
unfoldable pub civil_of_instant : ℕ → Civil
unfolding civil_of_days
civil_of_instant t = civil_of_days (t / day_ms)
