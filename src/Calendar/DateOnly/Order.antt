-- ===== src/Calendar/DateOnly/Order.antt =====
-- Dates in canonical form are ordered as strings as they are in time.
use titra.Common.{
  ℕ, suc, ◌+◌, ◌-◌, ◌/◌, ◌%◌, ◌<◌, ◌≡◌, sym, ap, ◌∙◌, ◌⊎◌, inl, inr, Bool, true, false, ◌&&◌, ◌||◌,
  some, arith, Text, List_eq, ℕ_eq, ltb, eqb, is_before, Bool-cases,
}
use titra.Calendar.Civil.{Civil, days_of, month_size, month_start, year_start, year_size}
use titra.Calendar.Days.{IsValid, start-le, year_start-suc, month_start-suc, within_year}
use titra.Calendar.DateOnly.{format_date_parts, day_number}
use titra.Calendar.DateOnly.Canonical.{day_number-IsCanonical}
use titra.Calendar.DateOnly.Digits.{IsDate, pad_two-digits, pad_four-digits, IsDate-small}

-- The first number that differs decides.
abbrev decided : ℕ → ℕ → Bool → Bool
decided n m rest = ltb n m || (eqb n m && rest)

two_before :
    (n m : ℕ) (rest : Bool)
    → decided (48 + n / 10) (48 + m / 10) (decided (48 + n % 10) (48 + m % 10) rest)
      ≡ decided n m rest
two_before n m true = ground arith
two_before n m false = ground arith

four_before :
    (n m : ℕ) (rest : Bool)
    → decided (48 + n / 1000) (48 + m / 1000) (
        decided (48 + n / 100 % 10) (48 + m / 100 % 10) (
          decided (48 + n / 10 % 10) (48 + m / 10 % 10) (decided (48 + n % 10) (48 + m % 10) rest)))
      ≡ decided n m rest
four_before n m true = ground arith
four_before n m false = ground arith

-- The date that the first of year, month and day that differs puts first.
abbrev earlier : Civil → Civil → Bool
earlier a b = decided a.year b.year (decided a.month b.month (decided a.day b.day false))

-- Canonical forms are compared as the dates' numbers are.
is_before-earlier :
    (a b : Civil)
    → IsDate a
    → IsDate b
    → is_before (format_date_parts a) (format_date_parts b) ≡ earlier a b
unfolding is_before format_date_parts
is_before-earlier a b d e =
    let (small_month, small_day) = IsDate-small a d in
    let (small_month', small_day') = IsDate-small b e in
    rw
      (
        pad_four-digits a.year d.short_year,
        pad_two-digits a.month small_month,
        pad_two-digits a.day small_day,
        pad_four-digits b.year e.short_year,
        pad_two-digits b.month small_month',
        pad_two-digits b.day small_day',
      )
      (four_before a.year b.year _
        ∙ ap (decided a.year b.year) (
            two_before a.month b.month _
            ∙ ap (decided a.month b.month) (two_before a.day b.day false)))

year_first : (a b : Civil) → IsValid a → IsValid b → a.year < b.year → days_of a < days_of b
unfolding days_of
year_first a b v w lt = omega (
  arith,
  within_year a v,
  year_start-suc a.year,
  start-le year_size year_start year_start-suc (suc a.year) b.year (omega (arith, lt)),
)

month_first :
    (a b : Civil)
    → IsValid a
    → IsValid b
    → a.year ≡ b.year
    → a.month < b.month
    → days_of a < days_of b
unfolding days_of
month_first a b v w same lt = omega (
  arith,
  ap year_start same,
  ap (λ y. month_start y (b.month - 1)) same,
  v.day_to,
  v.day_from,
  v.month_from,
  month_start-suc a.year (a.month - 1),
  start-le (month_size a.year) (month_start a.year) (month_start-suc a.year) (suc (a.month - 1))
      (b.month - 1) (omega (arith, lt, v.month_from)),
)

day_first :
    (a b : Civil)
    → IsValid a
    → IsValid b
    → a.year ≡ b.year
    → a.month ≡ b.month
    → days_of a + b.day ≡ days_of b + a.day
unfolding days_of
day_first a b v w same same' = omega (
  arith,
  ap year_start same,
  ap (λ y. month_start y (b.month - 1)) same,
  ap (λ m. month_start a.year (m - 1)) same',
  v.day_from,
  w.day_from,
)

three_ways : (n m : ℕ) → (n < m) ⊎ ((m < n) ⊎ (n ≡ m))
three_ways n m = elim (Bool-cases (ltb n m)) [
  | inl lt ↦ inl (ground (arith, lt))
  | inr ge ↦ elim (Bool-cases (ltb m n)) [
    | inl gt ↦ inr (inl (ground (arith, gt)))
    | inr le ↦ inr (inr (ground (arith, ge, le)))
  ]
]

-- The dates' numbers are compared as their day numbers are.
earlier-days_of : (a b : Civil) → IsValid a → IsValid b → earlier a b ≡ ltb (days_of a) (days_of b)
earlier-days_of a b v w = elim (three_ways a.year b.year) [
  | inl lt ↦ ground (arith, lt, year_first a b v w lt)
  | inr (inl gt) ↦ ground (arith, gt, year_first b a w v gt)
  | inr (inr same) ↦ elim (three_ways a.month b.month) [
    | inl lt ↦ ground (arith, same, lt, month_first a b v w same lt)
    | inr (inl gt) ↦ ground (arith, same, gt, month_first b a w v (sym same) gt)
    | inr (inr same') ↦ ground (arith, same, same', day_first a b v w same same')
  ]
]

-- `<` on two dates in canonical form, which is a comparison of strings, is that of their days.
pub is_before-day_number :
    (s t : Text) (m n : ℕ) → day_number s ≡ some m → day_number t ≡ some n → is_before s t ≡ ltb m n
is_before-day_number s t m n h k =
    let (c, at) = day_number-IsCanonical s m h in
    let (d, at') = day_number-IsCanonical t n k in
    rw (sym at, sym at', sym c.written, sym d.written)
      (is_before-earlier c.date d.date c.is_date d.is_date
        ∙ earlier-days_of c.date d.date c.is_date.valid d.is_date.valid)
