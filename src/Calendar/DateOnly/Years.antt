-- ===== src/Calendar/DateOnly/Years.antt =====
-- The year of a text that `isDateOnly` reads.
use titra.Common.{
  ℕ, suc, ◌+◌, ◌-◌, ◌≤◌, ◌<◌, ◌≡◌, refl, ap, subst, inl, inr, Bool, true, ◌&&◌, some, [], ◌∷◌,
  arith, Text, List_eq, ℕ_eq, ◌==◌, leb, if-eq-some, Bool-cases,
}
use titra.Revision.Decimal.{is_digit}
use titra.Calendar.Civil.{Civil, civil, days_of, month_size, month_start, year_start, year_size}
use titra.Calendar.Days.{start-le, year_start-suc, month_start-suc, twelve_months}
use titra.Calendar.DateOnly.{two, four, match_date, parse_utc}

digits-short :
    (a b c d : ℕ)
    → (is_digit a && is_digit b && is_digit c && is_digit d) ≡ true
    → four a b c d ≤ 9999
digits-short a b c d h = ground (arith, h)

front : (x p e f q g i : Bool) → (x && p && e && f && q && g && i) ≡ true → x ≡ true
front x p e f q g i h = ground (arith, h)

-- The digits that `match_date` reads give a year of at most 9999.
pub match_date-short : (s : Text) (c : Civil) → match_date s ≡ some c → c.year ≤ 9999
unfolding match_date
match_date-short [] r h = absurd (ground (arith, h))
match_date-short (a ∷ []) r h = absurd (ground (arith, h))
match_date-short (a ∷ b ∷ []) r h = absurd (ground (arith, h))
match_date-short (a ∷ b ∷ c ∷ []) r h = absurd (ground (arith, h))
match_date-short (a ∷ b ∷ c ∷ d ∷ []) r h = absurd (ground (arith, h))
match_date-short (a ∷ b ∷ c ∷ d ∷ p ∷ []) r h = absurd (ground (arith, h))
match_date-short (a ∷ b ∷ c ∷ d ∷ p ∷ e ∷ []) r h = absurd (ground (arith, h))
match_date-short (a ∷ b ∷ c ∷ d ∷ p ∷ e ∷ f ∷ []) r h = absurd (ground (arith, h))
match_date-short (a ∷ b ∷ c ∷ d ∷ p ∷ e ∷ f ∷ q ∷ []) r h = absurd (ground (arith, h))
match_date-short (a ∷ b ∷ c ∷ d ∷ p ∷ e ∷ f ∷ q ∷ g ∷ []) r h = absurd (ground (arith, h))
match_date-short (a ∷ b ∷ c ∷ d ∷ p ∷ e ∷ f ∷ q ∷ g ∷ i ∷ []) r h =
    let (digits, read) =
      if-eq-some
        (is_digit a
          && is_digit b
          && is_digit c
          && is_digit d
          && p == b'-'
          && is_digit e
          && is_digit f
          && q == b'-'
          && is_digit g
          && is_digit i)
        (civil (four a b c d) (two e f) (two g i)) r h in
    subst (λ y. y ≤ 9999) (ap Civil.year read)
      (digits-short a b c d (
        front (is_digit a && is_digit b && is_digit c && is_digit d) (p == b'-') (is_digit e)
          (is_digit f) (q == b'-') (is_digit g) (is_digit i) digits))
match_date-short (a ∷ b ∷ c ∷ d ∷ p ∷ e ∷ f ∷ q ∷ g ∷ i ∷ j ∷ s) r h = absurd (ground (arith, h))

parse_utc-range :
    (c : Civil) (n : ℕ)
    → parse_utc c ≡ some n
    → (c.month ≤ 12) × (1 ≤ c.month) × (c.day ≤ 31) × (1 ≤ c.day) × (days_of c ≡ n)
unfolding parse_utc
parse_utc-range c n h = ground (arith, h)

december : (y : ℕ) → month_start y 12 ≡ month_start y 11 + 31
unfolding month_start month_size
december y = refl

-- A day that runs on past its month's end stays within the year.
pub parse_utc-year : (c : Civil) (n : ℕ) → parse_utc c ≡ some n → n < year_start (suc c.year)
parse_utc-year c n h =
    let (m, m1, d, d1, at) = parse_utc-range c n h in
    let ahead =
      start-le (month_size c.year) (month_start c.year) (month_start-suc c.year) (c.month - 1) 11
        (omega (arith, m)) in
    omega (
      arith,
      opened c,
      at,
      ahead,
      d,
      d1,
      december c.year,
      twelve_months c.year,
      year_start-suc c.year,
    )
  where
    opened :
        (c : Civil) → days_of c ≡ year_start c.year + month_start c.year (c.month - 1) + (c.day - 1)
    opened c = unfold days_of in refl

pub year-bound : (y n : ℕ) (c : Civil) → n < year_start (suc y) → days_of c ≡ n → c.year ≤ y
unfolding days_of
year-bound y n c below at = elim (Bool-cases (leb c.year y)) [
  | inl fits ↦ ground (arith, fits)
  | inr later ↦ absurd (
      omega (
        arith,
        below,
        at,
        start-le year_size year_start year_start-suc (suc y) c.year (ground (arith, later)),
      ))
]
