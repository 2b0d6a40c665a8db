-- ===== src/Calendar/DateOnly/Digits.antt =====
-- The digits of a date, as `formatDateParts` and `toISOString` write them and `isDateOnly` reads them.
use titra.Common.{
  ℕ, ◌+◌, ◌-◌, ◌/◌, ◌%◌, ◌≤◌, ◌≡◌, refl, ap, true, some, [], ◌∷◌, arith, List_eq, ℕ_eq, le→leb,
}
use titra.Revision.Decimal.{is_digit}
use titra.Calendar.Civil.{Civil, civil, month_size}
use titra.Calendar.Days.{IsValid}
use titra.Calendar.DateOnly.{pad_two, pad_four, format_date_parts, iso_date, two, four, match_date}

pub month_size-le : (y m : ℕ) → month_size y m ≤ 31
unfolding month_size
month_size-le y m = ground arith

-- A date whose canonical form has four digits for the year.
pub record IsDate (c : Civil) : Type 0 where
  pub valid : IsValid c
  pub short_year : c.year ≤ 9999

pub is_digit-add : (k : ℕ) → k ≤ 9 → is_digit (48 + k) ≡ true
is_digit-add k h = ground (arith, h)

pub pad_two-digits : (n : ℕ) → n ≤ 99 → pad_two n ≡ (48 + n / 10) ∷ (48 + n % 10) ∷ []
unfolding pad_two
pad_two-digits n h = ground (arith, h)

pub pad_four-digits :
    (n : ℕ)
    → n ≤ 9999
    → pad_four n ≡ (48 + n / 1000) ∷ (48 + n / 100 % 10) ∷ (48 + n / 10 % 10) ∷ (48 + n % 10) ∷ []
unfolding pad_four
pad_four-digits n h = ground (arith, h)

pub two-digits : (n : ℕ) → two (48 + n / 10) (48 + n % 10) ≡ n
two-digits n = omega arith

four-digits :
    (n : ℕ) → four (48 + n / 1000) (48 + n / 100 % 10) (48 + n / 10 % 10) (48 + n % 10) ≡ n
four-digits n = omega arith

pub IsDate-small : (c : Civil) → IsDate c → (c.month ≤ 99) × (c.day ≤ 99)
IsDate-small c d = (
  omega (arith, d.valid.month_to),
  omega (arith, d.valid.day_to, month_size-le c.year (c.month - 1)),
)

civil-eq : {a b c d e f : ℕ} → a ≡ d → b ≡ e → c ≡ f → civil a b c ≡ civil d e f
civil-eq p q r = rw (p, q, r) refl

-- `formatDateParts` and `toISOString` write a date alike.
pub format_date_parts-iso_date : (c : Civil) → IsDate c → format_date_parts c ≡ iso_date c
unfolding format_date_parts iso_date
format_date_parts-iso_date c d =
    let (small_month, small_day) = IsDate-small c d in
    rw
      (
        pad_four-digits c.year d.short_year,
        pad_two-digits c.month small_month,
        pad_two-digits c.day small_day,
        le→leb c.year 9999 d.short_year,
      )
      refl

-- The canonical form is read as the date.
pub match_date-format_date_parts :
    (c : Civil) → IsDate c → match_date (format_date_parts c) ≡ some c
unfolding match_date format_date_parts
match_date-format_date_parts c d =
    let (small_month, small_day) = IsDate-small c d in
    rw
      (
        pad_four-digits c.year d.short_year,
        pad_two-digits c.month small_month,
        pad_two-digits c.day small_day,
        is_digit-add (c.year / 1000) (omega (arith, d.short_year)),
        is_digit-add (c.year / 100 % 10) (omega arith),
        is_digit-add (c.year / 10 % 10) (omega arith),
        is_digit-add (c.year % 10) (omega arith),
        is_digit-add (c.month / 10) (omega (arith, small_month)),
        is_digit-add (c.month % 10) (omega arith),
        is_digit-add (c.day / 10) (omega (arith, small_day)),
        is_digit-add (c.day % 10) (omega arith),
      )
      (ap some (civil-eq (four-digits c.year) (two-digits c.month) (two-digits c.day)))
