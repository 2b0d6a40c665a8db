-- ===== src/Calendar/DateOnly/Canonical.antt =====
-- A text is accepted as a date exactly if it is the canonical form of a date of the calendar.
use titra.Common.{
  ℕ, ◌-◌, ◌≡◌, ◌↔◌, refl, sym, ap, ◌∙◌, subst, inl, inr, true, Option, none, some, arith, Text,
  List_eq, ℕ_eq, ◌==◌, ==→≡, ==_self, if-eq-some, Option-cases,
}
use titra.Calendar.Civil.{Civil, days_of, civil_of_days}
use titra.Calendar.Days.{civil_of_days-days_of, civil_of_days-IsValid}
use titra.Calendar.DateOnly.{
  format_date_parts, iso_date, match_date, parse_utc, day_number, is_date_only, if_written,
  read_day,
}
use titra.Calendar.DateOnly.Digits.{
  month_size-le, IsDate, format_date_parts-iso_date, match_date-format_date_parts,
}
use titra.Calendar.DateOnly.Years.{match_date-short, parse_utc-year, year-bound}

parse_utc-days_of : (c : Civil) → IsDate c → parse_utc c ≡ some (days_of c)
unfolding parse_utc
parse_utc-days_of c d = ground (
  arith,
  d.valid.month_from,
  d.valid.month_to,
  d.valid.day_from,
  d.valid.day_to,
  month_size-le c.year (c.month - 1),
)

canonical-day_number :
    {c : Civil}
    → (s : Text) → match_date s ≡ some c
    → parse_utc c ≡ some (days_of c)
    → iso_date (civil_of_days (days_of c)) ≡ s
    → day_number s ≡ some (days_of c)
unfolding day_number days_of
canonical-day_number {c = c} s matched parsed written =
    rw (day_number, matched, parsed, written, ==_self s) refl

-- A date of the calendar has the day number of its canonical form.
pub day_number-format_date_parts :
    (c : Civil) → IsDate c → day_number (format_date_parts c) ≡ some (days_of c)
day_number-format_date_parts c d =
    canonical-day_number (format_date_parts c) (match_date-format_date_parts c d)
      (parse_utc-days_of c d)
      (ap iso_date (civil_of_days-days_of c d.valid) ∙ sym (format_date_parts-iso_date c d))

-- What a text with a day number was read from.
record Read (s : Text) (n : ℕ) : Type 0 where
  source : Civil
  matched : match_date s ≡ some source
  parsed : parse_utc source ≡ some n
  written : iso_date (civil_of_days n) ≡ s

day_number-Read : (s : Text) (n : ℕ) → day_number s ≡ some n → Read s n
unfolding day_number
day_number-Read s n h = from (match_date s) refl h
  where
    same : (k : ℕ) → if_written s (some k) ≡ some n → (k ≡ n) × (iso_date (civil_of_days k) ≡ s)
    same k h =
        let (matches, at) = if-eq-some (iso_date (civil_of_days k) == s) k n h in
        (at, ==→≡ (iso_date (civil_of_days k)) s matches)

    parsed_from :
        (c : Civil) (m : Option ℕ)
        → match_date s ≡ some c
        → parse_utc c ≡ m
        → if_written s m ≡ some n
        → Read s n
    parsed_from c none e p h = absurd (ground (arith, h))
    parsed_from c (some k) e p h =
        let (at, w) = same k h in
        record {
          source = c;
          matched = e;
          parsed = p ∙ ap some at;
          written = subst (λ x. iso_date (civil_of_days x) ≡ s) at w;
        }

    from : (m : Option Civil) → match_date s ≡ m → read_day s m ≡ some n → Read s n
    from none e h = absurd (ground (arith, h))
    from (some c) e h = parsed_from c (parse_utc c) e refl h

-- A text that is the canonical form of a date.
pub record IsCanonical (s : Text) : Type 0 where
  pub date : Civil
  pub is_date : IsDate date
  pub written : format_date_parts date ≡ s

-- The date of a day number that a text has.
pub day_number-IsDate : (s : Text) (n : ℕ) → day_number s ≡ some n → IsDate (civil_of_days n)
day_number-IsDate s n h =
    let r = day_number-Read s n h in
    let (valid, at) = civil_of_days-IsValid n in
    let below = parse_utc-year r.source n r.parsed in
    record {
      valid = valid;
      short_year = omega (
        arith,
        match_date-short s r.source r.matched,
        year-bound r.source.year n (civil_of_days n) below at,
      );
    }

pub day_number-written :
    (s : Text) (n : ℕ) → day_number s ≡ some n → format_date_parts (civil_of_days n) ≡ s
day_number-written s n h =
    format_date_parts-iso_date (civil_of_days n) (day_number-IsDate s n h)
    ∙ (day_number-Read s n h).written

-- The texts with a day number are the canonical forms, and the number is the date's.
pub day_number-IsCanonical :
    (s : Text) (n : ℕ) → day_number s ≡ some n → (c : IsCanonical s) × (days_of c.date ≡ n)
day_number-IsCanonical s n h = (
  record {
    date = civil_of_days n;
    is_date = day_number-IsDate s n h;
    written = day_number-written s n h;
  },
  (civil_of_days-IsValid n).1,
)

is_date_only-some : (s : Text) (n : ℕ) → day_number s ≡ some n → is_date_only s ≡ true
unfolding is_date_only
is_date_only-some s n h = rw (is_date_only, h) refl

is_date_only-number : (s : Text) → is_date_only s ≡ true → (n : ℕ) × (day_number s ≡ some n)
unfolding is_date_only
is_date_only-number s h = elim (Option-cases (day_number s)) [
  | inl absent ↦ absurd (ground (arith, absent, h))
  | inr (n, e) ↦ (n, e)
]

-- `isDateOnly` accepts a text exactly if it is the canonical form, with a year of four digits, of a
-- date of the Gregorian calendar.
pub is_date_only-IsCanonical : (s : Text) → (is_date_only s ≡ true) ↔ IsCanonical s
is_date_only-IsCanonical s = (
  λ h. let (n, e) = is_date_only-number s h in (day_number-IsCanonical s n e).0,
  λ c.
      subst (λ t. is_date_only t ≡ true) c.written
        (is_date_only-some (format_date_parts c.date) (days_of c.date)
          (day_number-format_date_parts c.date c.is_date)),
)
