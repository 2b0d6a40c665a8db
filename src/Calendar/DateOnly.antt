-- ===== src/Calendar/DateOnly.antt =====
-- Dates as texts: `isDateOnly`, `dateOnlyToUTCDate`, `dateOnlyFromUTCDate`, `formatDateParts` and
-- `dateOnlyRange`. The date that `toISOString` writes is a definition of its own, as it is a function
-- of its own in the source.
pub mod Digits
pub mod Years
pub mod Canonical
pub mod RoundTrip
pub mod Order
use titra.Common.{
  ℕ, zero, suc, ◌+◌, ◌-◌, ◌*◌, ◌/◌, ◌%◌, Bool, true, false, not, ◌&&◌, ◌||◌, Option, none, some, [],
  ◌∷◌, ◌++◌, Text, List_eq, ℕ_eq, ◌==◌, leb, ltb, if◌then◌else◌,
}
use titra.Revision.Decimal.{decimal, is_digit}
use titra.Calendar.Civil.{Civil, civil, day_ms, days_of, civil_of_days, civil_of_instant}

-- `String(n).padStart(2, '0')` and `String(n).padStart(4, '0')`.
unfoldable pub pad_two : ℕ → Text
unfolding decimal
pad_two n = if leb n 99 then (48 + n / 10) ∷ (48 + n % 10) ∷ [] else decimal n

unfoldable pub pad_four : ℕ → Text
unfolding decimal
pad_four n =
    if leb n 9999
    then (48 + n / 1000) ∷ (48 + n / 100 % 10) ∷ (48 + n / 10 % 10) ∷ (48 + n % 10) ∷ []
    else decimal n

-- `formatDateParts`
unfoldable pub format_date_parts : Civil → Text
unfolding pad_four pad_two
format_date_parts c = pad_four c.year ++ (b'-' ∷ (pad_two c.month ++ (b'-' ∷ pad_two c.day)))

-- The first ten characters of `toISOString()`: a year after 9999 is written with a sign and six
-- digits.
unfoldable pub iso_date : Civil → Text
iso_date c =
    if leb c.year 9999
    then (48 + c.year / 1000)
      ∷ (48 + c.year / 100 % 10)
      ∷ (48 + c.year / 10 % 10)
      ∷ (48 + c.year % 10)
      ∷ b'-'
      ∷ (48 + c.month / 10)
      ∷ (48 + c.month % 10)
      ∷ b'-'
      ∷ (48 + c.day / 10)
      ∷ (48 + c.day % 10)
      ∷ []
    else b'+'
      ∷ (48 + c.year / 100000)
      ∷ (48 + c.year / 10000 % 10)
      ∷ (48 + c.year / 1000 % 10)
      ∷ (48 + c.year / 100 % 10)
      ∷ (48 + c.year / 10 % 10)
      ∷ (48 + c.year % 10)
      ∷ b'-'
      ∷ (48 + c.month / 10)
      ∷ (48 + c.month % 10)
      ∷ []

abbrev pub two : ℕ → ℕ → ℕ
two a b = (a - 48) * 10 + (b - 48)

abbrev pub four : ℕ → ℕ → ℕ → ℕ → ℕ
four a b c d = two a b * 100 + two c d

-- `/^\d{4}-\d{2}-\d{2}$/`, with the numbers that it reads.
unfoldable pub match_date : Text → Option Civil
match_date (a ∷ b ∷ c ∷ d ∷ p ∷ e ∷ f ∷ q ∷ g ∷ h ∷ []) =
    if is_digit a
      && is_digit b
      && is_digit c
      && is_digit d
      && p == b'-'
      && is_digit e
      && is_digit f
      && q == b'-'
      && is_digit g
      && is_digit h
    then some (civil (four a b c d) (two e f) (two g h))
    else none
match_date _ = none

-- `new Date(value + 'T00:00:00.000Z')` of such a text as a day number, `none` where it is invalid. A
-- day up to 31 runs on into the next month.
unfoldable pub parse_utc : Civil → Option ℕ
unfolding days_of
parse_utc c =
    if leb 1 c.month && leb c.month 12 && leb 1 c.day && leb c.day 31
    then some (days_of c)
    else none

abbrev pub if_written : Text → Option ℕ → Option ℕ
if_written s none = none
if_written s (some n) = if iso_date (civil_of_days n) == s then some n else none

abbrev pub read_day : Text → Option Civil → Option ℕ
read_day s none = none
read_day s (some c) = if_written s (parse_utc c)

-- The day number of a calendar date in canonical form: it is written again as it was.
unfoldable pub day_number : Text → Option ℕ
unfolding match_date
day_number s = read_day s (match_date s)

unfoldable pub is_date_only : Text → Bool
unfolding day_number
is_date_only s = elim (day_number s) [ none ↦ false | some _ ↦ true ]

-- `dateOnlyToUTCDate`, which throws a TypeError on another text.
unfoldable pub date_only_to_utc : Text → Option ℕ
unfolding day_number
date_only_to_utc s = elim (day_number s) [ none ↦ none | some n ↦ some (n * day_ms) ]

-- `dateOnlyFromUTCDate` of a valid Date.
unfoldable pub date_only_from_utc : ℕ → Text
unfolding civil_of_instant format_date_parts
date_only_from_utc t = format_date_parts (civil_of_instant t)

pub record Range : Type 0 where
  pub start_date : ℕ
  pub end_date : ℕ

-- The end is one millisecond before the day after.
abbrev pub range_of : Option ℕ → Option ℕ → Option Range
range_of (some from) (some to) =
    if ltb to from then none else some (record { start_date = from; end_date = to + day_ms - 1 })
range_of _ _ = none

-- `dateOnlyRange`
unfoldable pub date_only_range : Text → Text → Option Range
unfolding date_only_to_utc
date_only_range from to = range_of (date_only_to_utc from) (date_only_to_utc to)
