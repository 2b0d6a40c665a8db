-- ===== src/Calendar/Instant.antt =====
-- `toISOString` and the parsing of what it writes, for the years 0 to 9999.
use titra.Common.{
  ℕ, ◌+◌, ◌-◌, ◌*◌, ◌/◌, ◌%◌, ◌≤◌, ◌<◌, ◌≡◌, refl, sym, ap, ◌∙◌, ◌&&◌, Option, none, some, [], ◌∷◌,
  ◌++◌, arith, Text, ℕ_eq, ◌==◌, leb, le→leb, if◌then◌else◌, length, length-append, take, drop,
  take-append, drop-append,
}
use titra.Revision.Decimal.{is_digit}
use titra.Calendar.Civil.{Civil, day_ms, civil_of_days, civil_of_instant, days_of, year_start}
use titra.Calendar.Days.{civil_of_days-IsValid}
use titra.Calendar.DateOnly.{two, pad_two, iso_date, day_number}
use titra.Calendar.DateOnly.Canonical.{day_number-format_date_parts}
use titra.Calendar.DateOnly.Digits.{
  IsDate, is_digit-add, pad_two-digits, format_date_parts-iso_date,
}
use titra.Calendar.DateOnly.Years.{year-bound}

abbrev three_digits : ℕ → Text
three_digits n = (48 + n / 100) ∷ (48 + n / 10 % 10) ∷ (48 + n % 10) ∷ []

-- The part of the text after the date.
unfoldable pub time_text : ℕ → Text
unfolding pad_two
time_text ms =
    b'T'
    ∷ (pad_two (ms / 3600000)
        ++ (b':'
            ∷ (pad_two (ms / 60000 % 60)
                ++ (b':'
                    ∷ (pad_two (ms / 1000 % 60)
                        ++ (b'.' ∷ (three_digits (ms % 1000) ++ (b'Z' ∷ []))))))))

unfoldable pub time_of : Text → Option ℕ
time_of (t ∷ a ∷ b ∷ c ∷ d ∷ e ∷ f ∷ g ∷ h ∷ p ∷ i ∷ j ∷ k ∷ z ∷ []) =
    if t == b'T'
      && is_digit a
      && is_digit b
      && leb (two a b) 23
      && c == b':'
      && is_digit d
      && is_digit e
      && leb (two d e) 59
      && f == b':'
      && is_digit g
      && is_digit h
      && leb (two g h) 59
      && p == b'.'
      && is_digit i
      && is_digit j
      && is_digit k
      && z == b'Z'
    then some (two a b * 3600000 + two d e * 60000 + two g h * 1000 + (i - 48) * 100 + two j k)
    else none
time_of _ = none

-- `toISOString`, for a year of four digits.
unfoldable pub iso_text : ℕ → Text
unfolding civil_of_instant iso_date time_text
iso_text t = iso_date (civil_of_instant t) ++ time_text (t % day_ms)

abbrev instant_of : Option ℕ → Option ℕ → Option ℕ
instant_of (some n) (some ms) = some (n * day_ms + ms)
instant_of _ _ = none

-- The instant of a text that `toISOString` writes; another text is no instant here.
unfoldable pub iso_parse : Text → Option ℕ
unfolding day_number time_of take drop
iso_parse s = instant_of (day_number (take 10 s)) (time_of (drop 10 s))

three-digits :
    (n : ℕ) → n < 1000 → (48 + n / 100 - 48) * 100 + two (48 + n / 10 % 10) (48 + n % 10) ≡ n
three-digits n h = omega (arith, h)

time-parts :
    (ms : ℕ)
    → ms / 3600000 * 3600000 + ms / 60000 % 60 * 60000 + ms / 1000 % 60 * 1000 + ms % 1000 ≡ ms
time-parts ms = omega arith

time_of-digits :
    (h m s f ms : ℕ)
    → h ≤ 23
    → m ≤ 59
    → s ≤ 59
    → f < 1000
    → h * 3600000 + m * 60000 + s * 1000 + f ≡ ms
    → time_of (
        b'T'
        ∷ (48 + h / 10)
        ∷ (48 + h % 10)
        ∷ b':'
        ∷ (48 + m / 10)
        ∷ (48 + m % 10)
        ∷ b':'
        ∷ (48 + s / 10)
        ∷ (48 + s % 10)
        ∷ b'.'
        ∷ (48 + f / 100)
        ∷ (48 + f / 10 % 10)
        ∷ (48 + f % 10)
        ∷ b'Z'
        ∷ [])
      ≡ some ms
unfolding time_of
time_of-digits h m s f ms p q r t sum =
    rw
      (
        is_digit-add (h / 10) (omega (arith, p)),
        is_digit-add (h % 10) (omega arith),
        is_digit-add (m / 10) (omega (arith, q)),
        is_digit-add (m % 10) (omega arith),
        is_digit-add (s / 10) (omega (arith, r)),
        is_digit-add (s % 10) (omega arith),
        is_digit-add (f / 100) (omega (arith, t)),
        is_digit-add (f / 10 % 10) (omega arith),
        is_digit-add (f % 10) (omega arith),
        le→leb (two (48 + h / 10) (48 + h % 10)) 23 (omega (arith, p)),
        le→leb (two (48 + m / 10) (48 + m % 10)) 59 (omega (arith, q)),
        le→leb (two (48 + s / 10) (48 + s % 10)) 59 (omega (arith, r)),
      )
      (ap some (omega (arith, sum, three-digits f t)))

time_of-time_text : (ms : ℕ) → ms < day_ms → time_of (time_text ms) ≡ some ms
unfolding time_text
time_of-time_text ms h =
    rw
      (
        pad_two-digits (ms / 3600000) (omega (arith, h)),
        pad_two-digits (ms / 60000 % 60) (omega arith),
        pad_two-digits (ms / 1000 % 60) (omega arith),
      )
      (time_of-digits (ms / 3600000) (ms / 60000 % 60) (ms / 1000 % 60) (ms % 1000) ms
        (omega (arith, h)) (omega arith) (omega arith) (omega arith) (time-parts ms))

length-iso_date : (c : Civil) → IsDate c → length (iso_date c) ≡ 10
unfolding iso_date
length-iso_date c d = rw (le→leb c.year 9999 d.short_year) refl

day_number-iso_date : (c : Civil) → IsDate c → day_number (iso_date c) ≡ some (days_of c)
day_number-iso_date c d =
    ap day_number (sym (format_date_parts-iso_date c d)) ∙ day_number-format_date_parts c d

-- The years 0 to 9999.
abbrev pub last_instant : ℕ
last_instant = 3652425 * day_ms - 1

IsDate-instant : (t : ℕ) → t ≤ last_instant → IsDate (civil_of_days (t / day_ms))
IsDate-instant t h =
    let (valid, at) = civil_of_days-IsValid (t / day_ms) in
    record {
      valid = valid;
      short_year = year-bound 9999 (t / day_ms) (civil_of_days (t / day_ms)) (ends t h) at;
    }
  where
    ends : (t : ℕ) → t ≤ last_instant → t / day_ms < year_start 10000
    ends t h = unfold year_start in (omega (arith, h))

iso_parse-parts :
    {d r : Text} {n ms : ℕ}
    → (s : Text) → take 10 s ≡ d
    → drop 10 s ≡ r
    → day_number d ≡ some n
    → time_of r ≡ some ms
    → iso_parse s ≡ some (n * day_ms + ms)
unfolding iso_parse
iso_parse-parts {n = n} s date rest day time =
    ap (λ x. instant_of (day_number x) (time_of (drop 10 s))) date
    ∙ ap (λ x. instant_of x (time_of (drop 10 s))) day
    ∙ ap (λ x. instant_of (some n) (time_of x)) rest
    ∙ ap (λ x. instant_of (some n) x) time

-- An instant is read from the text that it is written as.
pub iso_parse-iso_text : (t : ℕ) → t ≤ last_instant → iso_parse (iso_text t) ≡ some t
unfolding iso_text civil_of_instant
iso_parse-iso_text t h =
    let c = civil_of_days (t / day_ms) in
    let d = IsDate-instant t h in
    let (valid, at) = civil_of_days-IsValid (t / day_ms) in
    let size = length-iso_date c d in
    iso_parse-parts (iso_date c ++ time_text (t % day_ms))
      (take-append 10 (iso_date c) (time_text (t % day_ms)) size)
      (drop-append 10 (iso_date c) (time_text (t % day_ms)) size) (day_number-iso_date c d)
      (time_of-time_text (t % day_ms) (omega arith))
    ∙ ap some (omega (arith, at))

length-time_text : (ms : ℕ) → ms < day_ms → length (time_text ms) ≡ 14
unfolding time_text
length-time_text ms h =
    rw
      (
        pad_two-digits (ms / 3600000) (omega (arith, h)),
        pad_two-digits (ms / 60000 % 60) (omega arith),
        pad_two-digits (ms / 1000 % 60) (omega arith),
      )
      refl

pub length-iso_text : (t : ℕ) → t ≤ last_instant → length (iso_text t) ≡ 24
unfolding iso_text civil_of_instant
length-iso_text t h = omega (
  arith,
  length-append (iso_date (civil_of_days (t / day_ms))) (time_text (t % day_ms)),
  length-iso_date (civil_of_days (t / day_ms)) (IsDate-instant t h),
  length-time_text (t % day_ms) (omega arith),
)
