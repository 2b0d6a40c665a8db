-- ===== src/Calendar/Tests.antt =====
-- Some dates and an entry that ends after midnight, and the theorems at them.
use titra.Common.{
  ℕ, ◌*◌, ◌%◌, ◌≡◌, ◌↔◌, refl, true, false, some, Text, codes, beq_list, is_before, ltb, ◌+◌,
}
use titra.Calendar.Civil.{day_ms, civil_of_days}
use titra.Calendar.DateOnly.{
  is_date_only, parse_utc, iso_date, day_number, date_only_to_utc, date_only_from_utc,
}
use titra.Calendar.DateOnly.Canonical.{IsCanonical, is_date_only-IsCanonical}
use titra.Calendar.DateOnly.RoundTrip.{date_only_from_utc-to_utc}
use titra.Calendar.DateOnly.Order.{is_before-day_number}
use titra.Calendar.Time.{
  Dated, is_start_time, get_timecard_start_time, get_timecard_end_time, start_minutes,
  minutes_in_day,
}
use titra.Calendar.Time.End.{forward, back, get_timecard_end_time-moves}

abbrev leap_day : Text
leap_day = codes "2024-02-29"

abbrev last_day : Text
last_day = codes "2023-12-31"

leap_day_number : day_number leap_day ≡ some 739_310
unfolding day_number beq_list parse_utc iso_date civil_of_days
leap_day_number = refl

last_day_number : day_number last_day ≡ some 739_250
unfolding day_number beq_list parse_utc iso_date civil_of_days
last_day_number = refl

leap_day_time : date_only_to_utc leap_day ≡ some (739_310 * day_ms)
unfolding date_only_to_utc beq_list parse_utc iso_date civil_of_days
leap_day_time = refl

no_leap_day : is_date_only (codes "2023-02-29") ≡ false
unfolding is_date_only beq_list parse_utc iso_date civil_of_days
no_leap_day = refl

no_short_month : is_date_only (codes "2024-2-29") ≡ false
unfolding is_date_only beq_list parse_utc iso_date civil_of_days
no_short_month = refl

abbrev evening : Dated
evening = record {
  date = some (739_310 * day_ms);
  date_only = some leap_day;
  start_time = some (codes "21:30");
  hours = some (record { negative = false; size = 7; scale = 2 });
}

abbrev clock : ℕ → ℕ × ℕ
clock t = (0, 0)

evening_start : get_timecard_start_time clock evening ≡ some (codes "21:30")
unfolding get_timecard_start_time
evening_start = refl

evening_end : get_timecard_end_time clock evening ≡ some (codes "01:00")
unfolding get_timecard_end_time
evening_end = refl

is_date_only-IsCanonical_example : (is_date_only leap_day ≡ true) ↔ IsCanonical leap_day
is_date_only-IsCanonical_example = is_date_only-IsCanonical leap_day

date_only_from_utc-to_utc_example :
    (date_only_from_utc (739_310 * day_ms) ≡ leap_day) × (739_310 * day_ms % day_ms ≡ 0)
date_only_from_utc-to_utc_example =
    date_only_from_utc-to_utc leap_day (739_310 * day_ms) leap_day_time

is_before-day_number_example : is_before last_day leap_day ≡ ltb 739_250 739_310
is_before-day_number_example =
    is_before-day_number last_day leap_day 739_250 739_310 last_day_number leap_day_number

get_timecard_end_time-moves_example :
    (end : Text) × (get_timecard_end_time clock evening ≡ some end)
    × (is_start_time end ≡ true)
    × ((start_minutes end + back (record { negative = false; size = 7; scale = 2 }))
          % minutes_in_day
        ≡ (start_minutes (codes "21:30")
            + forward (record { negative = false; size = 7; scale = 2 }))
          % minutes_in_day)
get_timecard_end_time-moves_example =
    get_timecard_end_time-moves clock evening (codes "21:30")
      (record { negative = false; size = 7; scale = 2 }) evening_start refl
