-- ===== src/Calendar/Time.antt =====
-- The time of day of a time entry: `isStartTime`, `buildTimecardDateFields`, `getTimecardDateOnly`,
-- `getTimecardStartTime` and `getTimecardEndTime`.
pub mod End
use titra.Common.{
  ℕ, ◌+◌, ◌-◌, ◌*◌, ◌/◌, ◌%◌, Bool, true, false, not, ◌&&◌, ◌||◌, Option, none, some, [], ◌∷◌, ◌++◌,
  Text, ℕ_eq, ◌==◌, leb, if◌then◌else◌, Result, ok, throw, throw_if, ◌>>=◌, ◌>>◌,
}
use titra.Revision.Decimal.{is_digit}
use titra.Calendar.DateOnly.{two, pad_two, is_date_only, date_only_to_utc, date_only_from_utc}

-- `startTimePattern`
unfoldable pub is_start_time : Text → Bool
is_start_time (a ∷ b ∷ c ∷ d ∷ e ∷ []) =
    ((a == b'0' || a == b'1') && is_digit b || a == b'2' && leb b'0' b && leb b b'3')
    && c == b':'
    && leb b'0' d
    && leb d b'5'
    && is_digit e
is_start_time _ = false

pub data DateError : Type 0 where
  bad_date_only : DateError
  bad_start_time : DateError
  start_time_alone : DateError

-- The fields of a time entry that date it. An absent field and a null are one.
pub record DateFields : Type 0 where
  pub date : ℕ
  pub date_only : Option Text
  pub start_time : Option Text

abbrev pub given : (Text → Bool) → Option Text → Bool
given test none = true
given test (some s) = test s

abbrev pub is_absent : Option Text → Bool
is_absent none = true
is_absent (some _) = false

abbrev pub utc_or : ℕ → Option Text → ℕ
utc_or date none = date
utc_or date (some s) = elim (date_only_to_utc s) [ none ↦ date | some t ↦ t ]

-- `buildTimecardDateFields`; the time of a text that passed `isDateOnly` is never absent.
unfoldable pub build_timecard_date_fields :
    ℕ → Option Text → Option Text → Result DateError DateFields
unfolding date_only_to_utc is_date_only is_start_time
build_timecard_date_fields date date_only start_time =
    throw_if (not (given is_date_only date_only)) bad_date_only
    >> throw_if (not (given is_start_time start_time)) bad_start_time
    >> throw_if (not (is_absent start_time) && is_absent date_only) start_time_alone
    >> ok (record { date = utc_or date date_only; date_only = date_only; start_time = start_time })

-- A finite number of hours: `size / scale`, below 0 where `negative`.
pub record Hours : Type 0 where
  pub negative : Bool
  pub size : ℕ
  pub scale : ℕ

-- A stored time entry. `hours` is absent where `Number` gives no finite number.
pub record Dated : Type 0 where
  pub date : Option ℕ
  pub date_only : Option Text
  pub start_time : Option Text
  pub hours : Option Hours

abbrev pub holds : (Text → Bool) → Option Text → Bool
holds test none = false
holds test (some s) = test s

-- `getTimecardDateOnly`, which throws where there is no date either.
unfoldable pub get_timecard_date_only : Dated → Option Text
unfolding is_date_only date_only_from_utc
get_timecard_date_only entry =
    if holds is_date_only entry.date_only
    then entry.date_only
    else elim (entry.date) [ none ↦ none | some t ↦ some (date_only_from_utc t) ]

abbrev pub clock_text : ℕ → ℕ → Text
clock_text h m = pad_two h ++ (b':' ∷ pad_two m)

-- `getTimecardStartTime`. `local` is `getHours` and `getMinutes` in the time zone of the process.
unfoldable pub get_timecard_start_time : (ℕ → ℕ × ℕ) → Dated → Option Text
unfolding is_date_only is_start_time pad_two
get_timecard_start_time clock entry =
    if holds is_start_time entry.start_time
    then entry.start_time
    else if holds is_date_only entry.date_only
    then none
    else elim (entry.date) [ none ↦ none | some t ↦ some (clock_text (clock t).0 (clock t).1) ]

abbrev pub minutes_in_day : ℕ
minutes_in_day = 24 * 60

-- `Math.round(hours * 60)` of a non-negative and of a negative number of hours, as its size; halves
-- are rounded up.
abbrev pub rounded_up : ℕ → ℕ → ℕ
rounded_up size scale = (120 * size + scale) / (2 * scale)

abbrev pub rounded_down : ℕ → ℕ → ℕ
rounded_down size scale = (120 * size + scale - 1) / (2 * scale)

-- `((rawEndMinutes % minutesInDay) + minutesInDay) % minutesInDay`. A remainder has its dividend's
-- sign.
unfoldable pub end_minutes : ℕ → Hours → ℕ
end_minutes start hours =
    let back = rounded_down hours.size hours.scale in
    if not hours.negative
    then ((start + rounded_up hours.size hours.scale) % minutes_in_day + minutes_in_day)
      % minutes_in_day
    else if leb back start
    then ((start - back) % minutes_in_day + minutes_in_day) % minutes_in_day
    else (minutes_in_day - (back - start) % minutes_in_day) % minutes_in_day

-- `startHour * 60 + startMinute` of a text `HH:mm`.
unfoldable pub start_minutes : Text → ℕ
start_minutes (a ∷ b ∷ c ∷ d ∷ e ∷ []) = two a b * 60 + two d e
start_minutes _ = 0

abbrev pub end_text : ℕ → Text
end_text minutes = clock_text (minutes / 60) (minutes % 60)

-- `getTimecardEndTime`
unfoldable pub get_timecard_end_time : (ℕ → ℕ × ℕ) → Dated → Option Text
unfolding get_timecard_start_time end_minutes start_minutes pad_two
get_timecard_end_time clock entry = elim (get_timecard_start_time clock entry) [
  | none ↦ none
  | some start ↦ elim (entry.hours) [
    | none ↦ none
    | some hours ↦ some (end_text (end_minutes (start_minutes start) hours))
  ]
]
