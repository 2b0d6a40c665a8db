-- ===== src/Calendar/Time/End.antt =====
-- When an entry ends: `getTimecardEndTime` gives a time of day, the start moved by the hours.
use titra.Common.{ℕ, ◌+◌, ◌*◌, ◌/◌, ◌%◌, ◌<◌, ◌≡◌, refl, true, some, arith, Text, if◌then◌else◌}
use titra.Calendar.DateOnly.Digits.{pad_two-digits}
use titra.Calendar.Time.{
  is_start_time, Hours, Dated, clock_text, rounded_up, rounded_down, end_minutes, start_minutes,
  end_text, minutes_in_day, get_timecard_start_time, get_timecard_end_time,
}

-- The whole minutes by which the hours move the clock forward, and back.
abbrev pub forward : Hours → ℕ
forward h = if h.negative then 0 else rounded_up h.size h.scale

abbrev pub back : Hours → ℕ
back h = if h.negative then rounded_down h.size h.scale else 0

end_minutes-IsMinute : (start : ℕ) (h : Hours) → end_minutes start h < minutes_in_day
unfolding end_minutes
end_minutes-IsMinute start h = ground arith

end_minutes-moves :
    (start : ℕ) (h : Hours)
    → (end_minutes start h + back h) % minutes_in_day ≡ (start + forward h) % minutes_in_day
unfolding end_minutes
end_minutes-moves start h = ground arith

clock_text-is_start_time : (h m : ℕ) → h < 24 → m < 60 → is_start_time (clock_text h m) ≡ true
unfolding is_start_time
clock_text-is_start_time h m p q =
    rw (pad_two-digits h (omega (arith, p)), pad_two-digits m (omega (arith, q)))
      (ground (arith, p, q))

start_minutes-clock_text : (h m : ℕ) → h < 24 → m < 60 → start_minutes (clock_text h m) ≡ h * 60 + m
unfolding start_minutes
start_minutes-clock_text h m p q =
    rw (pad_two-digits h (omega (arith, p)), pad_two-digits m (omega (arith, q)))
      (omega (arith, p, q))

-- An entry with a start time and a number of hours has an end time. It is a time of day in the form
-- HH:mm, and it is the start moved forward or back by the hours, rounded to minutes, on a clock of
-- 24 hours.
pub get_timecard_end_time-moves :
    (clock : ℕ → ℕ × ℕ) (entry : Dated) (start : Text) (h : Hours)
    → get_timecard_start_time clock entry ≡ some start
    → entry.hours ≡ some h
    → (end : Text) × (get_timecard_end_time clock entry ≡ some end)
      × (is_start_time end ≡ true)
      × ((start_minutes end + back h) % minutes_in_day
          ≡ (start_minutes start + forward h) % minutes_in_day)
unfolding get_timecard_end_time
get_timecard_end_time-moves clock entry start h begins lasts =
    let m = end_minutes (start_minutes start) h in
    let below = end_minutes-IsMinute (start_minutes start) h in
    (
      end_text m,
      rw (get_timecard_end_time, begins, lasts) refl,
      clock_text-is_start_time (m / 60) (m % 60) (omega (arith, below)) (omega arith),
      omega (
        arith,
        start_minutes-clock_text (m / 60) (m % 60) (omega (arith, below)) (omega arith),
        end_minutes-moves (start_minutes start) h,
      ),
    )
