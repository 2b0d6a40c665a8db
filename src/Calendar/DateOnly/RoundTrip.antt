-- ===== src/Calendar/DateOnly/RoundTrip.antt =====
-- The time of a date and the date of a time.
use titra.Common.{ℕ, ◌*◌, ◌/◌, ◌%◌, ◌≡◌, ap, ◌∙◌, inl, inr, some, arith, Text, Option-cases}
use titra.Calendar.Civil.{day_ms, civil_of_days, civil_of_instant}
use titra.Calendar.DateOnly.{format_date_parts, day_number, date_only_to_utc, date_only_from_utc}
use titra.Calendar.DateOnly.Canonical.{day_number-written}

-- The time of a date, written as a date by `dateOnlyFromUTCDate`, gives the text that `isDateOnly`
-- accepted by the date that `toISOString` writes; the time is midnight.
pub date_only_from_utc-to_utc :
    (s : Text) (t : ℕ) → date_only_to_utc s ≡ some t → (date_only_from_utc t ≡ s) × (t % day_ms ≡ 0)
unfolding date_only_to_utc date_only_from_utc civil_of_instant
date_only_from_utc-to_utc s t h = elim (Option-cases (day_number s)) [
  | inl absent ↦ absurd (ground (arith, absent, h))
  | inr (n, e) ↦
      let at : n * day_ms ≡ t = ground (arith, e, h) in
      let day : t / day_ms ≡ n = omega (arith, at) in
      (
        ap (λ k. format_date_parts (civil_of_days k)) day ∙ day_number-written s n e,
        omega (arith, at),
      )
]
