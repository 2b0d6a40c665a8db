-- ===== src/Pagination/Bounds.antt =====
-- The bounds of reads: the days of a range and the documents of an unpaged list.
use titra.Common.{
  ℕ, suc, ◌+◌, ◌-◌, ◌*◌, ◌/◌, ◌≤◌, ◌<◌, ◌≡◌, refl, sym, ap, subst, ◌∙◌, Bool, true, false, Option,
  none, some, List, arith, Text, ltb, if◌then◌else◌, take, take_all, length, length-take_full, inl,
  inr, Bool-cases, lt-cases, ok, throw, throw_if, ◌>>◌,
}
use mathlib.Core.Option.{some-injective}
use titra.Calendar.Civil.{day_ms}
use titra.Calendar.DateOnly.{Range, range_of, day_number, date_only_to_utc, date_only_range}
use titra.Pagination.{PageError, date_range_too_large, legacy_result_too_large, is_bad_limit}
use titra.Pagination.Page.{assert_date_range_limit, fetch_bounded_legacy_list}

date_only_to_utc-number :
    {n : ℕ} (s : Text) → day_number s ≡ some n → date_only_to_utc s ≡ some (n * day_ms)
unfolding date_only_to_utc
date_only_to_utc-number s h = rw (date_only_to_utc, h) refl

range_of-some :
    (from to : ℕ) (range : Range)
    → range_of (some from) (some to) ≡ some range
    → (from ≤ to) × (from ≡ range.start_date) × (to + day_ms - 1 ≡ range.end_date)
range_of-some from to range made = elim (Bool-cases (ltb to from)) [
  | inl reversed ↦ absurd (none≢ (subst (λ b. guarded b ≡ some range) reversed made))
  | inr ordered ↦
      let at = some-injective (ends) range (subst (λ b. guarded b ≡ some range) ordered made) in
      (ground (arith, ordered), ap Range.start_date at, ap Range.end_date at)
]
  where
    ends : Range
    ends = record { start_date = from; end_date = to + day_ms - 1 }

    guarded : Bool → Option Range
    guarded b = if b then none else some ends

    none≢ : none ≡ some range → ⊥
    none≢ h = ground (arith, h)

-- The range of two dates, and its number of days.
range-parts :
    (from to : Text) (m n : ℕ) (range : Range)
    → day_number from ≡ some m
    → day_number to ≡ some n
    → date_only_range from to ≡ some range
    → (m ≤ n) × (m * day_ms ≡ range.start_date) × (n * day_ms + day_ms - 1 ≡ range.end_date)
unfolding date_only_range
range-parts from to m n range h k made =
    let (ordered, start, end) = range_of-some (m * day_ms) (n * day_ms) range (
      sym (
        ap (λ x. range_of x (date_only_to_utc to)) (date_only_to_utc-number from h)
        ∙ ap (range_of (some (m * day_ms))) (date_only_to_utc-number to k))
      ∙ made) in
    (omega (arith, ordered), start, end)

either : (b : Bool) (e : PageError) (n : ℕ) → (throw_if b e >> ok n) ≡ (if b then throw e else ok n)
either true e n = refl
either false e n = refl

-- The range of the dates `from` to `to` has as many days as the calendar has from the one to the
-- other, both counted. It is let through exactly if they are not more than the limit.
pub assert_date_range_limit-days :
    (from to : Text) (m n : ℕ) (range : Range) (max_days : ℕ)
    → day_number from ≡ some m
    → day_number to ≡ some n
    → date_only_range from to ≡ some range
    → is_bad_limit max_days ≡ false
    → assert_date_range_limit range max_days
      ≡ (if ltb max_days (n - m + 1) then throw date_range_too_large else ok (n - m + 1))
unfolding assert_date_range_limit
assert_date_range_limit-days from to m n range max_days h k made good =
    let (ordered, start, end) = range-parts from to m n range h k made in
    rw (assert_date_range_limit, good, in_order ordered start end, days ordered start end)
      (either (ltb max_days (n - m + 1)) date_range_too_large (n - m + 1))
  where
    in_order :
        m ≤ n
        → m * day_ms ≡ range.start_date
        → n * day_ms + day_ms - 1 ≡ range.end_date
        → ltb range.end_date range.start_date ≡ false
    in_order ordered start end = ground (arith, ordered, start, end)

    days :
        m ≤ n
        → m * day_ms ≡ range.start_date
        → n * day_ms + day_ms - 1 ≡ range.end_date
        → (range.end_date - range.start_date) / day_ms + 1 ≡ n - m + 1
    days ordered start end = omega (arith, ordered, start, end)

-- A list without pages is returned as a whole or refused, never cut. `find n` gives the first `n` of
-- the documents.
pub fetch_bounded_legacy_list-whole :
    {Doc : Type 0} (docs : List Doc) (max_limit : ℕ)
    → is_bad_limit max_limit ≡ false
    → fetch_bounded_legacy_list (λ n. take n docs) max_limit
      ≡ (if ltb max_limit (length docs) then throw legacy_result_too_large else ok docs)
unfolding fetch_bounded_legacy_list
fetch_bounded_legacy_list-whole docs max_limit good = elim (lt-cases max_limit (length docs)) [
  | inl more ↦
      rw
        (
          fetch_bounded_legacy_list,
          good,
          length-take_full (suc max_limit) docs (omega (arith, more)),
          lt→ltb more,
          lt→ltb {a = max_limit} {b = suc max_limit} (omega arith),
        )
        refl
  | inr fits ↦
      rw
        (
          fetch_bounded_legacy_list,
          good,
          take_all (suc max_limit) docs (omega (arith, fits)),
          le→not_ltb fits,
        )
        refl
]
  where
    lt→ltb : {a b : ℕ} → a < b → ltb a b ≡ true
    lt→ltb h = ground (arith, h)

    le→not_ltb : {a b : ℕ} → b ≤ a → ltb a b ≡ false
    le→not_ltb h = ground (arith, h)
