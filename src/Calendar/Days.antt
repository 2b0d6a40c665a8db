-- ===== src/Calendar/Days.antt =====
-- Day numbers: each belongs to exactly one date.
use titra.Common.{
  ℕ, zero, suc, ◌+◌, ◌-◌, ◌≤◌, ◌<◌, ◌≡◌, refl, ap, subst, ◌⊎◌, inl, inr, true, false, arith, ltb,
  eqb, Bool-cases,
}
use native.Mathlib.Nat.{add-zero}
use titra.Calendar.Civil.{
  Civil, civil, is_leap, year_size, year_start, month_size, month_start, locate, days_of,
  civil_of_days,
}

-- Blocks that follow each other without a gap.
module _ (size start : ℕ → ℕ) (next : (i : ℕ) → start (suc i) ≡ start i + size i) where
  start_mono : (i k : ℕ) → start i ≤ start (i + k)
  start_mono i zero = omega (arith, ap start (add-zero i))
  start_mono i (suc k) = omega (arith, start_mono i k, next (i + k), ap start (after i k))
    where
      after : (i k : ℕ) → i + suc k ≡ suc (i + k)
      after i k = omega arith

  pub start-le : (i j : ℕ) → i ≤ j → start i ≤ start j
  start-le i j h = subst (λ x. start i ≤ start x) (filled i j h) (start_mono i (j - i))
    where
      filled : (i j : ℕ) → i ≤ j → i + (j - i) ≡ j
      filled i j h = omega arith

  -- A day `k` of block `j` is found there.
  pub locate-found :
      (fuel i j d k : ℕ)
      → i ≤ j
      → j < i + fuel
      → start i + d ≡ start j + k
      → k < size j
      → locate size fuel i d ≡ (j, k)
  unfolding locate
  locate-found zero i j d k le enough at within = absurd (omega (arith, le, enough))
  locate-found (suc fuel) i j d k le enough at within = elim (Bool-cases (ltb d (size i))) [
    | inl here ↦
        let same = first i j d k le at here within in
        rw (here, locate) (pair same (omega (arith, at, ap start same)))
    | inr later ↦
        rw (later, locate)
          (locate-found fuel (i + 1) j (d - size i) k (beyond i j d k le at later within)
            (omega (arith, enough)) (ground (arith, next i, at, later, ap start (one i))) within)
  ]
    where
      one : (i : ℕ) → i + 1 ≡ suc i
      one i = omega arith

      pair : {a b c d : ℕ} → a ≡ c → b ≡ d → ◌≡◌ {A = ℕ × ℕ} (a, b) (c, d)
      pair e f = rw (e, f) refl

      first :
          (i j d k : ℕ)
          → i ≤ j
          → start i + d ≡ start j + k
          → ltb d (size i) ≡ true
          → k < size j
          → i ≡ j
      first i j d k le at here within = elim (Bool-cases (ltb i j)) [
        | inl lt ↦ absurd (ground (arith, next i, start-le (suc i) j, at, here))
        | inr ge ↦ ground (arith, le, ge)
      ]

      beyond :
          (i j d k : ℕ)
          → i ≤ j
          → start i + d ≡ start j + k
          → ltb d (size i) ≡ false
          → k < size j
          → i + 1 ≤ j
      beyond i j d k le at later within = elim (Bool-cases (eqb i j)) [
        | inl same ↦
            let e : i ≡ j = ground (arith, same) in
            absurd (ground (arith, at, later, within, ap start e, ap size e))
        | inr differs ↦ ground (arith, le, differs)
      ]

  -- With enough rounds the search ends in a block that the day falls into.
  pub locate-lands :
      (fuel i d : ℕ)
      → start i + d < start (i + fuel)
      → (start (locate size fuel i d).0 + (locate size fuel i d).1 ≡ start i + d)
        × ((locate size fuel i d).1 < size (locate size fuel i d).0)
        × ((locate size fuel i d).0 < i + fuel)
  unfolding locate
  locate-lands zero i d enough = absurd (omega (arith, enough, ap start (add-zero i)))
  locate-lands (suc fuel) i d enough = elim (Bool-cases (ltb d (size i))) [
    | inl here ↦ rw (here, locate) (refl, ground (arith, here), omega arith)
    | inr later ↦
        let (at, within, below) =
          locate-lands fuel (i + 1) (d - size i)
            (ground (arith, enough, later, next i, ap start (one i), ap start (shift i fuel))) in
        rw (later, locate)
          (ground (arith, at, later, next i, ap start (one i)), within, omega (arith, below))
  ]
    where
      one : (i : ℕ) → i + 1 ≡ suc i
      one i = omega arith

      shift : (i fuel : ℕ) → i + suc fuel ≡ i + 1 + fuel
      shift i fuel = omega arith

pub year_start-suc : (y : ℕ) → year_start (suc y) ≡ year_start y + year_size y
unfolding year_start year_size is_leap
year_start-suc y = ground arith

pub month_start-suc : (y m : ℕ) → month_start y (suc m) ≡ month_start y m + month_size y m
unfolding month_start
month_start-suc y m = refl

-- The months add up to the year.
pub twelve_months : (y : ℕ) → month_start y 12 ≡ year_size y
unfolding month_start month_size year_size
twelve_months y = ground arith

-- A date of the calendar; months and days count from 1.
pub record IsValid (c : Civil) : Type 0 where
  pub month_from : 1 ≤ c.month
  pub month_to : c.month ≤ 12
  pub day_from : 1 ≤ c.day
  pub day_to : c.day ≤ month_size c.year (c.month - 1)

year_size_pos : (y : ℕ) → 1 ≤ year_size y
unfolding year_size
year_size_pos y = ground arith

-- The day of the year of a valid date is within the year.
pub within_year :
    (c : Civil) → IsValid c → month_start c.year (c.month - 1) + (c.day - 1) < year_size c.year
within_year c v = omega (
  arith,
  v.month_from,
  v.month_to,
  v.day_from,
  v.day_to,
  twelve_months c.year,
  month_start-suc c.year (c.month - 1),
  start-le (month_size c.year) (month_start c.year) (month_start-suc c.year) (suc (c.month - 1)) 12
      (omega (arith, v.month_to, v.month_from)),
)

year-le-start : (y : ℕ) → y ≤ year_start y
unfolding year_start
year-le-start y = omega arith

-- The date with the day number of a valid date is that date.
pub civil_of_days-days_of : (c : Civil) → IsValid c → civil_of_days (days_of c) ≡ c
unfolding civil_of_days days_of
civil_of_days-days_of c v =
    let k = month_start c.year (c.month - 1) + (c.day - 1) in
    let n = year_start c.year + month_start c.year (c.month - 1) + (c.day - 1) in
    let years =
      locate-found year_size year_start year_start-suc (n + 1) 0 c.year n k (omega arith)
        (omega (arith, year-le-start c.year)) (unfold year_start in (omega arith))
        (within_year c v) in
    let months =
      locate-found (month_size c.year) (month_start c.year) (month_start-suc c.year) 12 0
        (c.month - 1) k (c.day - 1) (omega arith) (omega (arith, v.month_to, v.month_from))
        (unfold month_start in (omega arith)) (omega (arith, v.day_from, v.day_to)) in
    rw (years, months)
      (fields (c.month - 1) (c.day - 1) (omega (arith, v.month_from)) (omega (arith, v.day_from)))
  where
    fields : (m d : ℕ) → m + 1 ≡ c.month → d + 1 ≡ c.day → civil c.year (m + 1) (d + 1) ≡ c
    fields m d e f = rw (e, f) refl

year_size-is : (y : ℕ) → (year_size y ≡ 365) ⊎ (year_size y ≡ 366)
unfolding year_size
year_size-is y = ground arith

-- Every day number is that of a valid date.
pub civil_of_days-IsValid : (n : ℕ) → IsValid (civil_of_days n) × (days_of (civil_of_days n) ≡ n)
unfolding civil_of_days days_of
civil_of_days-IsValid n =
    let (at, within, _) =
      locate-lands year_size year_start year_start-suc (n + 1) 0 n
        (omega (arith, year-le-start (0 + (n + 1)), ends)) in
    let y = (locate year_size (n + 1) 0 n).0 in
    let rest = (locate year_size (n + 1) 0 n).1 in
    let (month_at, day_within, month_below) =
      locate-lands (month_size y) (month_start y) (month_start-suc y) 12 0 rest
        (omega (arith, within, twelve_months y, first y)) in
    (
      record {
        month_from = omega arith;
        month_to = omega (arith, month_below);
        day_from = omega arith;
        day_to = ground (arith, day_within);
      },
      ground (arith, at, month_at, ends, first y),
    )
  where
    ends : year_start 0 ≡ 0
    ends = unfold year_start in refl

    first : (y : ℕ) → month_start y 0 ≡ 0
    first y = unfold month_start in refl
