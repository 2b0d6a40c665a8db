-- ===== src/Revision/Decimal.antt =====
-- `String(n)` and `Number(s)` at the non-negative integers.
use titra.Common.{
  ℕ, zero, suc, ◌+◌, ◌*◌, ◌/◌, ◌%◌, ◌-◌, ◌≤◌, ◌<◌, ◌≡◌, refl, Bool, true, false, ◌&&◌, [], ◌∷◌,
  ◌++◌, arith, Text, ltb, leb, if◌then◌else◌, every, inl, inr, Bool-cases,
}

abbrev pub is_digit : ℕ → Bool
is_digit c = leb b'0' c && leb c b'9'

-- The digits of `n`, the most significant first; `n + 1` rounds are enough.
unfoldable pub decimal_from : ℕ → ℕ → Text
decimal_from zero n = []
decimal_from (suc f) n =
    let higher = decimal_from f (n / 10) ++ ((48 + n % 10) ∷ []) in
    if ltb n 10 then (48 + n) ∷ [] else higher

unfoldable pub decimal : ℕ → Text
unfolding decimal_from
decimal n = decimal_from (suc n) n

unfoldable pub read_from : ℕ → Text → ℕ
read_from acc [] = acc
read_from acc (c ∷ cs) = read_from (acc * 10 + (c - 48)) cs

-- `Number(s)` of a string of digits.
unfoldable pub read : Text → ℕ
unfolding read_from
read s = read_from 0 s

read_from-append : (acc : ℕ) (s t : Text) → read_from acc (s ++ t) ≡ read_from (read_from acc s) t
unfolding read_from
read_from-append acc [] t = refl
read_from-append acc (c ∷ s) t = read_from-append (acc * 10 + (c - 48)) s t

read-decimal_from : (f n : ℕ) → n < f → read_from 0 (decimal_from f n) ≡ n
unfolding decimal_from
read-decimal_from zero n h = absurd (omega arith)
read-decimal_from (suc f) n h = elim (Bool-cases (ltb n 10)) [
  | inl small ↦ rw small (unfold read_from in (omega arith))
  | inr large ↦
      rw (large, read_from-append, read-decimal_from f (n / 10) (ground arith))
        (unfold read_from in (omega arith))
]

-- `Number(String(n))` is `n`.
pub read-decimal : (n : ℕ) → read (decimal n) ≡ n
unfolding read decimal
read-decimal n = read-decimal_from (suc n) n (omega arith)

-- `(0|[1-9]\d*)`
unfoldable pub is_canonical : Text → Bool
is_canonical [] = false
is_canonical (c ∷ []) = is_digit c
is_canonical (c ∷ d ∷ cs) = leb b'1' c && leb c b'9' && every is_digit (d ∷ cs)

every-snoc :
    (s : Text) (c : ℕ)
    → every is_digit s ≡ true
    → is_digit c ≡ true
    → every is_digit (s ++ (c ∷ [])) ≡ true
unfolding every
every-snoc [] c h d = ground arith
every-snoc (b ∷ s) c h d = ground (arith, every-snoc s c)

-- A first digit that is not zero, then digits.
abbrev IsPositive : Text → Type 0
IsPositive [] = ⊥
IsPositive (c ∷ cs) = (49 ≤ c) × (c ≤ 57) × (every is_digit cs ≡ true)

IsPositive-snoc : (s : Text) (c : ℕ) → IsPositive s → is_digit c ≡ true → IsPositive (s ++ (c ∷ []))
IsPositive-snoc [] c h d = absurd h
IsPositive-snoc (b ∷ s) c (lo, hi, ds) d = (lo, hi, every-snoc s c ds d)

decimal_from-IsPositive : (f n : ℕ) → n < f → 0 < n → IsPositive (decimal_from f n)
unfolding decimal_from
decimal_from-IsPositive zero n h pos = absurd (omega arith)
decimal_from-IsPositive (suc f) n h pos = elim (Bool-cases (ltb n 10)) [
  | inl small ↦ rw small (omega arith, ground arith, unfold every in refl)
  | inr large ↦ rw large (
      IsPositive-snoc (decimal_from f (n / 10)) (48 + n % 10)
        (decimal_from-IsPositive f (n / 10) (ground arith) (ground arith)) (ground arith))
]

canonical_of_IsPositive : (s : Text) → IsPositive s → is_canonical s ≡ true
unfolding is_canonical
canonical_of_IsPositive [] h = absurd h
canonical_of_IsPositive (c ∷ []) h = ground arith
canonical_of_IsPositive (c ∷ d ∷ cs) h = ground arith

-- The decimal form has no leading zero and nothing but digits.
pub decimal-canonical : (n : ℕ) → is_canonical (decimal n) ≡ true
unfolding decimal
decimal-canonical zero = unfold is_canonical in refl
decimal-canonical (suc n) =
    canonical_of_IsPositive _
      (decimal_from-IsPositive (suc (suc n)) (suc n) (omega arith) (omega arith))
