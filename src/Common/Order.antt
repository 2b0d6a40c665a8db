-- ===== src/Common/Order.antt =====
-- The order of strings.
use titra.Common.Equality.{Text, ◌==◌, ℕ_eq, List_eq, beq_list}
use titra.Common.Tests.{ltb, Bool-cases}
use mathlib.Core.Path.{◌≡◌, refl}
use mathlib.Core.Logic.{inl, inr}
use mathlib.Core.Bool.{Bool, true, false, ◌&&◌, ◌||◌}
use mathlib.Core.List.{List, [], ◌∷◌}
use native.Mathlib.Omega.{arith}

-- `<` on strings, by their code units.
unfoldable pub is_before : Text → Text → Bool
is_before [] [] = false
is_before [] (_ ∷ _) = true
is_before (_ ∷ _) [] = false
is_before (a ∷ s) (b ∷ t) = ltb a b || (a == b && is_before s t)

pub is_before-asymmetric : (s t : Text) → is_before s t ≡ true → is_before t s ≡ false
unfolding is_before
is_before-asymmetric [] [] h = refl
is_before-asymmetric [] (b ∷ t) h = refl
is_before-asymmetric (a ∷ s) [] h = absurd (ground (arith, h))
is_before-asymmetric (a ∷ s) (b ∷ t) h = elim (Bool-cases (is_before s t)) [
  | inl later ↦ ground (arith, h, is_before-asymmetric s t later)
  | inr not_later ↦ ground (arith, h, not_later)
]

pub is_before-irreflexive : (s : Text) → is_before s s ≡ false
unfolding is_before
is_before-irreflexive [] = refl
is_before-irreflexive (a ∷ s) = ground (arith, is_before-irreflexive s)

pub is_before-transitive :
    (s t u : Text) → is_before s t ≡ true → is_before t u ≡ true → is_before s u ≡ true
unfolding is_before
is_before-transitive [] [] u h k = absurd (ground (arith, h))
is_before-transitive s (b ∷ t) [] h k = absurd (ground (arith, k))
is_before-transitive [] (b ∷ t) (c ∷ u) h k = refl
is_before-transitive (a ∷ s) [] u h k = absurd (ground (arith, h))
is_before-transitive (a ∷ s) (b ∷ t) (c ∷ u) h k = elim (Bool-cases (is_before s t)) [
  | inl before ↦ elim (Bool-cases (is_before t u)) [
    | inl then_before ↦ ground (arith, h, k, is_before-transitive s t u before then_before)
    | inr not_before ↦ ground (arith, h, k, not_before)
  ]
  | inr not_before ↦ ground (arith, h, k, not_before)
]

-- Of two strings that differ, one is before the other.
pub is_before-total : (s t : Text) → (s == t) ≡ false → is_before s t ≡ false → is_before t s ≡ true
unfolding is_before beq_list
is_before-total [] [] ne h = absurd (ground (arith, ne))
is_before-total [] (b ∷ t) ne h = absurd (ground (arith, h))
is_before-total (a ∷ s) [] ne h = refl
is_before-total (a ∷ s) (b ∷ t) ne h = elim (Bool-cases (s == t)) [
  | inl same ↦ ground (arith, ne, h, same)
  | inr differ ↦ elim (Bool-cases (is_before s t)) [
    | inl before ↦ ground (arith, ne, h, before)
    | inr not_before ↦ ground (arith, ne, h, not_before, is_before-total s t differ not_before)
  ]
]

-- `toString() < toString()`, the order of `sort()`.
unfoldable pub insert_key : Text → List Text → List Text
unfolding is_before
insert_key k [] = k ∷ []
insert_key k (x ∷ xs) = elim (is_before x k) [ true ↦ x ∷ insert_key k xs | false ↦ k ∷ x ∷ xs ]

unfoldable pub sort_keys : List Text → List Text
unfolding insert_key
sort_keys [] = []
sort_keys (x ∷ xs) = insert_key x (sort_keys xs)
