-- ===== src/Common/Membership.antt =====
-- `includes`, `filter` and appending at the end, by the test of an equality instance.
use mathlib.Core.Path.{◌≡◌, refl}
use mathlib.Core.Logic.{◌≢◌}
use mathlib.Core.Bool.{true, false, not}
use mathlib.Core.List.{List, [], ◌∷◌, ◌++◌}
use native.Mathlib.Omega.{arith}
use titra.Common.Lists.{keep}
use titra.Common.Equality.{Eq, ◌==◌, ==_self, contains}

module _ {ℓ} {A : Type ℓ} ⦃e : Eq A⦄ where
  -- All the elements but those that equal `a`.
  abbrev pub without : A → List A → List A
  without a xs = keep (λ x. not (x == a)) xs

  pub contains-append_self : (a : A) (xs : List A) → contains a (xs ++ (a ∷ [])) ≡ true
  unfolding contains
  contains-append_self a [] = ground (arith, ==_self a)
  contains-append_self a (x ∷ xs) = ground (arith, contains-append_self a xs)

  pub contains-append_left :
      (a : A) (xs ys : List A) → contains a xs ≡ true → contains a (xs ++ ys) ≡ true
  unfolding contains
  contains-append_left a [] ys h = cc
  contains-append_left a (x ∷ xs) ys h = ground (arith, contains-append_left a xs ys)

  pub contains-without :
      (a b : A) (xs : List A) → a ≢ b → contains b xs ≡ true → contains b (without a xs) ≡ true
  unfolding contains keep
  contains-without a b [] ne h = cc
  contains-without a b (x ∷ xs) ne h =
      ground (arith, e.beq_iff x a, e.beq_iff x b, contains-without a b xs ne)

  pub contains-without_self : (a : A) (xs : List A) → contains a (without a xs) ≡ false
  unfolding contains keep
  contains-without_self a [] = refl
  contains-without_self a (x ∷ xs) = ground (arith, contains-without_self a xs)

  pub without_absent : (a : A) (xs : List A) → contains a xs ≡ false → without a xs ≡ xs
  unfolding contains keep
  without_absent a [] h = refl
  without_absent a (x ∷ xs) h = ground (arith, without_absent a xs)

  pub without-append_self :
      (a : A) (xs : List A) → contains a xs ≡ false → without a (xs ++ (a ∷ [])) ≡ xs
  unfolding contains keep
  without-append_self a [] h = ground (arith, ==_self a)
  without-append_self a (x ∷ xs) h = ground (arith, without-append_self a xs)
