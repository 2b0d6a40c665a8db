-- ===== src/Common/Equality.antt =====
-- Decidable equality as an instance, with the JavaScript strings: lists of UTF-16 code units.
use Prim.Native.Nat.{ℕ}
use Prim.Native.Char.{code}
use Prim.Native.String.{String}
use mathlib.Core.Path.{◌≡◌, refl}
use mathlib.Core.Logic.{◌↔◌}
use mathlib.Core.Bool.{Bool, true, false, ◌&&◌}
use mathlib.Core.Option.{Option, none, some}
use mathlib.Core.List.{List, [], ◌∷◌}
use native.Mathlib.Omega.{arith}
use titra.Common.Tests.{eqb, eqb_iff}

pub record Eq {ℓ} (A : Type ℓ) : Type ℓ where
  pub beq : (x y : A) → Bool
  pub beq_iff : (x y : A) → (beq x y ≡ true) ↔ (x ≡ y)

unfoldable pub beq_bool : Bool → Bool → Bool
beq_bool true b = b
beq_bool false true = false
beq_bool false false = true

pub beq_bool_iff : (a b : Bool) → (beq_bool a b ≡ true) ↔ (a ≡ b)
unfolding beq_bool
beq_bool_iff a b = ground arith

infix 50 ◌==◌
abbrev pub ◌==◌ {ℓ} : {A : Type ℓ} ⦃eq : Eq A⦄ → (x y : A) → Bool
◌==◌ ⦃eq⦄ = eq.beq

instance abbrev pub ℕ_eq : Eq ℕ
ℕ_eq = record { beq = eqb; beq_iff = eqb_iff }

instance abbrev pub Bool_eq : Eq Bool
Bool_eq = record { beq = beq_bool; beq_iff = beq_bool_iff }

module _ {ℓ} {A : Type ℓ} ⦃e : Eq A⦄ where
  unfoldable pub beq_list : List A → List A → Bool
  beq_list [] [] = true
  beq_list (x ∷ xs) (y ∷ ys) = e.beq x y && beq_list xs ys
  beq_list _ _ = false

  pub beq_list_iff : (xs ys : List A) → (beq_list xs ys ≡ true) ↔ (xs ≡ ys)
  unfolding beq_list
  beq_list_iff [] [] = (λ _. refl, λ _. refl)
  beq_list_iff [] (y ∷ ys) = ground arith
  beq_list_iff (x ∷ xs) [] = ground arith
  beq_list_iff (x ∷ xs) (y ∷ ys) = ground (arith, e.beq_iff x y, beq_list_iff xs ys)

  unfoldable pub beq_option : Option A → Option A → Bool
  beq_option none none = true
  beq_option (some a) (some b) = e.beq a b
  beq_option _ _ = false

  pub beq_option_iff : (a b : Option A) → (beq_option a b ≡ true) ↔ (a ≡ b)
  unfolding beq_option
  beq_option_iff none none = (λ _. refl, λ _. refl)
  beq_option_iff none (some b) = ground arith
  beq_option_iff (some a) none = ground arith
  beq_option_iff (some a) (some b) = ground (arith, e.beq_iff a b)

  instance abbrev pub List_eq : Eq (List A)
  List_eq = record { beq = beq_list; beq_iff = beq_list_iff }

  instance abbrev pub Option_eq : Eq (Option A)
  Option_eq = record { beq = beq_option; beq_iff = beq_option_iff }

  pub ==_self : (a : A) → (a == a) ≡ true
  ==_self a = (e.beq_iff a a).1 refl

  pub ==→≡ : (a b : A) → (a == b) ≡ true → a ≡ b
  ==→≡ a b = (e.beq_iff a b).0

  -- Membership by the instance's test, `Array.prototype.includes`.
  unfoldable pub contains : A → List A → Bool
  contains a [] = false
  contains a (x ∷ xs) = elim (e.beq x a) [ true ↦ true | false ↦ contains a xs ]

-- A string: its code units. A test writes the ASCII ones as `codes "text"`.
abbrev pub Text : Type 0
Text = List ℕ

abbrev pub codes : String → Text
codes String.[] = []
codes (String.◌∷◌ c s) = code c ∷ codes s

-- The equality of a type whose equality is decidable.
unfoldable pub decided : {P : Type 0} → Dec P → Bool
decided (yes _) = true
decided (no _) = false

pub decided_iff : {P : Type 0} (d : Dec P) → (decided d ≡ true) ↔ P
unfolding decided
decided_iff (yes p) = (λ _. p, λ _. refl)
decided_iff (no n) = (λ h. absurd (ground (arith, h)), λ p. absurd (n p))
