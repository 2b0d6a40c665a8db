-- ===== src/Common/Documents.antt =====
-- A field of a stored document: absent, of the type that the code expects, or anything else (known
-- by a number, so that two reads can be compared).
use Prim.Native.Nat.{ℕ}
use mathlib.Core.Path.{◌≡◌, refl}
use mathlib.Core.Logic.{◌↔◌}
use mathlib.Core.Bool.{Bool, true, false}
use mathlib.Core.Option.{Option, none, some}
use native.Mathlib.Omega.{arith}
use titra.Common.Tests.{eqb, eqb_iff}
use titra.Common.Equality.{Eq}

pub data Stored {ℓ} (A : Type ℓ) : Type ℓ where
  missing : Stored A
  held : A → Stored A
  junk : ℕ → Stored A

module _ {ℓ} {A : Type ℓ} where
  pub held-injective : {a b : A} → held a ≡ held b → a ≡ b
  held-injective e = cc

  -- `hasOwnProperty`, the query `$exists: true`.
  abbrev pub exists : Stored A → Bool
  exists missing = false
  exists _ = true

  abbrev pub is_held : Stored A → Bool
  is_held (held a) = true
  is_held _ = false

  -- The value if it has the expected type.
  abbrev pub value : Stored A → Option A
  value (held a) = some a
  value _ = none

module _ {ℓ} {A : Type ℓ} ⦃e : Eq A⦄ where
  unfoldable pub beq_stored : Stored A → Stored A → Bool
  beq_stored missing missing = true
  beq_stored (held a) (held b) = e.beq a b
  beq_stored (junk m) (junk n) = eqb m n
  beq_stored _ _ = false

  pub beq_stored_iff : (a b : Stored A) → (beq_stored a b ≡ true) ↔ (a ≡ b)
  unfolding beq_stored
  beq_stored_iff missing missing = (λ _. refl, λ _. refl)
  beq_stored_iff (held a) (held b) = ground (arith, e.beq_iff a b)
  beq_stored_iff (junk m) (junk n) = ground (arith, eqb_iff m n)
  beq_stored_iff missing (held b) = ground arith
  beq_stored_iff missing (junk n) = ground arith
  beq_stored_iff (held a) missing = ground arith
  beq_stored_iff (held a) (junk n) = ground arith
  beq_stored_iff (junk m) missing = ground arith
  beq_stored_iff (junk m) (held b) = ground arith

  instance abbrev pub Stored_eq : Eq (Stored A)
  Stored_eq = record { beq = beq_stored; beq_iff = beq_stored_iff }
