-- ===== src/Common/Exec.antt =====
-- An asynchronous function: it reads and changes the database, and returns or throws.
use mathlib.Core.Path.{◌≡◌, refl}
use mathlib.Core.Logic.{◌⊎◌, inl, inr}
use mathlib.Core.Bool.{Bool, true, false}

pub data Result {ℓ κ} (E : Type κ) (A : Type ℓ) : Type (ℓ ⊔ κ) where
  ok : A → Result E A
  throw : E → Result E A

infixl 5 ◌>>=◌ ◌>>◌
abbrev pub ◌>>=◌ : {E A B : Type 0} → Result E A → (A → Result E B) → Result E B
throw x >>= rest = throw x
ok a >>= rest = rest a

abbrev pub ◌>>◌ : {E B : Type 0} → Result E (Unit {0}) → Result E B → Result E B
m >> k = m >>= λ _. k

-- `if (bad) throw e`.
abbrev pub throw_if : {E : Type 0} → Bool → E → Result E (Unit {0})
throw_if false x = ok tt
throw_if true x = throw x

-- To split on what a call came to and keep the equation.
pub Result-cases :
    {E A : Type 0} (r : Result E A) → ((a : A) × (r ≡ ok a)) ⊎ ((e : E) × (r ≡ throw e))
Result-cases (ok a) = inl (a, refl)
Result-cases (throw e) = inr (e, refl)

-- What a successful chain of two steps came through.
pub >>=-eq-ok :
    {E A B : Type 0} (first : Result E A) (rest : A → Result E B) {y : B}
    → (first >>= rest) ≡ ok y
    → (x : A) × (first ≡ ok x) × (rest x ≡ ok y)
>>=-eq-ok (ok x) rest through = (x, refl, through)
>>=-eq-ok (throw x) rest through = cc

-- A check that comes before the calls of the database.
abbrev pub checked :
    {E A Db : Type 0} → Result E (Unit {0}) → Db → Result E A × Db → Result E A × Db
checked (throw e) db rest = (throw e, db)
checked (ok _) db rest = rest

pub checked-eq-ok :
    {E A Db : Type 0} (check : Result E (Unit {0})) (db : Db) (rest : Result E A × Db) {a : A}
    → (checked check db rest).0 ≡ ok a
    → checked check db rest ≡ rest
checked-eq-ok (throw e) db rest h = cc
checked-eq-ok (ok u) db rest h = refl

pub throw_if-eq-ok :
    {E B : Type 0} (bad : Bool) (e : E) (m : Result E B) {b : B}
    → (throw_if bad e >> m) ≡ ok b
    → (bad ≡ false) × (m ≡ ok b)
throw_if-eq-ok true e m h = cc
throw_if-eq-ok false e m h = (refl, h)
