-- ===== src/Pagination/Keyset.antt =====
-- Lists in the order of keys, cut at a key.
use titra.Common.{
  ℕ, zero, suc, ◌≡◌, refl, ap, subst, ◌∙◌, Bool, true, false, ◌&&◌, some, List, [], ◌∷◌, ◌++◌,
  arith, is_before, is_before-asymmetric, is_before-irreflexive, All, All-keep, keep, last, take,
  if◌then◌else◌, inl, inr, Bool-cases,
}
use mathlib.Core.Option.{some-injective}
use titra.Pagination.{Key, key_before}
use titra.Pagination.Page.{selector_after, is_ordered}

key_before-asymmetric : (k l : Key) → key_before k l ≡ true → key_before l k ≡ false
unfolding key_before
key_before-asymmetric k l h = elim (Bool-cases (is_before k.id l.id)) [
  | inl later ↦ ground (arith, h, is_before-asymmetric k.id l.id later)
  | inr not_later ↦ ground (arith, h, not_later)
]

key_before-irreflexive : (k : Key) → key_before k k ≡ false
unfolding key_before
key_before-irreflexive k = ground (arith, is_before-irreflexive k.id)

module _ {A : Type 0} (p : A → Bool) where
  keep-All : (xs : List A) → All (λ x. p x ≡ true) xs → keep p xs ≡ xs
  unfolding keep
  keep-All [] h = refl
  keep-All (x ∷ xs) (hx, h) = rw (hx, keep-All xs h) refl

  keep-twice : (q : A → Bool) (xs : List A) → keep (λ x. q x && p x) xs ≡ keep p (keep q xs)
  unfolding keep
  keep-twice q [] = refl
  keep-twice q (x ∷ xs) = elim (Bool-cases (q x)) [
    | inl yes_q ↦ rw yes_q (ap (λ t. if p x then x ∷ t else t) (keep-twice q xs))
    | inr no_q ↦ rw no_q (keep-twice q xs)
  ]

module _ {A : Type 0} where
  pub All-middle :
      (P : A → Type 0) (xs : List A) (y : A) (ys : List A) → All P (xs ++ (y ∷ ys)) → P y
  All-middle P [] y ys h = h.0
  All-middle P (x ∷ xs) y ys h = All-middle P xs y ys h.1

  pub last-split :
      (xs : List A) (l : A) → last xs ≡ some l → (front : List A) × (xs ≡ front ++ (l ∷ []))
  unfolding last
  last-split [] l h = absurd (ground (arith, h))
  last-split (x ∷ []) l h = ([], ap (λ a. a ∷ []) (some-injective x l h))
  last-split (x ∷ y ∷ ys) l h =
      let (front, e) = last-split (y ∷ ys) l h in (x ∷ front, ap (λ t. x ∷ t) e)

  pub last-exists : (x : A) (xs : List A) → (l : A) × (last (x ∷ xs) ≡ some l)
  unfolding last
  last-exists x [] = (x, refl)
  last-exists x (y ∷ ys) = last-exists y ys

module _ {Doc : Type 0} (key_of : Doc → Key) where
  -- Each document comes before all that follow it.
  abbrev pub IsSorted : List Doc → Type 0
  IsSorted [] = Unit
  IsSorted (x ∷ xs) = All (λ y. key_before (key_of x) (key_of y) ≡ true) xs × IsSorted xs

  pub keep-IsSorted : (p : Doc → Bool) (xs : List Doc) → IsSorted xs → IsSorted (keep p xs)
  unfolding keep
  keep-IsSorted p [] h = tt
  keep-IsSorted p (x ∷ xs) (hx, h) = elim (Bool-cases (p x)) [
    | inl yes_p ↦
        rw yes_p
          (All-keep p (λ y. key_before (key_of x) (key_of y) ≡ true) xs hx, keep-IsSorted p xs h)
    | inr no_p ↦ rw no_p (keep-IsSorted p xs h)
  ]

  -- The documents after one of a sorted list are those that follow it.
  keep-after :
      (front : List Doc) (l : Doc) (rest : List Doc)
      → IsSorted (front ++ (l ∷ rest))
      → keep (λ d. key_before (key_of l) (key_of d)) (front ++ (l ∷ rest)) ≡ rest
  unfolding keep
  keep-after [] l rest (hl, h) =
      rw (key_before-irreflexive (key_of l))
        (keep-All (λ d. key_before (key_of l) (key_of d)) rest hl)
  keep-after (x ∷ front) l rest (hx, h) =
      rw
        (key_before-asymmetric (key_of x) (key_of l)
          (All-middle (λ y. key_before (key_of x) (key_of y) ≡ true) front l rest hx))
        (keep-after front l rest h)

  -- The selector after a document of the matching ones selects those that follow it.
  pub selector_after-cuts :
      (base : Doc → Bool) (docs front : List Doc) (l : Doc) (rest : List Doc)
      → IsSorted docs
      → keep base docs ≡ front ++ (l ∷ rest)
      → keep (selector_after key_of base (some (key_of l))) docs ≡ rest
  unfolding selector_after
  selector_after-cuts base docs front l rest sorted matching =
      keep-twice (λ d. key_before (key_of l) (key_of d)) base docs
      ∙ ap (keep (λ d. key_before (key_of l) (key_of d))) matching
      ∙ keep-after front l rest (subst IsSorted matching (keep-IsSorted base docs sorted))

  -- The front of a sorted list passes the check of a page.
  pub is_ordered-take : (n : ℕ) (xs : List Doc) → IsSorted xs → is_ordered key_of (take n xs) ≡ true
  unfolding is_ordered take
  is_ordered-take zero xs h = refl
  is_ordered-take (suc n) [] h = refl
  is_ordered-take (suc zero) (x ∷ xs) h = refl
  is_ordered-take (suc (suc n)) (x ∷ []) h = refl
  is_ordered-take (suc (suc n)) (x ∷ y ∷ ys) (hx, h) =
      rw (hx.0, is_ordered-take (suc n) (y ∷ ys) h) refl
