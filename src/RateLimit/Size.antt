-- ===== src/RateLimit/Size.antt =====
-- How many buckets a limiter keeps.
use titra.Common.{
  ℕ, suc, ◌≤◌, ◌<◌, ◌≡◌, refl, sym, ap, subst, ◌⊎◌, inl, inr, Bool, true, false, not, ◌||◌, Option,
  none, some, List, [], ◌∷◌, Text, List_eq, ℕ_eq, ◌==◌, ==_self, arith, ltb, if◌then◌else◌, length,
  length-keep_le, any, keep, Bool-cases, Option-cases, ltb→lt,
}
use mathlib.Core.Option.{some-injective}
use titra.RateLimit.{
  Bucket, Limiter, take_token, new_bucket, bucket_of, set_bucket, oldest_key, evict_if_necessary,
  consume, opened, served, normalized_key,
}
use titra.RateLimit.Buckets.{length-set_bucket_le}

length-set_present :
    (name : Text) (b c : Bucket) (bs : List (Text × Bucket))
    → bucket_of name bs ≡ some c
    → length (set_bucket name b bs) ≤ length bs
unfolding bucket_of set_bucket
length-set_present name b c [] h = absurd (ground (arith, h))
length-set_present name b c ((n, d) ∷ rest) h = elim (Bool-cases (n == name)) [
  | inl same ↦ subst (λ x. length (chosen x) ≤ suc (length rest)) (sym same) (omega arith)
  | inr other ↦
      subst (λ x. length (chosen x) ≤ suc (length rest)) (sym other)
        (omega (
          arith,
          length-set_present name b c rest
              (subst (λ x. (if x then some d else bucket_of name rest) ≡ some c) other h),
        ))
]
  where
    chosen : Bool → List (Text × Bucket)
    chosen same = elim same [ true ↦ (n, b) ∷ rest | false ↦ (n, d) ∷ set_bucket name b rest ]

is_of : Text → Text × Bucket → Bool
is_of key b = b.0 == key

keep_shorter :
    (q : Text × Bucket → Bool) (bs : List (Text × Bucket))
    → any q bs ≡ true
    → length (keep (λ b. not (q b)) bs) < length bs
unfolding any keep
keep_shorter q [] h = absurd (ground (arith, h))
keep_shorter q (b ∷ bs) h = elim (Bool-cases (q b)) [
  | inl hit ↦ rw hit (omega (arith, length-keep_le (λ b. not (q b)) bs))
  | inr miss ↦ rw miss (omega (arith, keep_shorter q bs (ground (arith, h, miss))))
]

first_hit :
    (n key : Text) (s seen : ℕ)
    → ◌≡◌ {A = Option (Text × ℕ)} (some (n, seen)) (some (key, s))
    → (rest : Bool) → (n == key || rest) ≡ true
first_hit n key s seen e rest =
    rw
      (subst (λ x. (n == x) ≡ true) (ap (λ x. x.0) (some-injective (n, seen) (key, s) e))
        (==_self n))
      refl

-- The oldest key is one of the keys.
oldest_key-any :
    (best : Option (Text × ℕ)) (bs : List (Text × Bucket)) (key : Text) (seen : ℕ)
    → oldest_key best bs ≡ some (key, seen)
    → ((s : ℕ) × (best ≡ some (key, s))) ⊎ (any (λ b. b.0 == key) bs ≡ true)
unfolding oldest_key any
oldest_key-any best [] key seen h = inl (seen, h)
oldest_key-any none ((n, b) ∷ bs) key seen h =
    elim (oldest_key-any (some (n, b.last_seen)) bs key seen h) [
      | inl (s, e) ↦ inr (first_hit n key s b.last_seen e (any (λ x. x.0 == key) bs))
      | inr later ↦ inr (ground (arith, later))
    ]
oldest_key-any (some (k, s)) ((n, b) ∷ bs) key seen h = elim (Bool-cases (ltb b.last_seen s)) [
  | inl older ↦
      elim (oldest_key-any (some (n, b.last_seen)) bs key seen
        (subst (λ x. oldest_key (best x) bs ≡ some (key, seen)) older h)) [
          | inl (s', e) ↦ inr (first_hit n key s' b.last_seen e (any (λ x. x.0 == key) bs))
          | inr later ↦ inr (ground (arith, later))
        ]
  | inr newer ↦
      elim (oldest_key-any (some (k, s)) bs key seen
        (subst (λ x. oldest_key (best x) bs ≡ some (key, seen)) newer h)) [
          | inl same ↦ inl same
          | inr later ↦ inr (ground (arith, later))
        ]
]
  where
    best : Bool → Option (Text × ℕ)
    best x = if x then some (n, b.last_seen) else some (k, s)

oldest_key-exists :
    (k : Text) (s : ℕ) (bs : List (Text × Bucket))
    → (key : Text) × (seen : ℕ) × (oldest_key (some (k, s)) bs ≡ some (key, seen))
unfolding oldest_key
oldest_key-exists k s [] = (k, s, refl)
oldest_key-exists k s ((n, b) ∷ bs) = elim (Bool-cases (ltb b.last_seen s)) [
  | inl older ↦ rw older (oldest_key-exists n b.last_seen bs)
  | inr newer ↦ rw newer (oldest_key-exists k s bs)
]

-- Eviction makes room, where a limiter keeps at least one key.
evict_if_necessary-makes_room :
    (max_keys : ℕ) (bs : List (Text × Bucket))
    → 1 ≤ max_keys
    → length bs ≤ max_keys
    → length (evict_if_necessary max_keys bs) < max_keys
unfolding evict_if_necessary
evict_if_necessary-makes_room max_keys bs positive full =
    elim (Bool-cases (ltb (length bs) max_keys)) [
      | inl small ↦ rw (evict_if_necessary, small) (ltb→lt (length bs) max_keys small)
      | inr big ↦
          let (key, seen, found) = nonempty_oldest bs (ground (arith, big, positive)) in
          let shorter = keep_shorter (λ b. b.0 == key) bs (is_there key seen found) in
          rw (evict_if_necessary, big, found) (omega (arith, shorter, full))
    ]
  where
    nonempty_oldest :
        (xs : List (Text × Bucket))
        → 1 ≤ length xs
        → (key : Text) × (seen : ℕ) × (oldest_key none xs ≡ some (key, seen))
    nonempty_oldest [] h = absurd (omega (arith, h))
    nonempty_oldest ((n, b) ∷ xs) h = unfold oldest_key in (oldest_key-exists n b.last_seen xs)

    is_there :
        (key : Text) (seen : ℕ)
        → oldest_key none bs ≡ some (key, seen)
        → any (λ b. b.0 == key) bs ≡ true
    is_there key seen found = elim (oldest_key-any none bs key seen found) [
      | inl (s, e) ↦ absurd (ground (arith, e))
      | inr hit ↦ hit
    ]

-- A limiter keeps no more buckets than its bound, whatever keys come: a request keeps it so.
pub consume-bounded :
    (key : Text) (now : ℕ) (limiter : Limiter)
    → 1 ≤ limiter.max_keys
    → length limiter.buckets ≤ limiter.max_keys
    → length (consume key now limiter).1.buckets ≤ (consume key now limiter).1.max_keys
unfolding consume
consume-bounded key now limiter positive full =
    elim (Option-cases (bucket_of (normalized_key key) limiter.buckets)) [
      | inl absent ↦
          let fresh = new_bucket limiter.rate_per_minute now in
          let others = evict_if_necessary limiter.max_keys limiter.buckets in
          subst bounded (sym (ap with_bucket absent)) (
            omega (
              arith,
              length-set_bucket_le (normalized_key key)
                  (take_token limiter.rate_per_minute now fresh).1 others,
              evict_if_necessary-makes_room limiter.max_keys limiter.buckets positive full,
            ))
      | inr (b, there) ↦ subst bounded (sym (ap with_bucket there)) (
          omega (
            arith,
            full,
            length-set_present (normalized_key key) (take_token limiter.rate_per_minute now b).1 b
                limiter.buckets there,
          ))
    ]
  where
    with_bucket : Option Bucket → Limiter
    with_bucket o = (served (normalized_key key) now limiter (opened o now limiter)).1

    bounded : Limiter → Type 0
    bounded l = length l.buckets ≤ l.max_keys
