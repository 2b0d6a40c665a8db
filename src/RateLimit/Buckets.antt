-- ===== src/RateLimit/Buckets.antt =====
-- A request pays from its key's bucket, and leaves the others alone.
use titra.Common.{
  ℕ, suc, ◌+◌, ◌-◌, ◌*◌, ◌≤◌, ◌<◌, ◌≡◌, refl, sym, ap, subst, ◌∙◌, Bool, true, false, Option, none,
  some, List, [], ◌∷◌, Text, List_eq, ℕ_eq, ◌==◌, ==→≡, ==_self, arith, ltb, if◌then◌else◌, length,
  ◌⊎◌, inl, inr, Bool-cases, Option-cases,
}
use native.Mathlib.Nat.{add-mul}
use titra.RateLimit.{
  token, Bucket, Limiter, take_token, new_bucket, Verdict, allowed, refused, bucket_of, set_bucket,
  evict_if_necessary, consume, opened, served, normalized_key,
}

-- The parts that a request costs.
abbrev pub cost : Verdict → ℕ
cost allowed = token
cost (refused _) = 0

-- A request takes no more than there was, with what has been added since.
take_token-pays :
    (rate now : ℕ) (b : Bucket)
    → cost (take_token rate now b).0 + (take_token rate now b).1.tokens
      ≤ b.tokens + (now - b.last_refill) * rate
unfolding take_token
take_token-pays rate now b = ground arith

module _ (key : Text) where
  bucket_of-set_bucket :
      (b : Bucket) (bs : List (Text × Bucket)) → bucket_of key (set_bucket key b bs) ≡ some b
  unfolding bucket_of set_bucket
  bucket_of-set_bucket b [] = rw (==_self key) refl
  bucket_of-set_bucket b ((name, c) ∷ rest) = elim (Bool-cases (name == key)) [
    | inl same ↦ rw (same, bucket_of, same) refl
    | inr other ↦ rw (other, bucket_of, other) (bucket_of-set_bucket b rest)
  ]

  bucket_of-set_other :
      (name : Text) (b : Bucket) (bs : List (Text × Bucket))
      → (name == key) ≡ false
      → bucket_of key (set_bucket name b bs) ≡ bucket_of key bs
  unfolding bucket_of set_bucket
  bucket_of-set_other name b [] h = rw h refl
  bucket_of-set_other name b ((n, c) ∷ rest) h = elim (Bool-cases (n == name)) [
    | inl same ↦
        rw (same, bucket_of, subst (λ x. (x == key) ≡ false) (sym (==→≡ n name same)) h) refl
    | inr other ↦
        rw (other, bucket_of)
          (ap (λ o. if n == key then some c else o) (bucket_of-set_other name b rest h))
  ]

pub length-set_bucket_le :
    (name : Text) (b : Bucket) (bs : List (Text × Bucket))
    → length (set_bucket name b bs) ≤ suc (length bs)
unfolding set_bucket
length-set_bucket_le name b [] = omega arith
length-set_bucket_le name b ((n, c) ∷ rest) = elim (Bool-cases (n == name)) [
  | inl same ↦ subst (λ x. length (chosen x) ≤ suc (suc (length rest))) (sym same) (omega arith)
  | inr other ↦
      subst (λ x. length (chosen x) ≤ suc (suc (length rest))) (sym other)
        (omega (arith, length-set_bucket_le name b rest))
]
  where
    chosen : Bool → List (Text × Bucket)
    chosen same = elim same [ true ↦ (n, b) ∷ rest | false ↦ (n, c) ∷ set_bucket name b rest ]

-- What a key may still spend by the time `t`.
abbrev pub available : ℕ → ℕ → Option Bucket → ℕ
available rate t none = rate * token
available rate t (some b) = b.tokens + (t - b.last_refill) * rate

abbrev pub IsSeen : ℕ → Option Bucket → Type 0
IsSeen t none = Unit
IsSeen t (some b) = b.last_refill ≤ t

split : (a b c r : ℕ) → a ≤ b → b ≤ c → (c - a) * r ≡ (c - b) * r + (b - a) * r
split a b c r h k = ap (λ n. n * r) (parts a b c h k) ∙ add-mul (c - b) (b - a) r
  where
    parts : (a b c : ℕ) → a ≤ b → b ≤ c → c - a ≡ c - b + (b - a)
    parts a b c h k = omega (arith, h, k)

-- What is available grows with the time.
pub available-later :
    (rate t u end : ℕ) (o : Option Bucket)
    → IsSeen t o
    → t ≤ u
    → u ≤ end
    → available rate u o + (end - u) * rate ≤ available rate t o + (end - t) * rate
available-later rate t u end none seen h k = omega (arith, split t u end rate h k)
available-later rate t u end (some b) seen h k =
    omega (arith, split t u end rate h k, split b.last_refill t u rate seen h)

-- A request of the key pays from what is available, and another's leaves it alone.
pub record Paid (key k : Text) (u : ℕ) (limiter : Limiter) : Type 0 where
  pub pays :
      (if normalized_key k == key then cost (consume k u limiter).0 else 0)
        + available limiter.rate_per_minute u (bucket_of key (consume k u limiter).1.buckets)
      ≤ available limiter.rate_per_minute u (bucket_of key limiter.buckets)
  pub room : length (consume k u limiter).1.buckets ≤ suc (length limiter.buckets)
  pub same_rate : (consume k u limiter).1.rate_per_minute ≡ limiter.rate_per_minute
  pub same_keys : (consume k u limiter).1.max_keys ≡ limiter.max_keys
  pub seen :
      (t : ℕ)
      → t ≤ u
      → IsSeen t (bucket_of key limiter.buckets)
      → IsSeen u (bucket_of key (consume k u limiter).1.buckets)

evict_if_necessary-room :
    (max_keys : ℕ) (bs : List (Text × Bucket))
    → length bs < max_keys
    → evict_if_necessary max_keys bs ≡ bs
unfolding evict_if_necessary
evict_if_necessary-room max_keys bs space =
    rw (evict_if_necessary, lt→ltb (length bs) max_keys space) refl
  where
    lt→ltb : (a b : ℕ) → a < b → ltb a b ≡ true
    lt→ltb a b h = ground (arith, h)

no_time : (u rate : ℕ) → (u - u) * rate ≡ 0
no_time u rate = ap (λ n. n * rate) (gone u) ∙ (omega arith)
  where
    gone : (u : ℕ) → u - u ≡ 0
    gone u = omega arith

-- The bucket that a request takes from, where there is room for one more.
record Served (k : Text) (u : ℕ) (limiter : Limiter) : Type 0 where
  bucket : Bucket
  not_more :
      available limiter.rate_per_minute u (some bucket)
      ≤ available limiter.rate_per_minute u (bucket_of (normalized_key k) limiter.buckets)
  verdict : (consume k u limiter).0 ≡ (take_token limiter.rate_per_minute u bucket).0
  after : (consume k u limiter).1 ≡ record limiter {
    buckets =
        set_bucket
          (normalized_key k)
          (take_token limiter.rate_per_minute u bucket).1
          limiter.buckets;
  }

consume-Served :
    (k : Text) (u : ℕ) (limiter : Limiter)
    → length limiter.buckets < limiter.max_keys
    → Served k u limiter
unfolding consume
consume-Served k u limiter space =
    elim (Option-cases (bucket_of (normalized_key k) limiter.buckets)) [
      | inl absent ↦
          let path =
            ap with_bucket absent
            ∙ ap (λ bs. served (normalized_key k) u limiter (fresh, bs)) kept in
          record {
            bucket = fresh;
            not_more =
                subst
                  (λ o.
                    available limiter.rate_per_minute u (some fresh)
                    ≤ available limiter.rate_per_minute u o)
                  (sym absent) (omega (arith, no_time u limiter.rate_per_minute));
            verdict = ap (λ r. r.0) path;
            after = ap (λ r. r.1) path;
          }
      | inr (b, there) ↦ record {
        bucket = b;
        not_more =
            subst
              (λ o.
                available limiter.rate_per_minute u (some b)
                ≤ available limiter.rate_per_minute u o)
              (sym there) (omega arith);
        verdict = ap (λ r. r.0) (ap with_bucket there);
        after = ap (λ r. r.1) (ap with_bucket there);
      }
    ]
  where
    fresh : Bucket
    fresh = new_bucket limiter.rate_per_minute u

    with_bucket : Option Bucket → Verdict × Limiter
    with_bucket o = served (normalized_key k) u limiter (opened o u limiter)

    kept : evict_if_necessary limiter.max_keys limiter.buckets ≡ limiter.buckets
    kept = evict_if_necessary-room limiter.max_keys limiter.buckets space

take_token-refilled : (rate now : ℕ) (b : Bucket) → (take_token rate now b).1.last_refill ≡ now
unfolding take_token
take_token-refilled rate now b = ground arith

IsSeen-later : (t u : ℕ) (o : Option Bucket) → t ≤ u → IsSeen t o → IsSeen u o
IsSeen-later t u none h seen = tt
IsSeen-later t u (some b) h seen = omega (arith, h, seen)

-- What the request leaves of the key's bucket.
bucket_of-Served :
    (key k : Text) (u : ℕ) (limiter : Limiter) (s : Served k u limiter)
    → ((normalized_key k == key) ≡ true
        × bucket_of key (consume k u limiter).1.buckets
          ≡ some (take_token limiter.rate_per_minute u s.bucket).1)
      ⊎ ((normalized_key k == key) ≡ false
          × bucket_of key (consume k u limiter).1.buckets ≡ bucket_of key limiter.buckets)
bucket_of-Served key k u limiter s = elim (Bool-cases (normalized_key k == key)) [
  | inl same ↦ inl (
    same,
    ap (λ l. bucket_of key (Limiter.buckets l)) s.after
        ∙ subst (λ n. bucket_of key (set_bucket n left limiter.buckets) ≡ some left)
            (sym (==→≡ (normalized_key k) key same))
            (bucket_of-set_bucket key left limiter.buckets),
  )
  | inr other ↦ inr (
    other,
    ap (λ l. bucket_of key (Limiter.buckets l)) s.after
        ∙ bucket_of-set_other key (normalized_key k) left limiter.buckets other,
  )
]
  where
    left : Bucket
    left = (take_token limiter.rate_per_minute u s.bucket).1

pub consume-Paid :
    (key k : Text) (u : ℕ) (limiter : Limiter)
    → length limiter.buckets < limiter.max_keys
    → Paid key k u limiter
consume-Paid key k u limiter space =
    let s = consume-Served k u limiter space in
    let now = take_token limiter.rate_per_minute u s.bucket in
    elim (bucket_of-Served key k u limiter s) [
      | inl (same, left) ↦ record {
        pays =
            rw (same, left)
              (omega (
                arith,
                ap cost s.verdict,
                ap (λ n. (u - n) * limiter.rate_per_minute)
                    (take_token-refilled limiter.rate_per_minute u s.bucket),
                no_time u limiter.rate_per_minute,
                take_token-pays limiter.rate_per_minute u s.bucket,
                subst
                    (λ n.
                      available limiter.rate_per_minute u (some s.bucket)
                      ≤ available limiter.rate_per_minute u (bucket_of n limiter.buckets))
                    (==→≡ (normalized_key k) key same) s.not_more,
              ));
        room = room s;
        same_rate = ap Limiter.rate_per_minute s.after;
        same_keys = ap Limiter.max_keys s.after;
        seen = λ t h _.
            subst (IsSeen u) (sym left)
              (omega (arith, take_token-refilled limiter.rate_per_minute u s.bucket));
      }
      | inr (other, left) ↦ record {
        pays = rw (other, left) (omega arith);
        room = room s;
        same_rate = ap Limiter.rate_per_minute s.after;
        same_keys = ap Limiter.max_keys s.after;
        seen = λ t h seen.
            subst (IsSeen u) (sym left) (IsSeen-later t u (bucket_of key limiter.buckets) h seen);
      }
    ]
  where
    room :
        Served k u limiter → length (consume k u limiter).1.buckets ≤ suc (length limiter.buckets)
    room s =
        subst (λ l. length (Limiter.buckets l) ≤ suc (length limiter.buckets)) (sym s.after)
          (length-set_bucket_le (normalized_key k) (take_token limiter.rate_per_minute u s.bucket).1
            limiter.buckets)
