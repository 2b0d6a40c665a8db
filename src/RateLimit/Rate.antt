-- ===== src/RateLimit/Rate.antt =====
-- How many requests of a key pass in a time.
use titra.Common.{
  ℕ, ◌+◌, ◌-◌, ◌*◌, ◌≤◌, subst, List, [], ◌∷◌, Text, List_eq, ℕ_eq, ◌==◌, arith, if◌then◌else◌,
  length,
}
use titra.RateLimit.{token, Limiter, bucket_of, consume, normalized_key, new_limiter}
use titra.RateLimit.Buckets.{cost, available, IsSeen, available-later, consume-Paid}

-- Requests by their keys, in the order of time.
abbrev pub Requests : Type 0
Requests = List (Text × ℕ)

abbrev pub IsInOrder : ℕ → Requests → Type 0
IsInOrder t [] = Unit
IsInOrder t ((k, u) ∷ rest) = (t ≤ u) × IsInOrder u rest

abbrev pub end_of : ℕ → Requests → ℕ
end_of t [] = t
end_of t ((k, u) ∷ rest) = end_of u rest

-- What the requests of a key cost that a limiter lets through.
unfoldable pub spent : Text → Requests → Limiter → ℕ
unfolding consume
spent key [] limiter = 0
spent key ((k, u) ∷ rest) limiter =
    let later = spent key rest (consume k u limiter).1 in
    (if normalized_key k == key then cost (consume k u limiter).0 else 0) + later

end_of-later : (t : ℕ) (rs : Requests) → IsInOrder t rs → t ≤ end_of t rs
end_of-later t [] h = omega arith
end_of-later t ((k, u) ∷ rest) (h, hs) = omega (arith, h, end_of-later u rest hs)

-- Requests in the order of time, where there is room for all their keys: those of one key that pass
-- cost at most what is available.
spent-available :
    (key : Text) (rs : Requests) (t : ℕ) (limiter : Limiter)
    → length limiter.buckets + length rs ≤ limiter.max_keys
    → IsInOrder t rs
    → IsSeen t (bucket_of key limiter.buckets)
    → spent key rs limiter
      ≤ available limiter.rate_per_minute t (bucket_of key limiter.buckets)
        + (end_of t rs - t) * limiter.rate_per_minute
unfolding spent
spent-available key [] t limiter room order seen = omega arith
spent-available key ((k, u) ∷ rest) t limiter room (h, order) seen =
    let p = consume-Paid key k u limiter (omega (arith, room)) in
    let later =
      spent-available key rest u (consume k u limiter).1 (omega (arith, room, p.room, p.same_keys))
        order (p.seen t h seen) in
    omega (
      arith,
      p.pays,
      subst
          (λ r.
            spent key rest (consume k u limiter).1
            ≤ available r u (bucket_of key (consume k u limiter).1.buckets)
              + (end_of u rest - u) * r)
          p.same_rate later,
      available-later limiter.rate_per_minute t u (end_of u rest) (bucket_of key limiter.buckets)
          seen h (end_of-later u rest order),
    )

-- Of the requests of a key to a new limiter, made from the time `t` on in the order of time, at most
-- as many pass as the capacity and the refill of the time since then allow. There are no more requests
-- than the limiter keeps keys.
pub spent-bounded :
    (key : Text) (rate max_keys t : ℕ) (rs : Requests)
    → length rs ≤ max_keys
    → IsInOrder t rs
    → spent key rs (new_limiter rate max_keys) ≤ rate * token + (end_of t rs - t) * rate
unfolding bucket_of
spent-bounded key rate max_keys t rs room order =
    spent-available key rs t (new_limiter rate max_keys) (omega (arith, room)) order tt
