-- ===== src/RateLimit/Tests.antt =====
-- Requests of two users at a limiter of one request each minute, and a limiter that is full.
use titra.Common.{◌+◌, ◌-◌, ◌*◌, ◌≤◌, ◌≡◌, refl, none, [], ◌∷◌, codes, beq_list, arith, length}
use titra.RateLimit.{Limiter, token, bucket_of, consume, new_limiter}
use titra.RateLimit.Rate.{Requests, end_of, spent, spent-bounded}
use titra.RateLimit.Size.{consume-bounded}

abbrev requests : Requests
requests =
    (codes "ann", 1000) ∷ (codes "bob", 1500) ∷ (codes "ann", 2000) ∷ (codes "ann", 61_000) ∷ []

-- The request of ann after a second is refused, that after a minute passes.
two_pass : spent (codes "ann") requests (new_limiter 1 10) ≡ 2 * token
unfolding spent beq_list
two_pass = refl

spent-bounded_example :
    spent (codes "ann") requests (new_limiter 1 10) ≤ 1 * token + (end_of 1000 requests - 1000) * 1
spent-bounded_example =
    spent-bounded (codes "ann") 1 10 1000 requests (omega arith)
      (omega arith, (omega arith, (omega arith, (omega arith, tt))))

abbrev full_limiter : Limiter
full_limiter = record {
  rate_per_minute = 10;
  max_keys = 2;
  buckets =
      (codes "ann", record { tokens = 0; last_refill = 5000; last_seen = 5000 })
      ∷ (codes "bob", record { tokens = 0; last_refill = 4000; last_seen = 4000 })
      ∷ [];
}

-- The bucket of bob goes, which was seen first.
bob_evicted : bucket_of (codes "bob") (consume (codes "eve") 6000 full_limiter).1.buckets ≡ none
unfolding consume bucket_of beq_list
bob_evicted = refl

consume-bounded_example :
    length (consume (codes "eve") 6000 full_limiter).1.buckets
    ≤ (consume (codes "eve") 6000 full_limiter).1.max_keys
consume-bounded_example =
    consume-bounded (codes "eve") 6000 full_limiter (omega arith) (omega arith)
