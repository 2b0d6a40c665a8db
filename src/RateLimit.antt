-- ===== src/RateLimit.antt =====
-- server/apiRateLimit.js: token buckets, one for each address or user. A token is 60 000 parts, so
-- that a bucket fills by `ratePerMinute` parts in a millisecond.
pub mod Buckets
pub mod Rate
pub mod Size
mod Tests
use titra.Revision.Decimal.{is_digit, read}
use titra.Common.{
  ℕ, ◌+◌, ◌-◌, ◌*◌, ◌/◌, Bool, true, false, not, ◌&&◌, ◌||◌, Option, none, some, List, [], ◌∷◌,
  ◌++◌, Text, codes, List_eq, ℕ_eq, ◌==◌, keep, leb, ltb, if◌then◌else◌, length, max, min, every,
}

abbrev pub token : ℕ
token = 60000

pub record Bucket : Type 0 where
  pub tokens : ℕ
  pub last_refill : ℕ
  pub last_seen : ℕ

-- A `TokenBucketLimiter`; `buckets` in the order of insertion.
pub record Limiter : Type 0 where
  pub rate_per_minute : ℕ
  pub max_keys : ℕ
  pub buckets : List (Text × Bucket)

abbrev pub capacity : Limiter → ℕ
capacity limiter = limiter.rate_per_minute * token

unfoldable pub bucket_of : Text → List (Text × Bucket) → Option Bucket
bucket_of key [] = none
bucket_of key ((name, bucket) ∷ rest) = if name == key then some bucket else bucket_of key rest

-- `buckets.set`
unfoldable pub set_bucket : Text → Bucket → List (Text × Bucket) → List (Text × Bucket)
set_bucket key bucket [] = (key, bucket) ∷ []
set_bucket key bucket ((name, b) ∷ rest) = elim (name == key) [
  | true ↦ (name, bucket) ∷ rest
  | false ↦ (name, b) ∷ set_bucket key bucket rest
]

-- The first of the keys that were seen the longest ago.
unfoldable pub oldest_key : Option (Text × ℕ) → List (Text × Bucket) → Option (Text × ℕ)
oldest_key best [] = best
oldest_key none ((name, b) ∷ rest) = oldest_key (some (name, b.last_seen)) rest
oldest_key (some (key, seen)) ((name, b) ∷ rest) =
    oldest_key (if ltb b.last_seen seen then some (name, b.last_seen) else some (key, seen)) rest

unfoldable pub evict_if_necessary : ℕ → List (Text × Bucket) → List (Text × Bucket)
unfolding oldest_key keep
evict_if_necessary max_keys buckets =
    if ltb (length buckets) max_keys then buckets else elim (oldest_key none buckets) [
      | none ↦ buckets
      | some (key, seen) ↦ keep (λ b. not (b.0 == key)) buckets
    ]

pub data Verdict : Type 0 where
  allowed : Verdict
  refused : (retry_after_seconds : ℕ) → Verdict

-- `Math.min(capacity, tokens + elapsed * ratePerMinute / 60000)`
abbrev pub refilled : ℕ → ℕ → Bucket → ℕ
refilled rate now b = min (rate * token) (b.tokens + (now - b.last_refill) * rate)

-- A request at a bucket: whether it passes, and the bucket after it.
unfoldable pub take_token : ℕ → ℕ → Bucket → Verdict × Bucket
take_token rate now b =
    let tokens = refilled rate now b in
    if leb token tokens
    then (allowed, record { tokens = tokens - token; last_refill = now; last_seen = now })
    else (
      refused (max 1 ((token - tokens + (1000 * rate - 1)) / (1000 * rate))),
      record { tokens = tokens; last_refill = now; last_seen = now },
    )

abbrev pub new_bucket : ℕ → ℕ → Bucket
new_bucket rate now = record { tokens = rate * token; last_refill = now; last_seen = now }

-- The bucket of a request, and the buckets that are left if one had to go for a new one.
abbrev pub opened : Option Bucket → ℕ → Limiter → Bucket × List (Text × Bucket)
opened none now limiter =
    (new_bucket limiter.rate_per_minute now, evict_if_necessary limiter.max_keys limiter.buckets)
opened (some b) now limiter = (b, limiter.buckets)

abbrev pub served : Text → ℕ → Limiter → Bucket × List (Text × Bucket) → Verdict × Limiter
served name now limiter (bucket, others) = (
  (take_token limiter.rate_per_minute now bucket).0,
  record limiter {
    buckets = set_bucket name (take_token limiter.rate_per_minute now bucket).1 others;
  },
)

abbrev pub normalized_key : Text → Text
normalized_key key = if leb (length key) 256 then key else codes "invalid-key"

-- `consume` of a string, at the time that `now()` gives.
unfoldable pub consume : Text → ℕ → Limiter → Verdict × Limiter
unfolding bucket_of set_bucket evict_if_necessary take_token
consume key now limiter =
    served (normalized_key key) now limiter
      (opened (bucket_of (normalized_key key) limiter.buckets) now limiter)

-- `boundedRate`; `none` where the variable is no string.
unfoldable pub bounded_rate : Option Text → ℕ → ℕ
unfolding every read
bounded_rate none fallback = fallback
bounded_rate (some s) fallback =
    if leb 1 (length s)
      && leb (length s) 6
      && every is_digit s
      && leb 10 (read s)
      && leb (read s) 60000
    then read s
    else fallback

-- `requestPeerAddress` of the address that the socket or the connection has, if it is a string.
unfoldable pub request_peer_address : Option Text → Text
request_peer_address none = codes "unknown-peer"
request_peer_address (some s) =
    if ltb 0 (length s) && leb (length s) 128 then s else codes "unknown-peer"

abbrev pub max_tracked_keys : ℕ
max_tracked_keys = 10000

-- A limiter that has seen no request.
abbrev pub new_limiter : ℕ → ℕ → Limiter
new_limiter rate max_keys = record { rate_per_minute = rate; max_keys = max_keys; buckets = [] }

pub record RateLimits : Type 0 where
  pub unauthenticated : Limiter
  pub authenticated : Limiter

-- `createAPIRateLimits`, from the two variables of the environment.
unfoldable pub create_api_rate_limits : Option Text → Option Text → RateLimits
unfolding bounded_rate
create_api_rate_limits unauthenticated authenticated = record {
  unauthenticated = new_limiter (bounded_rate unauthenticated 300) max_tracked_keys;
  authenticated = new_limiter (bounded_rate authenticated 1200) max_tracked_keys;
}

unfoldable pub consume_peer : Option Text → ℕ → RateLimits → Verdict × RateLimits
unfolding consume request_peer_address
consume_peer address now limits =
    let (verdict, after) = consume (request_peer_address address) now limits.unauthenticated in
    (verdict, record limits { unauthenticated = after })

-- An empty identifier counts as none.
abbrev pub user_key : Text → Text
user_key [] = codes "missing-user"
user_key (c ∷ cs) = c ∷ cs

unfoldable pub consume_user : Text → ℕ → RateLimits → Verdict × RateLimits
unfolding consume
consume_user user_id now limits =
    let (verdict, after) = consume (user_key user_id) now limits.authenticated in
    (verdict, record limits { authenticated = after })
