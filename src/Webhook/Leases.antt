-- ===== src/Webhook/Leases.antt =====
-- Any sequence of the store's writes on one receipt: leases exclude each other, and a processed
-- event stays processed.
use titra.Common.{
  ℕ, ◌+◌, ◌<◌, ◌≡◌, ◌≢◌, refl, sym, ◌∙◌, true, Option, some, arith, Text, ℕ_eq, List_eq, Option_eq,
  ==→≡, ==_self,
}
use mathlib.Core.Option.{some-injective}
use titra.Webhook.Receipts.{
  processing_lease_ms, Status, pending, processed, failed, Receipt, is_status, lease_selector,
  reclaim_selector, reclaim_modifier, touch, complete_modifier, fail_modifier,
}
use titra.Webhook.Claims.{IsFree, was_failed, was_lapsed, reclaim_selector-IsFree}

-- One write at the instant `now` by the writer's clock, where the deliveries that settle a receipt
-- have tokens among the allowed ones.
pub data Write (allowed : Text → Type 0) (now : ℕ) (r : Receipt) : Receipt → Type 0 where
  touched : Write allowed now r (touch now r)
  reclaimed :
      (existing : Receipt) (digest token : Text)
      → reclaim_selector existing digest now r ≡ true
      → Write allowed now r (reclaim_modifier token now r)
  completed :
      (token outcome : Text)
      → allowed token
      → lease_selector token r ≡ true
      → Write allowed now r (complete_modifier outcome now r)
  gave_up :
      (token code : Text)
      → allowed token
      → lease_selector token r ≡ true
      → Write allowed now r (fail_modifier code now r)

-- Writes by writers whose clocks stay below a limit.
pub data Writes (allowed : Text → Type 0) (limit : ℕ) (r : Receipt) : Receipt → Type 0 where
  none_yet : Writes allowed limit r r
  one_more :
      (now : ℕ) {s t : Receipt}
      → Writes allowed limit r s
      → now < limit
      → Write allowed now s t
      → Writes allowed limit r t

-- The receipt records a processed event with this outcome and completion time.
pub record IsProcessed (outcome : Option Text) (at : Option ℕ) (r : Receipt) : Type 0 where
  pub done : r.status ≡ processed
  pub same_outcome : r.outcome ≡ outcome
  pub same_time : r.completed_at ≡ at

pending_status : (s : Status) → is_status s pending ≡ true → s ≡ pending
unfolding is_status
pending_status pending h = refl
pending_status processed h = cc
pending_status failed h = cc

lease_selector-pending :
    (token : Text) (r : Receipt)
    → lease_selector token r ≡ true
    → (r.status ≡ pending) × (r.lease_token ≡ some token)
unfolding lease_selector
lease_selector-pending token r e =
    (pending_status r.status (ground arith), ==→≡ r.lease_token (some token) (ground arith))

unleased_when_processed :
    {outcome : Option Text} {at : Option ℕ} (r : Receipt) (token : Text)
    → IsProcessed outcome at r
    → lease_selector token r ≢ true
unleased_when_processed r token p e = cc (sym (lease_selector-pending token r e).0 ∙ p.done)

busy_when_processed :
    {outcome : Option Text} {at : Option ℕ} {now : ℕ} (r : Receipt)
    → IsProcessed outcome at r
    → ¬ IsFree now r
busy_when_processed r p (was_failed e) = cc (sym e ∙ p.done)
busy_when_processed r p (was_lapsed until e _ _) = cc (sym e ∙ p.done)

Write-IsProcessed :
    {allowed : Text → Type 0} {now : ℕ} {outcome : Option Text} {at : Option ℕ} {r s : Receipt}
    → Write allowed now r s
    → IsProcessed outcome at r
    → IsProcessed outcome at s
unfolding touch
Write-IsProcessed touched p = record {
  done = p.done;
  same_outcome = p.same_outcome;
  same_time = p.same_time;
}
Write-IsProcessed {now = now} {r = r} (reclaimed existing digest token fits) p =
    absurd (busy_when_processed r p (reclaim_selector-IsFree existing digest now r fits).0)
Write-IsProcessed {r = r} (completed token outcome _ fits) p =
    absurd (unleased_when_processed r token p fits)
Write-IsProcessed {r = r} (gave_up token code _ fits) p =
    absurd (unleased_when_processed r token p fits)

-- An event is processed once: when its receipt is marked as processed, no sequence of claims,
-- completions and failures reopens it or changes its outcome or its time of completion.
pub Writes-IsProcessed :
    {allowed : Text → Type 0} {limit : ℕ} {outcome : Option Text} {at : Option ℕ} {r s : Receipt}
    → Writes allowed limit r s
    → IsProcessed outcome at r
    → IsProcessed outcome at s
Writes-IsProcessed none_yet p = p
Writes-IsProcessed (one_more now ws h w) p = Write-IsProcessed w (Writes-IsProcessed ws p)

-- The lease of a token until a limit.
pub record IsHeld (token : Text) (limit : ℕ) (r : Receipt) : Type 0 where
  pub waits : r.status ≡ pending
  pub ours : r.lease_token ≡ some token
  pub runs : r.lease_until ≡ some limit

busy_when_held :
    {token : Text} {limit now : ℕ} (r : Receipt)
    → IsHeld token limit r
    → now < limit
    → ¬ IsFree now r
busy_when_held r held near (was_failed e) = cc (sym e ∙ held.waits)
busy_when_held r held near (was_lapsed until _ e lapsed) =
    omega (arith, near, lapsed, some-injective _ _ (sym e ∙ held.runs))

theirs :
    {token other : Text} {limit : ℕ} (r : Receipt)
    → IsHeld token limit r
    → lease_selector other r ≡ true
    → other ≡ token
theirs r held fits = some-injective _ _ (sym (lease_selector-pending _ r fits).1 ∙ held.ours)

Write-IsHeld :
    {token : Text} {now limit : ℕ} {r s : Receipt}
    → Write (λ other. other ≢ token) now r s
    → now < limit
    → IsHeld token limit r
    → IsHeld token limit s
unfolding touch
Write-IsHeld touched near held = record { waits = held.waits; ours = held.ours; runs = held.runs }
Write-IsHeld {now = now} {r = r} (reclaimed existing digest other fits) near held =
    absurd (busy_when_held r held near (reclaim_selector-IsFree existing digest now r fits).0)
Write-IsHeld {r = r} (completed other outcome differs fits) near held =
    absurd (differs (theirs r held fits))
Write-IsHeld {r = r} (gave_up other code differs fits) near held =
    absurd (differs (theirs r held fits))

Writes-IsHeld :
    {token : Text} {limit : ℕ} {r s : Receipt}
    → Writes (λ other. other ≢ token) limit r s
    → IsHeld token limit r
    → IsHeld token limit s
Writes-IsHeld none_yet held = held
Writes-IsHeld (one_more now ws near w) held = Write-IsHeld w near (Writes-IsHeld ws held)

-- For one minute after a delivery took a receipt over, no other delivery takes it or settles it:
-- after any writes of deliveries with other tokens, by clocks before that minute is over, the
-- completion of the delivery that took the receipt over finds it.
pub lease_excludes_others :
    (token : Text) (now : ℕ) (r s : Receipt)
    → Writes (λ other. other ≢ token) (now + processing_lease_ms) (reclaim_modifier token now r) s
    → lease_selector token s ≡ true
unfolding reclaim_modifier lease_selector is_status
lease_excludes_others token now r s ws =
    let held = Writes-IsHeld ws (record { waits = refl; ours = refl; runs = refl }) in
    rw (held.waits, held.ours) (==_self (some token))
