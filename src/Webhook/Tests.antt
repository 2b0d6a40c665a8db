-- ===== src/Webhook/Tests.antt =====
-- Deliveries of one webhook event, and the theorems at these runs.
use titra.Common.{
  ℕ, ◌≡◌, refl, ap, true, Option, none, some, arith, Text, codes, beq_list, beq_option, held, ok,
  throw,
}
use titra.Common.Collection.{single}
use titra.Webhook.Receipts.{
  lease_lost, pending, Receipt, receipt_expiry, reclaim_modifier, complete_modifier, lease_selector,
  touch,
}
use titra.Webhook.Store.{Claim, claimed, new_receipt, in_progress, claim, complete}
use titra.Webhook.Claims.{Taken, claim-claimed}
use titra.Webhook.Leases.{
  touched, none_yet, one_more, IsProcessed, Writes-IsProcessed, lease_excludes_others,
}

abbrev digest : Text
digest = codes "00112233445566778899aabbccddeeff00112233445566778899aabbccddeeff"

abbrev delivery : Claim
delivery = record {
  interface_id = codes "github";
  event_id = codes "event-1";
  event_timestamp = some 500;
  payload_digest = digest;
  configuration_revision = 3;
}

abbrev receipt : Receipt
receipt = record {
  id = 1;
  event_timestamp = some 500;
  payload_digest = digest;
  configuration_revision = held 3;
  status = pending;
  lease_token = some (codes "a");
  lease_until = some 61_000;
  created_at = 1000;
  updated_at = 1000;
  expires_at = 691_201_000;
  completed_at = none;
  outcome = none;
  error_code = none;
}

first_claim :
    claim (single Receipt) delivery 1 (codes "a") (some 1000) (λ _ db. db) none
    ≡ (ok (claimed (codes "a") 500), some receipt)
unfolding claim new_receipt receipt_expiry
first_claim = refl

-- A second delivery meanwhile only extends the receipt.
second_claim :
    claim (single Receipt) delivery 2 (codes "b") (some 3000) (λ _ db. db) (some receipt)
    ≡ (ok in_progress, some (touch 3000 receipt))
unfolding claim touch beq_list beq_option
second_claim = refl

-- A delivery after the lease has lapsed takes the receipt over, and the first token is of no use.
third_claim :
    claim (single Receipt) delivery 3 (codes "c") (some 61_000) (λ _ db. db) (some receipt)
    ≡ (ok (claimed (codes "c") 500), some (reclaim_modifier (codes "c") 61_000 receipt))
unfolding claim reclaim_modifier beq_list beq_option
third_claim = refl

late_completion :
    (complete
      (single Receipt)
      (codes "a")
      (codes "created")
      (some 62_000)
      (λ db. db)
      (some (reclaim_modifier (codes "c") 61_000 receipt))).0
    ≡ throw lease_lost
unfolding complete reclaim_modifier beq_list beq_option
late_completion = refl

claim-claimed_example :
    (timestamp : ℕ) × (now : ℕ) × (◌≡◌ {A = Option ℕ} (some 1000) (some now))
    × (codes "a" ≡ codes "a")
    × Taken delivery 1
        (codes "a")
        now
        500
        none
        (some (new_receipt 1 delivery (codes "a") timestamp now))
        (claim (single Receipt) delivery 1 (codes "a") (some 1000) (λ _ db. db) none).1
claim-claimed_example =
    claim-claimed (single Receipt) delivery 1 (codes "a") (some 1000) (λ _ db. db) none
      (ap (λ x. x.0) first_claim)

abbrev finished : Receipt
finished = complete_modifier (codes "created") 2000 receipt

finished-IsProcessed : IsProcessed (some (codes "created")) (some 2000) finished
unfolding complete_modifier
finished-IsProcessed = record { done = refl; same_outcome = refl; same_time = refl }

Writes-IsProcessed_example : IsProcessed (some (codes "created")) (some 2000) (touch 4000 finished)
Writes-IsProcessed_example =
    Writes-IsProcessed {allowed = λ _. Unit} {limit = 5000}
      (one_more 4000 none_yet (omega arith) touched) finished-IsProcessed

lease_excludes_others_example :
    lease_selector (codes "c") (touch 70_000 (reclaim_modifier (codes "c") 61_000 receipt)) ≡ true
lease_excludes_others_example =
    lease_excludes_others (codes "c") 61_000 receipt
      (touch 70_000 (reclaim_modifier (codes "c") 61_000 receipt))
      (one_more 70_000 none_yet (omega arith) touched)
