-- ===== src/Webhook/Store.antt =====
-- `createWebhookReceiptStore`: `claim`, `complete` and `fail`. The token and the new document's `_id`
-- are arguments; `others k` is what other deliveries do before the k-th call of the database.
use titra.Common.{
  ℕ, ◌+◌, Bool, true, false, not, ◌&&◌, ◌||◌, Option, none, some, [], ◌∷◌, Text, ℕ_eq, List_eq,
  Option_eq, ◌==◌, leb, eqb, if◌then◌else◌, length, every, held, Result, ok, throw,
}
use titra.Common.Collection.{
  Collection, Reply, matched, rejected, InsertReply, inserted, duplicate, insert_rejected,
}
use titra.Revision.{max_safe}
use titra.Webhook.Receipts.{
  WebhookError, invalid_claim, invalid_clock, receipt_disappeared, lease_lost, driver_error,
  processing_lease_ms, pending, processed, Status, Receipt, receipt_expiry, same_signed_event,
  stored_configuration_revision, is_leased, touch_processed_update, touch_pending_update,
  reclaim_update, complete_update, fail_update,
}

pub record Claim : Type 0 where
  pub interface_id : Text
  pub event_id : Text
  pub event_timestamp : Option ℕ
  pub payload_digest : Text
  pub configuration_revision : ℕ

pub data Claimed : Type 0 where
  claimed : (lease_token : Text) (event_timestamp : ℕ) → Claimed
  already_processed event_conflict in_progress : Claimed

unfoldable pub is_hex_digit : ℕ → Bool
is_hex_digit c = (leb b'0' c && leb c b'9') || (leb b'a' c && leb c b'f')

-- `/^[0-9a-f]{64}$/`
unfoldable pub is_digest : Text → Bool
unfolding every is_hex_digit
is_digest s = eqb (length s) 64 && every is_hex_digit s

abbrev pub is_empty : Text → Bool
is_empty [] = true
is_empty (_ ∷ _) = false

-- The checks of `claim`, with what they leave valid: the event's timestamp and the clock's reading.
unfoldable pub validate_claim : Claim → Text → Option ℕ → Result WebhookError (ℕ × ℕ)
unfolding is_digest
validate_claim c token now = elim c.event_timestamp [
  | none ↦ throw invalid_claim
  | some event_timestamp ↦ elim now [
    | none ↦ throw invalid_claim
    | some instant ↦
        if not (is_empty c.interface_id)
          && not (is_empty c.event_id)
          && is_digest c.payload_digest
          && leb c.configuration_revision max_safe
          && not (is_empty token)
        then ok (event_timestamp, instant)
        else throw invalid_claim
  ]
]

unfoldable pub new_receipt : ℕ → Claim → Text → ℕ → ℕ → Receipt
unfolding receipt_expiry
new_receipt id c token event_timestamp now = record {
  id = id;
  event_timestamp = some event_timestamp;
  payload_digest = c.payload_digest;
  configuration_revision = held c.configuration_revision;
  status = pending;
  lease_token = some token;
  lease_until = some (now + processing_lease_ms);
  created_at = now;
  updated_at = now;
  expires_at = receipt_expiry now;
  completed_at = none;
  outcome = none;
  error_code = none;
}

-- What `claim` does about the receipt that it found.
pub data Decision : Type 0 where
  conflicts touches_processed touches_pending reclaims : Decision

unfoldable pub decide_lease : Status → Option ℕ → ℕ → Decision
unfolding is_leased
decide_lease pending lease_until now =
    if is_leased lease_until now then touches_pending else reclaims
decide_lease _ lease_until now = reclaims

unfoldable pub decide_status : Claim → ℕ → Receipt → Status → Decision
unfolding decide_lease stored_configuration_revision
decide_status c now existing processed = touches_processed
decide_status c now existing status =
    if stored_configuration_revision existing == some c.configuration_revision
    then decide_lease status existing.lease_until now
    else conflicts

unfoldable pub decide_claim : Claim → ℕ → Receipt → Decision
unfolding decide_status same_signed_event
decide_claim c now existing =
    if same_signed_event existing c.payload_digest
    then decide_status c now existing existing.status
    else conflicts

-- The answer once the update was acknowledged; a rejected update is thrown on.
unfoldable pub answer_touch : Claimed → Reply → Result WebhookError Claimed
answer_touch answer rejected = throw driver_error
answer_touch answer (matched n) = ok answer

-- `affected(result)`; the timestamp is that of the receipt which was read (it has one, since an event
-- without a valid timestamp conflicts).
unfoldable pub answer_reclaim : Text → Option ℕ → Reply → Result WebhookError Claimed
answer_reclaim token event_timestamp rejected = throw driver_error
answer_reclaim token none (matched n) = ok in_progress
answer_reclaim token (some event_timestamp) (matched n) =
    if eqb n 1 then ok (claimed token event_timestamp) else ok in_progress

unfoldable pub answer_complete : Reply → Result WebhookError (Unit {0})
answer_complete rejected = throw driver_error
answer_complete (matched n) = if eqb n 1 then ok tt else throw lease_lost

unfoldable pub answer_fail : Reply → Result WebhookError (Unit {0})
answer_fail rejected = throw driver_error
answer_fail (matched n) = ok tt

module _ (receipts : Collection Receipt) where
  open receipts use {Db, find, insert_one, update_one}

  unfoldable pub claim_decided :
      Claim → Text → ℕ → Receipt → Decision → (Db → Db) → Db → Result WebhookError Claimed × Db
  unfolding touch_processed_update touch_pending_update reclaim_update answer_touch answer_reclaim
  claim_decided c token now existing conflicts others db = (ok event_conflict, db)
  claim_decided c token now existing touches_processed others db =
      let u = touch_processed_update existing c.payload_digest now in
      let (reply, after) = update_one u (others db) in (answer_touch already_processed reply, after)
  claim_decided c token now existing touches_pending others db =
      let u = touch_pending_update existing c.payload_digest now in
      let (reply, after) = update_one u (others db) in (answer_touch in_progress reply, after)
  claim_decided c token now existing reclaims others db =
      let u = reclaim_update existing c.payload_digest token now in
      let (reply, after) = update_one u (others db) in
      (answer_reclaim token existing.event_timestamp reply, after)

  unfoldable pub claim_existing :
      Claim → Text → ℕ → Option Receipt → (Db → Db) → Db → Result WebhookError Claimed × Db
  unfolding claim_decided decide_claim
  claim_existing c token now none others db = (throw receipt_disappeared, db)
  claim_existing c token now (some existing) others db =
      claim_decided c token now existing (decide_claim c now existing) others db

  unfoldable pub claim_inserted :
      Claim → Text → ℕ → ℕ → InsertReply → (ℕ → Db → Db) → Db → Result WebhookError Claimed × Db
  unfolding claim_existing
  claim_inserted c token event_timestamp now inserted others db =
      (ok (claimed token event_timestamp), db)
  claim_inserted c token event_timestamp now insert_rejected others db = (throw driver_error, db)
  claim_inserted c token event_timestamp now duplicate others db =
      let read = others 1 db in claim_existing c token now (find read) (others 2) read

  unfoldable pub claim_valid :
      Claim
      → ℕ
      → Text
      → Result WebhookError (ℕ × ℕ)
      → (ℕ → Db → Db)
      → Db
      → Result WebhookError Claimed × Db
  unfolding claim_inserted new_receipt
  claim_valid c id token (throw e) others db = (throw e, db)
  claim_valid c id token (ok (event_timestamp, now)) others db =
      let (reply, after) = insert_one (new_receipt id c token event_timestamp now) (others 0 db) in
      claim_inserted c token event_timestamp now reply others after

  unfoldable pub claim :
      Claim → ℕ → Text → Option ℕ → (ℕ → Db → Db) → Db → Result WebhookError Claimed × Db
  unfolding claim_valid validate_claim
  claim c id token now = claim_valid c id token (validate_claim c token now)

  unfoldable pub complete :
      Text → Text → Option ℕ → (Db → Db) → Db → Result WebhookError (Unit {0}) × Db
  unfolding complete_update answer_complete
  complete token outcome none others db = (throw invalid_clock, db)
  complete token outcome (some now) others db =
      let (reply, after) = update_one (complete_update token outcome now) (others db) in
      (answer_complete reply, after)

  unfoldable pub fail :
      Text → Text → Option ℕ → (Db → Db) → Db → Result WebhookError (Unit {0}) × Db
  unfolding fail_update answer_fail
  fail token code none others db = (throw invalid_clock, db)
  fail token code (some now) others db =
      let (reply, after) = update_one (fail_update token code now) (others db) in
      (answer_fail reply, after)
