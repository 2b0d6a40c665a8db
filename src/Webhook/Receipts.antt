-- ===== src/Webhook/Receipts.antt =====
-- A receipt of a webhook event, and the updates of it that the store makes. The collection has a
-- unique index on `interfaceId` and `eventId`, which name the document of a receipt.
use titra.Common.{
  ℕ, ◌+◌, ◌*◌, Bool, true, false, ◌&&◌, ◌||◌, Option, none, some, Text, ℕ_eq, List_eq, Option_eq,
  ◌==◌, ltb, leb, if◌then◌else◌, Stored, missing, held, junk,
}
use titra.Common.Collection.{Update}
use titra.Revision.{max_safe}

pub data WebhookError : Type 0 where
  invalid_claim invalid_clock receipt_disappeared lease_lost driver_error : WebhookError

abbrev pub receipt_retention_ms : ℕ
receipt_retention_ms = 7 * 24 * 60 * 60 * 1000

abbrev pub receipt_expiry_grace_ms : ℕ
receipt_expiry_grace_ms = 24 * 60 * 60 * 1000

abbrev pub processing_lease_ms : ℕ
processing_lease_ms = 60 * 1000

pub data Status : Type 0 where
  pending processed failed : Status

-- A date that is not valid, and a field that is not there, is `none`.
pub record Receipt : Type 0 where
  pub id : ℕ
  pub event_timestamp : Option ℕ
  pub payload_digest : Text
  pub configuration_revision : Stored ℕ
  pub status : Status
  pub lease_token : Option Text
  pub lease_until : Option ℕ
  pub created_at : ℕ
  pub updated_at : ℕ
  pub expires_at : ℕ
  pub completed_at : Option ℕ
  pub outcome : Option Text
  pub error_code : Option Text

unfoldable pub receipt_expiry : ℕ → ℕ
receipt_expiry now = now + receipt_retention_ms + receipt_expiry_grace_ms

unfoldable pub max : ℕ → ℕ → ℕ
max m n = if leb m n then n else m

unfoldable pub is_status : Status → Status → Bool
is_status pending pending = true
is_status processed processed = true
is_status failed failed = true
is_status _ _ = false

-- Without a valid timestamp the event is not the same, whatever its digest.
unfoldable pub same_signed_event : Receipt → Text → Bool
same_signed_event existing digest =
    existing.payload_digest == digest
    && elim existing.event_timestamp [ none ↦ false | some _ ↦ true ]

unfoldable pub stored_configuration_revision : Receipt → Option ℕ
stored_configuration_revision existing = elim existing.configuration_revision [
  | missing ↦ some 0
  | held n ↦ if leb n max_safe then some n else none
  | junk _ ↦ none
]

unfoldable pub is_lapsed : Option ℕ → ℕ → Bool
is_lapsed none now = false
is_lapsed (some until) now = leb until now

-- `existing.leaseUntil > now`
unfoldable pub is_leased : Option ℕ → ℕ → Bool
is_leased none now = false
is_leased (some until) now = ltb now until

-- The receipt is still the document that was read, for the same event.
unfoldable pub same_receipt : Receipt → Text → Receipt → Bool
same_receipt existing digest r =
    r.id == existing.id
    && r.payload_digest == digest
    && r.event_timestamp == existing.event_timestamp

unfoldable pub touch : ℕ → Receipt → Receipt
unfolding receipt_expiry max
touch now r = record r { updated_at = now; expires_at = max r.expires_at (receipt_expiry now) }

unfoldable pub touch_processed_update : Receipt → Text → ℕ → Update Receipt
unfolding same_receipt is_status touch
touch_processed_update existing digest now = record {
  selector = λ r. same_receipt existing digest r && is_status r.status processed;
  modifier = λ r. some (touch now r);
}

unfoldable pub touch_pending_update : Receipt → Text → ℕ → Update Receipt
unfolding same_receipt is_status touch
touch_pending_update existing digest now = record {
  selector = λ r.
      same_receipt existing digest r
      && is_status r.status pending
      && r.lease_token == existing.lease_token;
  modifier = λ r. some (touch now r);
}

unfoldable pub reclaim_selector : Receipt → Text → ℕ → Receipt → Bool
unfolding same_receipt is_status is_lapsed
reclaim_selector existing digest now r =
    same_receipt existing digest r
    && (is_status r.status failed || (is_status r.status pending && is_lapsed r.lease_until now))

unfoldable pub reclaim_modifier : Text → ℕ → Receipt → Receipt
unfolding receipt_expiry
reclaim_modifier token now r = record r {
  status = pending;
  lease_token = some token;
  lease_until = some (now + processing_lease_ms);
  updated_at = now;
  expires_at = receipt_expiry now;
  completed_at = none;
  outcome = none;
  error_code = none;
}

unfoldable pub reclaim_update : Receipt → Text → Text → ℕ → Update Receipt
unfolding reclaim_selector reclaim_modifier
reclaim_update existing digest token now = record {
  selector = reclaim_selector existing digest now;
  modifier = λ r. some (reclaim_modifier token now r);
}

-- `status: 'pending', leaseToken`
unfoldable pub lease_selector : Text → Receipt → Bool
unfolding is_status
lease_selector token r = is_status r.status pending && r.lease_token == some token

unfoldable pub complete_modifier : Text → ℕ → Receipt → Receipt
unfolding receipt_expiry max
complete_modifier outcome now r = record r {
  status = processed;
  outcome = some outcome;
  completed_at = some now;
  updated_at = now;
  expires_at = max r.expires_at (receipt_expiry now);
  lease_token = none;
  lease_until = none;
  error_code = none;
}

unfoldable pub complete_update : Text → Text → ℕ → Update Receipt
unfolding lease_selector complete_modifier
complete_update token outcome now = record {
  selector = lease_selector token;
  modifier = λ r. some (complete_modifier outcome now r);
}

unfoldable pub fail_modifier : Text → ℕ → Receipt → Receipt
unfolding receipt_expiry max
fail_modifier code now r = record r {
  status = failed;
  error_code = some code;
  updated_at = now;
  expires_at = max r.expires_at (receipt_expiry now);
  lease_token = none;
  lease_until = none;
}

unfoldable pub fail_update : Text → Text → ℕ → Update Receipt
unfolding lease_selector fail_modifier
fail_update token code now = record {
  selector = lease_selector token;
  modifier = λ r. some (fail_modifier code now r);
}
