-- ===== src/Idempotency/Reservations.antt =====
-- The stored reservation of an idempotent operation, its checks and its completion.
use titra.Common.{
  ℕ, zero, ◌+◌, ◌*◌, Bool, true, false, not, ◌&&◌, ◌||◌, Option, none, some, List, [], ◌∷◌, ◌++◌,
  Text, codes, ℕ_eq, List_eq, ◌==◌, leb, if◌then◌else◌, length, every, Result, ok, throw,
}
use titra.Common.Collection.{Update}

pub data IdempotencyError : Type 0 where
  invalid_idempotency_key type_error idempotency_state_invalid : IdempotencyError
  idempotency_key_reused idempotency_outcome_unknown driver_error : IdempotencyError
  -- An error that a callback threw.
  cause : ℕ → IdempotencyError

abbrev pub idempotency_version : ℕ
idempotency_version = 1

abbrev pub default_retention_seconds : ℕ
default_retention_seconds = 7 * 24 * 60 * 60

abbrev pub default_pending_retention_seconds : ℕ
default_pending_retention_seconds = 30 * 24 * 60 * 60

abbrev pub idempotency_expiry_grace_seconds : ℕ
idempotency_expiry_grace_seconds = 24 * 60 * 60

-- `/^[\x21-\x7e]+$/` with 16 to 128 characters.
unfoldable pub validate_idempotency_key : Text → Bool
unfolding every
validate_idempotency_key s =
    leb 16 (length s) && leb (length s) 128 && every (λ c. leb 0x21 c && leb c 0x7e) s

abbrev is_lower : ℕ → Bool
is_lower c = leb b'a' c && leb c b'z'

-- `/^[a-z][a-z0-9.:-]{0,63}$/`
unfoldable pub validate_operation : Text → Bool
unfolding every
validate_operation [] = false
validate_operation (c ∷ s) =
    is_lower c
    && leb (length s) 63
    && every (λ d. is_lower d || (leb b'0' d && leb d b'9') || d == b'.' || d == b':' || d == b'-')
        s

pub data Status : Type 0 where
  reserved completed unsupported : Status

-- A date that is missing or invalid is `none`, as is a result that is no object and a resource
-- identifier that is no string.
pub record Reservation : Type 0 where
  pub id : Text
  pub version : ℕ
  pub user_id : Text
  pub operation : Text
  pub fingerprint : Text
  pub resource_id : Option Text
  pub status : Status
  pub result : Option Text
  pub replay_expires_at : Option ℕ
  pub expires_at : Option ℕ

-- `reservationIdentity`
pub record Identity : Type 0 where
  pub document_id : Text
  pub user_id : Text
  pub operation : Text
  pub fingerprint : Text

abbrev nul : List ℕ
nul = zero ∷ []

-- `idempotencyDocumentId`; the hash is a library's.
unfoldable pub idempotency_document_id : (Text → Text) → Text → Text → Text → Text
idempotency_document_id sha256 user_id operation key =
    sha256 (codes "titra-api-idempotency-v1" ++ nul ++ user_id ++ nul ++ operation ++ nul ++ key)

abbrev has_resource : Option Text → Bool
has_resource none = false
has_resource (some []) = false
has_resource (some (_ ∷ _)) = true

unfoldable pub has_identity : Identity → Reservation → Bool
has_identity identity d =
    d.id == identity.document_id
    && d.version == idempotency_version
    && d.user_id == identity.user_id
    && d.operation == identity.operation
    && d.fingerprint == identity.fingerprint
    && has_resource d.resource_id

-- A completed reservation keeps its answer longer than it promises to.
unfoldable pub has_expiry : Option ℕ → Option ℕ → Bool
has_expiry (some replay_expires_at) (some expires_at) = not (leb expires_at replay_expires_at)
has_expiry _ _ = false

unfoldable pub validate_status : Status → Reservation → Result IdempotencyError Reservation
unfolding has_expiry
validate_status reserved d = ok d
validate_status completed d =
    if has_expiry d.replay_expires_at d.expires_at then ok d else throw idempotency_state_invalid
validate_status unsupported d = throw idempotency_state_invalid

unfoldable pub validate_reservation :
    Identity → Option Reservation → Result IdempotencyError Reservation
unfolding has_identity validate_status
validate_reservation identity none = throw idempotency_state_invalid
validate_reservation identity (some d) =
    if has_identity identity d
    then validate_status d.status d
    else if d.fingerprint == identity.fingerprint
    then throw idempotency_state_invalid
    else throw idempotency_key_reused

unfoldable pub validate_result : Option Text → Result IdempotencyError Text
validate_result none = throw type_error
validate_result (some r) = ok r

unfoldable pub is_reserved : Status → Bool
is_reserved reserved = true
is_reserved _ = false

unfoldable pub add_seconds : ℕ → ℕ → ℕ
add_seconds t seconds = t + seconds * 1000

unfoldable pub complete_modifier : Text → ℕ → ℕ → Reservation → Reservation
complete_modifier result replay_expires_at expires_at d = record d {
  status = completed;
  result = some result;
  replay_expires_at = some replay_expires_at;
  expires_at = some expires_at;
}

-- `complete` of the store.
unfoldable pub complete_update : Identity → Text → ℕ → ℕ → Update Reservation
unfolding is_reserved complete_modifier
complete_update identity result replay_expires_at expires_at = record {
  selector = λ d.
      d.id == identity.document_id && d.fingerprint == identity.fingerprint && is_reserved d.status;
  modifier = λ d. some (complete_modifier result replay_expires_at expires_at d);
}

-- `candidate`
unfoldable pub candidate : Identity → Text → ℕ → ℕ → Reservation
unfolding add_seconds
candidate identity resource_id now pending_retention = record {
  id = identity.document_id;
  version = idempotency_version;
  user_id = identity.user_id;
  operation = identity.operation;
  fingerprint = identity.fingerprint;
  resource_id = some resource_id;
  status = reserved;
  result = none;
  replay_expires_at = none;
  expires_at = some (add_seconds now (pending_retention + idempotency_expiry_grace_seconds));
}
