-- ===== src/Idempotency/Resumption.antt =====
-- `resumeReservation` and `completeReservation` of `executeIdempotentCreate`. The callbacks act on a
-- world of their own; `others k` is what other requests do to the reservation before a call of the
-- store: 0 the first `find`, 1 the `reserve` or the `find` after a failed guard, 2 `complete`, 3 the
-- `find` after it, 4 the `find` after a duplicate.
use titra.Common.{ℕ, Bool, true, false, Option, none, some, [], Text, Result, ok, throw, ◌>>=◌}
use titra.Common.Collection.{Collection, FoundReply, returned, refused}
use titra.Idempotency.Reservations.{
  IdempotencyError, type_error, idempotency_outcome_unknown, driver_error, cause,
  idempotency_expiry_grace_seconds, Status, completed, Reservation, Identity, validate_reservation,
  validate_result, add_seconds, complete_update,
}

pub record Answer : Type 0 where
  pub result : Text
  pub replayed : Bool
  pub resource_id : Option Text
  pub expires_at : Option ℕ

-- The settings: `retentionSeconds` and `pendingRetentionSeconds`.
pub record Retention : Type 0 where
  pub retention : ℕ
  pub pending_retention : ℕ

unfoldable pub stored_answer : Bool → Reservation → Result IdempotencyError Answer
unfolding validate_result
stored_answer replayed d = do
  result ← validate_result d.result
  ok (record {
    result = result;
    replayed = replayed;
    resource_id = d.resource_id;
    expires_at = d.replay_expires_at;
  })

-- `completedResponse`
unfoldable pub completed_response : Reservation → Result IdempotencyError Answer
unfolding stored_answer
completed_response d = stored_answer true d

unfoldable pub confirmed : Status → Bool → Reservation → Result IdempotencyError Answer
unfolding stored_answer
confirmed completed replayed d = stored_answer replayed d
confirmed _ replayed d = throw idempotency_outcome_unknown

abbrev pub or_empty : Option Text → Text
or_empty none = []
or_empty (some s) = s

module _ (store : Collection Reservation) {World : Type 0}
    (recover : Text → World → Result ℕ (Option Text) × World)
    (before_create : World → Result ℕ (Unit {0}) × World) where
  open store use {Db, find, find_one_and_update, insert_one}

  abbrev pub Outcome : Type 0
  Outcome = Result IdempotencyError Answer × Db × World

  unfoldable pub confirm : Identity → Bool → Option Reservation → Result IdempotencyError Answer
  unfolding confirmed validate_reservation
  confirm identity replayed d =
      validate_reservation identity d >>= λ stored. confirmed stored.status replayed stored

  -- What follows the store's `complete`, which gave back a document or `null`.
  unfoldable pub after_complete :
      Identity
      → Bool
      → FoundReply Reservation
      → (Db → Db)
      → Db
      → Result IdempotencyError Answer × Db
  unfolding confirm
  after_complete identity replayed refused others db = (throw driver_error, db)
  after_complete identity replayed (returned (some d)) others db =
      (confirm identity replayed (some d), db)
  after_complete identity replayed (returned none) others db =
      let read = others db in (confirm identity replayed (find read), read)

  -- `completeReservation`
  unfoldable pub complete_reservation :
      Identity → ℕ → Option ℕ → Option Text → Bool → (ℕ → Db → Db) → Db → World → Outcome
  unfolding after_complete complete_update add_seconds
  complete_reservation identity retention now none replayed others db world =
      (throw type_error, db, world)
  complete_reservation identity retention none (some result) replayed others db world =
      (throw type_error, db, world)
  complete_reservation identity retention (some now) (some result) replayed others db world =
      let replay_expires_at = add_seconds now retention in
      let expires_at = add_seconds replay_expires_at idempotency_expiry_grace_seconds in
      let u = complete_update identity result replay_expires_at expires_at in
      let (reply, after) = find_one_and_update u (others 2 db) in
      let (answer, left) = after_complete identity replayed reply (others 3) after in
      (answer, left, world)

  -- One authoritative read after `create` threw.
  unfoldable pub recover_created :
      Identity
      → ℕ
      → Option ℕ
      → Bool
      → ℕ
      → Result ℕ (Option Text) × World
      → (ℕ → Db → Db)
      → Db
      → Outcome
  unfolding complete_reservation
  recover_created identity retention now replayed error (throw e, world) others db =
      (throw (cause e), db, world)
  recover_created identity retention now replayed error (ok none, world) others db =
      (throw (cause error), db, world)
  recover_created identity retention now replayed error (ok (some result), world) others db =
      complete_reservation identity retention now (some result) replayed others db world

  unfoldable pub after_create :
      Identity
      → ℕ
      → Option ℕ
      → Text
      → Bool
      → Result ℕ (Option Text) × World
      → (ℕ → Db → Db)
      → Db
      → Outcome
  unfolding recover_created complete_reservation
  after_create identity retention now resource_id replayed (throw e, world) others db =
      recover_created identity retention now replayed e (recover resource_id world) others db
  after_create identity retention now resource_id replayed (ok result, world) others db =
      complete_reservation identity retention now result replayed others db world

  -- `resumeReservation` after its first `recover`. Only the request that inserted the reservation,
  -- whose guards have passed, is allowed to create.
  unfoldable pub resume_recovered :
      (Text → World → Result ℕ (Option Text) × World)
      → Identity
      → ℕ
      → Option ℕ
      → Text
      → Bool
      → Bool
      → Result ℕ (Option Text) × World
      → (ℕ → Db → Db)
      → Db
      → Outcome
  unfolding after_create complete_reservation
  resume_recovered create identity retention now resource_id allow_create replayed (throw e, world)
        others db =
      (throw (cause e), db, world)
  resume_recovered create identity retention now resource_id allow_create replayed
        (ok (some result), world) others db =
      complete_reservation identity retention now (some result) replayed others db world
  resume_recovered create identity retention now resource_id false replayed (ok none, world) others
        db =
      (throw idempotency_outcome_unknown, db, world)
  resume_recovered create identity retention now resource_id true replayed (ok none, world) others
        db =
      after_create identity retention now resource_id replayed (create resource_id world) others db

  unfoldable pub resume_status :
      (Text → World → Result ℕ (Option Text) × World)
      → Identity
      → ℕ
      → Option ℕ
      → Bool
      → Bool
      → Reservation
      → Status
      → (ℕ → Db → Db)
      → Db
      → World
      → Outcome
  unfolding completed_response resume_recovered
  resume_status create identity retention now allow_create replayed d completed others db world =
      (completed_response d, db, world)
  resume_status create identity retention now allow_create replayed d status others db world =
      let resource_id = or_empty d.resource_id in
      resume_recovered create identity retention now resource_id allow_create replayed
        (recover resource_id world) others db

  -- A reservation that was read or inserted is checked and then resumed.
  unfoldable pub resume_reservation :
      (Text → World → Result ℕ (Option Text) × World)
      → Identity
      → ℕ
      → Option ℕ
      → Bool
      → Bool
      → Result IdempotencyError Reservation
      → (ℕ → Db → Db)
      → Db
      → World
      → Outcome
  unfolding resume_status
  resume_reservation create identity retention now allow_create replayed (throw e) others db world =
      (throw e, db, world)
  resume_reservation create identity retention now allow_create replayed (ok d) others db world =
      resume_status create identity retention now allow_create replayed d d.status others db world
