-- ===== src/Idempotency/Execution.antt =====
-- `executeIdempotentCreate`. `clock` is read at most twice. The fingerprint of the request and the
-- generated resource identifier are arguments.
use titra.Common.{
  ℕ, Bool, true, false, not, ◌&&◌, Option, none, some, [], ◌∷◌, Text, leb, Result, ok, throw,
  throw_if, ◌>>◌,
}
use titra.Common.Collection.{Collection, InsertReply, inserted, duplicate, insert_rejected}
use titra.Revision.{max_safe}
use titra.Idempotency.Reservations.{
  IdempotencyError, type_error, invalid_idempotency_key, driver_error, cause,
  validate_idempotency_key, validate_operation, Status, completed, Reservation, Identity,
  idempotency_document_id, validate_reservation, candidate,
}
use titra.Idempotency.Resumption.{
  Retention, Outcome, or_empty, completed_response, complete_reservation, resume_reservation,
}

abbrev is_empty : Text → Bool
is_empty [] = true
is_empty (_ ∷ _) = false

unfoldable pub validate_request :
    Text → Text → Text → Retention → Result IdempotencyError (Unit {0})
unfolding validate_idempotency_key validate_operation
validate_request key user_id operation settings = do
  throw_if (not (validate_idempotency_key key)) invalid_idempotency_key
  throw_if (not (validate_operation operation)) type_error
  throw_if
      (not (
        leb 1 settings.retention
        && leb settings.retention settings.pending_retention
        && leb settings.pending_retention max_safe))
      type_error
  throw_if (is_empty user_id) type_error

module _ (store : Collection Reservation) {World : Type 0}
    (recover : Text → World → Result ℕ (Option Text) × World)
    (before_create : World → Result ℕ (Unit {0}) × World) where
  open store use {Db, find, find_one_and_update, insert_one}

  -- The request inserted the reservation, or found that another one had.
  unfoldable pub after_reserve :
      (Text → World → Result ℕ (Option Text) × World)
      → Identity
      → ℕ
      → Option ℕ
      → Reservation
      → InsertReply
      → (ℕ → Db → Db)
      → Db
      → World
      → Outcome store recover before_create
  unfolding resume_reservation validate_reservation
  after_reserve create identity retention now fresh inserted others db world =
      resume_reservation store recover before_create create identity retention now true false
        (validate_reservation identity (some fresh)) others db world
  after_reserve create identity retention now fresh duplicate others db world =
      let read = others 4 db in
      resume_reservation store recover before_create create identity retention now false true
        (validate_reservation identity (find read)) others read world
  after_reserve create identity retention now fresh insert_rejected others db world =
      (throw driver_error, db, world)

  unfoldable pub reserve_new :
      (Text → World → Result ℕ (Option Text) × World)
      → Identity
      → Retention
      → Text
      → (clock : ℕ → Option ℕ) → Option ℕ
      → (ℕ → Db → Db)
      → Db
      → World
      → Outcome store recover before_create
  unfolding after_reserve candidate
  reserve_new create identity settings generated clock none others db world =
      (throw type_error, db, world)
  reserve_new create identity settings [] clock (some reserved_at) others db world =
      (throw type_error, db, world)
  reserve_new create identity settings (g ∷ gs) clock (some reserved_at) others db world =
      let fresh = candidate identity (g ∷ gs) reserved_at settings.pending_retention in
      let (reply, after) = insert_one fresh (others 1 db) in
      after_reserve create identity settings.retention (clock 1) fresh reply others after world

  -- After a failed guard, only a resource that is there already is answered.
  unfoldable pub raced_recovered :
      Identity
      → ℕ
      → Option ℕ
      → ℕ
      → Result ℕ (Option Text) × World
      → (ℕ → Db → Db)
      → Db
      → Outcome store recover before_create
  unfolding complete_reservation
  raced_recovered identity retention now error (throw e, world) others db =
      (throw (cause e), db, world)
  raced_recovered identity retention now error (ok none, world) others db =
      (throw (cause error), db, world)
  raced_recovered identity retention now error (ok (some result), world) others db =
      complete_reservation store recover before_create identity retention now (some result) true
        others db world

  unfoldable pub raced_status :
      Identity
      → ℕ
      → Option ℕ
      → ℕ
      → Reservation
      → Status
      → (ℕ → Db → Db)
      → Db
      → World
      → Outcome store recover before_create
  unfolding completed_response raced_recovered
  raced_status identity retention now error d completed others db world =
      (completed_response d, db, world)
  raced_status identity retention now error d status others db world =
      raced_recovered identity retention now error (recover (or_empty d.resource_id) world) others
        db

  unfoldable pub raced_checked :
      Identity
      → ℕ
      → Option ℕ
      → ℕ
      → Result IdempotencyError Reservation
      → (ℕ → Db → Db)
      → Db
      → World
      → Outcome store recover before_create
  unfolding raced_status
  raced_checked identity retention now error (throw e) others db world = (throw e, db, world)
  raced_checked identity retention now error (ok d) others db world =
      raced_status identity retention now error d d.status others db world

  unfoldable pub raced_read :
      Identity
      → ℕ
      → Option ℕ
      → ℕ
      → Option Reservation
      → (ℕ → Db → Db)
      → Db
      → World
      → Outcome store recover before_create
  unfolding raced_checked validate_reservation
  raced_read identity retention now error none others db world = (throw (cause error), db, world)
  raced_read identity retention now error (some d) others db world =
      raced_checked identity retention now error (validate_reservation identity (some d)) others db
        world

  unfoldable pub guarded :
      (Text → World → Result ℕ (Option Text) × World)
      → Identity
      → Retention
      → Text
      → (clock : ℕ → Option ℕ) → Result ℕ (Unit {0}) × World
      → (ℕ → Db → Db)
      → Db
      → Outcome store recover before_create
  unfolding reserve_new raced_read
  guarded create identity settings generated clock (throw e, world) others db =
      let read = others 1 db in
      raced_read identity settings.retention (clock 0) e (find read) others read world
  guarded create identity settings generated clock (ok u, world) others db =
      reserve_new create identity settings generated clock (clock 0) others db world

  -- The first read comes before the guards, so that what was created stays answerable.
  unfoldable pub execute_read :
      (Text → World → Result ℕ (Option Text) × World)
      → Identity
      → Retention
      → Text
      → (clock : ℕ → Option ℕ) → Option Reservation
      → (ℕ → Db → Db)
      → Db
      → World
      → Outcome store recover before_create
  unfolding guarded resume_reservation validate_reservation
  execute_read create identity settings generated clock none others db world =
      guarded create identity settings generated clock (before_create world) others db
  execute_read create identity settings generated clock (some d) others db world =
      resume_reservation store recover before_create create identity settings.retention (clock 0)
        false true (validate_reservation identity (some d)) others db world

  unfoldable pub execute_checked :
      (Text → World → Result ℕ (Option Text) × World)
      → Identity
      → Retention
      → Text
      → (clock : ℕ → Option ℕ) → Result IdempotencyError (Unit {0})
      → (ℕ → Db → Db)
      → Db
      → World
      → Outcome store recover before_create
  unfolding execute_read
  execute_checked create identity settings generated clock (throw e) others db world =
      (throw e, db, world)
  execute_checked create identity settings generated clock (ok u) others db world =
      let read = others 0 db in
      execute_read create identity settings generated clock (find read) others read world

  unfoldable pub execute_idempotent_create :
      (sha256 : Text → Text)
      → (Text → World → Result ℕ (Option Text) × World)
      → (key user_id operation fingerprint : Text) → Retention
      → Text
      → (clock : ℕ → Option ℕ) → (ℕ → Db → Db)
      → Db
      → World
      → Outcome store recover before_create
  unfolding execute_checked validate_request idempotency_document_id
  execute_idempotent_create sha256 create key user_id operation fingerprint settings generated
        clock =
      execute_checked create
        (record {
          document_id = idempotency_document_id sha256 user_id operation key;
          user_id = user_id;
          operation = operation;
          fingerprint = fingerprint;
        })
        settings generated clock (validate_request key user_id operation settings)
