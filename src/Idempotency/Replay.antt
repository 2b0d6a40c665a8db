-- ===== src/Idempotency/Replay.antt =====
-- A repeated request creates nothing, and is answered as the first.
use titra.Common.{
  ℕ, ◌≡◌, refl, Bool, true, false, Option, none, some, ◌∷◌, arith, Text, ℕ_eq, List_eq, ==_self,
  Result, ok, throw,
}
use titra.Common.Collection.{Collection}
use titra.Idempotency.Reservations.{
  IdempotencyError, Status, reserved, completed, unsupported, Reservation, Identity, add_seconds,
  candidate, complete_modifier, has_identity, has_expiry, validate_reservation, validate_status,
  idempotency_document_id, idempotency_expiry_grace_seconds,
}
use titra.Idempotency.Resumption.{
  Retention, or_empty, resume_recovered, resume_status, resume_reservation,
}
use titra.Idempotency.Execution.{
  validate_request, execute_read, execute_checked, execute_idempotent_create,
}

-- `reservationIdentity` of a request.
abbrev pub identity_of : (Text → Text) → (key user_id operation fingerprint : Text) → Identity
identity_of sha256 key user_id operation fingerprint = record {
  document_id = idempotency_document_id sha256 user_id operation key;
  user_id = user_id;
  operation = operation;
  fingerprint = fingerprint;
}

-- The reservation that a create leaves when it is completed.
abbrev pub completed_reservation : Identity → Text → ℕ → ℕ → Text → ℕ → Reservation
completed_reservation identity resource_id reserved_at pending_retention result replay_expires_at =
    complete_modifier result replay_expires_at
      (add_seconds replay_expires_at idempotency_expiry_grace_seconds)
      (candidate identity resource_id reserved_at pending_retention)

module _ (store : Collection Reservation) {World : Type 0}
    (recover : Text → World → Result ℕ (Option Text) × World)
    (before_create : World → Result ℕ (Unit {0}) × World) where
  open store use {Db, find}

  resume_recovered-same :
      (create other : Text → World → Result ℕ (Option Text) × World) (identity : Identity)
      (retention : ℕ) (now : Option ℕ) (resource_id : Text) (replayed : Bool)
      (r : Result ℕ (Option Text) × World) (others : ℕ → Db → Db) (db : Db)
      → resume_recovered store recover before_create create identity retention now resource_id false
          replayed r others db
        ≡ resume_recovered store recover before_create other identity retention now resource_id
            false replayed r others db
  unfolding resume_recovered
  resume_recovered-same create other identity retention now id replayed (throw e, world) others db =
      refl
  resume_recovered-same create other identity retention now id replayed (ok (some r), world) others
        db =
      refl
  resume_recovered-same create other identity retention now id replayed (ok none, world) others db =
      refl

  resume_status-same :
      (create other : Text → World → Result ℕ (Option Text) × World) (identity : Identity)
      (retention : ℕ) (now : Option ℕ) (replayed : Bool) (d : Reservation) (status : Status)
      (others : ℕ → Db → Db) (db : Db) (world : World)
      → resume_status store recover before_create create identity retention now false replayed d
          status others db world
        ≡ resume_status store recover before_create other identity retention now false replayed d
            status others db world
  unfolding resume_status
  resume_status-same create other identity retention now replayed d completed others db world = refl
  resume_status-same create other identity retention now replayed d reserved others db world =
      resume_recovered-same create other identity retention now (or_empty d.resource_id) replayed
        (recover (or_empty d.resource_id) world) others db
  resume_status-same create other identity retention now replayed d unsupported others db world =
      resume_recovered-same create other identity retention now (or_empty d.resource_id) replayed
        (recover (or_empty d.resource_id) world) others db

  resume_reservation-same :
      (create other : Text → World → Result ℕ (Option Text) × World) (identity : Identity)
      (retention : ℕ) (now : Option ℕ) (replayed : Bool) (d : Result IdempotencyError Reservation)
      (others : ℕ → Db → Db) (db : Db) (world : World)
      → resume_reservation store recover before_create create identity retention now false replayed
          d others db world
        ≡ resume_reservation store recover before_create other identity retention now false replayed
            d others db world
  unfolding resume_reservation
  resume_reservation-same create other identity retention now replayed (throw e) others db world =
      refl
  resume_reservation-same create other identity retention now replayed (ok d) others db world =
      resume_status-same create other identity retention now replayed d d.status others db world

  execute_checked-same :
      (create other : Text → World → Result ℕ (Option Text) × World) (identity : Identity)
      (settings : Retention) (generated : Text) (clock : ℕ → Option ℕ)
      (valid : Result IdempotencyError (Unit {0})) (others : ℕ → Db → Db) (db : Db) (world : World)
      {d : Reservation}
      → find (others 0 db) ≡ some d
      → execute_checked store recover before_create create identity settings generated clock valid
          others db world
        ≡ execute_checked store recover before_create other identity settings generated clock valid
            others db world
  unfolding execute_checked execute_read
  execute_checked-same create other identity settings generated clock (throw e) others db world h =
      refl
  execute_checked-same create other identity settings generated clock (ok u) others db world {d = d}
        h =
      rw h (
        resume_reservation-same create other identity settings.retention (clock 0) true
          (validate_reservation identity (some d)) others (others 0 db) world)

  -- A request whose key already has a stored reservation never creates, whatever that reservation
  -- says: its answer, the database and the world after it are the same for any two `create`.
  pub execute_idempotent_create-same :
      (sha256 : Text → Text) (create other : Text → World → Result ℕ (Option Text) × World)
      (key user_id operation fingerprint : Text) (settings : Retention) (generated : Text)
      (clock : ℕ → Option ℕ) (others : ℕ → Db → Db) (db : Db) (world : World) {d : Reservation}
      → find (others 0 db) ≡ some d
      → execute_idempotent_create store recover before_create sha256 create key user_id operation
          fingerprint settings generated clock others db world
        ≡ execute_idempotent_create store recover before_create sha256 other key user_id operation
            fingerprint settings generated clock others db world
  unfolding execute_idempotent_create
  execute_idempotent_create-same sha256 create other key user_id operation fingerprint settings
        generated clock others db world h =
      execute_checked-same create other (identity_of sha256 key user_id operation fingerprint)
        settings generated clock (validate_request key user_id operation settings) others db world h

has_identity_completed :
    (identity : Identity) (c : ℕ) (cs : Text) (now pending replay : ℕ) (result : Text)
    → has_identity identity (completed_reservation identity (c ∷ cs) now pending result replay)
      ≡ true
unfolding has_identity complete_modifier candidate
has_identity_completed identity c cs now pending replay result =
    rw
      (
        ==_self identity.document_id,
        ==_self identity.user_id,
        ==_self identity.operation,
        ==_self identity.fingerprint,
      )
      refl

validate_completed :
    (identity : Identity) (c : ℕ) (cs : Text) (now pending replay : ℕ) (result : Text)
    → (let d = completed_reservation identity (c ∷ cs) now pending result replay in
        validate_reservation identity (some d) ≡ ok d)
unfolding validate_reservation validate_status has_expiry complete_modifier add_seconds
validate_completed identity c cs now pending replay result =
    ground (arith, has_identity_completed identity c cs now pending replay result)

module _ (store : Collection Reservation) {World : Type 0}
    (recover : Text → World → Result ℕ (Option Text) × World)
    (before_create : World → Result ℕ (Unit {0}) × World) where
  open store use {Db, find}

  -- A valid request that finds the completed reservation of the same request is answered with the
  -- stored result, the identifier of the resource that the first created and the first's deadline,
  -- as a replay, and neither calls back nor changes the store, whatever its own clock, settings and
  -- generated identifier are.
  pub execute_idempotent_create-replay :
      (sha256 : Text → Text) (create : Text → World → Result ℕ (Option Text) × World)
      (key user_id operation fingerprint : Text) (settings : Retention) (generated : Text)
      (clock : ℕ → Option ℕ) (others : ℕ → Db → Db) (db : Db) (world : World) (c : ℕ) (cs : Text)
      (reserved_at pending_retention replay_expires_at : ℕ) (result : Text)
      → validate_request key user_id operation settings ≡ ok tt
      → find (others 0 db)
        ≡ some (
            completed_reservation
              (identity_of sha256 key user_id operation fingerprint)
              (c ∷ cs)
              reserved_at
              pending_retention
              result
              replay_expires_at)
      → execute_idempotent_create store recover before_create sha256 create key user_id operation
          fingerprint settings generated clock others db world
        ≡ (
          ok (record {
            result = result;
            replayed = true;
            resource_id = some (c ∷ cs);
            expires_at = some replay_expires_at;
          }),
          others 0 db,
          world,
        )
  unfolding execute_idempotent_create execute_checked execute_read resume_reservation resume_status
  execute_idempotent_create-replay sha256 create key user_id operation fingerprint settings
        generated clock others db world c cs now pending replay result valid found =
      let identity = identity_of sha256 key user_id operation fingerprint in
      rw (valid, found, validate_completed identity c cs now pending replay result) refl
