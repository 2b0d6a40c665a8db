-- ===== src/Idempotency/Tests.antt =====
-- A create under one key, and its repetition.
use titra.Common.{
  ℕ, ◌+◌, ◌≡◌, refl, true, false, Option, none, some, [], ◌∷◌, Text, codes, beq_list, Result, ok,
  throw,
}
use titra.Common.Collection.{single}
use titra.Idempotency.Reservations.{
  default_retention_seconds, default_pending_retention_seconds, Reservation, idempotency_key_reused,
  complete_modifier, candidate, add_seconds,
}
use titra.Idempotency.Resumption.{Retention}
use titra.Idempotency.Execution.{validate_request, execute_idempotent_create}
use titra.Idempotency.Replay.{
  identity_of, completed_reservation, execute_idempotent_create-same,
  execute_idempotent_create-replay,
}

-- The world counts the creations; nothing is found before one.
abbrev recover : Text → ℕ → Result ℕ (Option Text) × ℕ
recover id created = (ok none, created)

abbrev create : Text → ℕ → Result ℕ (Option Text) × ℕ
create id created = (ok (some (codes "{}")), created + 1)

abbrev create_nothing : Text → ℕ → Result ℕ (Option Text) × ℕ
create_nothing id created = (throw 7, created)

abbrev before_create : ℕ → Result ℕ (Unit {0}) × ℕ
before_create created = (ok tt, created)

abbrev key : Text
key = codes "0123456789abcdef"

abbrev settings : Retention
settings = record {
  retention = default_retention_seconds;
  pending_retention = default_pending_retention_seconds;
}

abbrev hash : Text → Text
hash s = s

abbrev clock : ℕ → Option ℕ
clock _ = some 1000

abbrev left_reservation : Reservation
left_reservation =
    completed_reservation (identity_of hash key (codes "user") (codes "timecard") (codes "f"))
      (codes "r1") 1000 2_592_000 (codes "{}") 604_801_000

created_run :
    execute_idempotent_create
      (single Reservation)
      recover
      before_create
      hash
      create
      key
      (codes "user")
      (codes "timecard")
      (codes "f")
      settings
      (codes "r1")
      clock
      (λ _ db. db)
      none
      0
    ≡ (
      ok (record {
        result = codes "{}";
        replayed = false;
        resource_id = some (codes "r1");
        expires_at = some 604_801_000;
      }),
      some left_reservation,
      1,
    )
unfolding execute_idempotent_create beq_list complete_modifier candidate add_seconds
created_run = refl

-- Another request under the same key is refused.
reused_run :
    (execute_idempotent_create
      (single Reservation)
      recover
      before_create
      hash
      create
      key
      (codes "user")
      (codes "timecard")
      (codes "g")
      settings
      (codes "r2")
      clock
      (λ _ db. db)
      (some left_reservation)
      1).0
    ≡ throw idempotency_key_reused
unfolding execute_idempotent_create beq_list complete_modifier candidate add_seconds
reused_run = refl

valid_request : validate_request key (codes "user") (codes "timecard") settings ≡ ok tt
unfolding validate_request
valid_request = refl

execute_idempotent_create-same_example :
    execute_idempotent_create
      (single Reservation)
      recover
      before_create
      hash
      create
      key
      (codes "user")
      (codes "timecard")
      (codes "f")
      settings
      (codes "r2")
      clock
      (λ _ db. db)
      (some left_reservation)
      1
    ≡ execute_idempotent_create
        (single Reservation)
        recover
        before_create
        hash
        create_nothing
        key
        (codes "user")
        (codes "timecard")
        (codes "f")
        settings
        (codes "r2")
        clock
        (λ _ db. db)
        (some left_reservation)
        1
execute_idempotent_create-same_example =
    execute_idempotent_create-same (single Reservation) recover before_create hash create
      create_nothing key (codes "user") (codes "timecard") (codes "f") settings (codes "r2") clock
      (λ _ db. db) (some left_reservation) 1 refl

execute_idempotent_create-replay_example :
    execute_idempotent_create
      (single Reservation)
      recover
      before_create
      hash
      create
      key
      (codes "user")
      (codes "timecard")
      (codes "f")
      settings
      (codes "r2")
      clock
      (λ _ db. db)
      (some left_reservation)
      1
    ≡ (
      ok (record {
        result = codes "{}";
        replayed = true;
        resource_id = some (codes "r1");
        expires_at = some 604_801_000;
      }),
      some left_reservation,
      1,
    )
execute_idempotent_create-replay_example =
    execute_idempotent_create-replay (single Reservation) recover before_create hash create key
      (codes "user") (codes "timecard") (codes "f") settings (codes "r2") clock (λ _ db. db)
      (some left_reservation) 1 b'r' (b'1' ∷ []) 1000 2_592_000 604_801_000 (codes "{}")
      valid_request refl
