-- ===== src/Timer/Tests.antt =====
-- Runs of the timer handlers on one user document, and the theorems at these runs.
use titra.Common.{
  ℕ, ◌≡◌, ◌≢◌, refl, true, false, Option, none, some, List, [], ◌∷◌, arith, Text, codes, beq_stored,
  beq_list, beq_option, Stored, missing, held, held-injective, ap, ok, throw, length,
}
use titra.Common.Collection.{single}
use titra.Revision.{etag_of, timer, revision_is}
use titra.Revision.Decimal.{decimal}
use titra.Timer.Profile.{
  timer_operation_consumed, HistoryEntry, Payload, Receipt, Profile, Metadata,
}
use titra.Timer.Start.{begin, decide_start, start_idle, start_modifier, start_timer_atomic}
use titra.Timer.Stop.{
  answer, finish, decide_stop, stop_active, stop_conflicts, stop_finish, timer_id_is,
  stopped_revision_of, stop_modifier, stop_timer_atomic,
}
use titra.Timer.Replay.{
  Run, here, next, stopped, start_at_most_once, HasBoundedHistory, Run-HasBoundedHistory,
}
use titra.Timer.Refinement.{StartWrite, start_timer_atomic_changed}
use titra.Timer.Recovery.{decide_stop_again}

abbrev operation : Text
operation = codes "start-0001"

abbrev no_metadata : Metadata
no_metadata = record {
  project = missing;
  task = missing;
  start_time = missing;
  custom_fields = missing;
}

abbrev idle_user : Profile
idle_user = record {
  timer = missing;
  timer_id = missing;
  timer_revision = missing;
  timer_start_history = missing;
  timer_stop_receipt = missing;
  timer_project = missing;
  timer_task = missing;
  timer_start_time = missing;
  timer_custom_fields = missing;
}

abbrev consumed : List (Stored HistoryEntry)
consumed = held (record { operation_id = operation; expires_at = 691_201_000 }) ∷ []

abbrev running_user : Profile
running_user = record idle_user {
  timer = held 1000;
  timer_id = held operation;
  timer_revision = held 1;
  timer_start_history = held consumed;
}

abbrev started_payload : Payload
started_payload = record {
  timer_id = some operation;
  start_time = 1000;
  duration = some 0;
  revision = held 1;
  legacy = false;
  stopped_at = none;
  changed = true;
}

abbrev tag_one : Text
tag_one = codes "\"titra-timer-revision-1\""

started_run :
    start_timer_atomic
      (single Profile)
      operation
      no_metadata
      (λ _. some 1000)
      (λ _ db. db)
      (some idle_user)
    ≡ (ok (record { payload = started_payload; etag = tag_one }), some running_user)
unfolding start_timer_atomic beq_stored beq_list decimal
started_run = refl

-- The same operation again, after the first answer was lost, is answered without a second start.
started_again :
    start_timer_atomic
      (single Profile)
      operation
      no_metadata
      (λ _. some 4000)
      (λ _ db. db)
      (some running_user)
    ≡ (
      ok (record {
        payload = record started_payload { duration = some 3000; changed = false };
        etag = tag_one;
      }),
      some running_user,
    )
unfolding start_timer_atomic beq_stored beq_list decimal
started_again = refl

abbrev receipt : Receipt
receipt = record {
  timer_id = some operation;
  expected_revision = some 1;
  stopped_revision = 2;
  payload = record started_payload { duration = some 2000; stopped_at = some (some 3000) };
}

abbrev stopped_user : Profile
stopped_user = record idle_user {
  timer_revision = held 2;
  timer_start_history = held consumed;
  timer_stop_receipt = held receipt;
}

stopped_run :
    stop_timer_atomic
      (single Profile)
      (some operation)
      (some 1)
      (some 3000)
      (λ _ db. db)
      (some running_user)
    ≡ (
      ok (record { payload = receipt.payload; etag = codes "\"titra-timer-revision-2\"" }),
      some stopped_user,
    )
unfolding stop_timer_atomic beq_option beq_list beq_stored decimal
stopped_run = refl

started_decision : decide_start operation (some 1000) idle_user ≡ ok (begin 1000 consumed)
unfolding decide_start start_idle beq_stored beq_list
started_decision = refl

started_write : start_modifier operation no_metadata 1000 consumed idle_user ≡ some running_user
unfolding start_modifier
started_write = refl

stopped_decision :
    decide_stop (some operation) (some 1) (some 3000) running_user ≡ ok (finish receipt)
unfolding decide_stop stop_active stop_conflicts stop_finish revision_is timer_id_is
    stopped_revision_of beq_option beq_list beq_stored
stopped_decision = refl

stopped_write : stop_modifier receipt running_user ≡ some stopped_user
unfolding stop_modifier
stopped_write = refl

stopping : Run 600_000_000 running_user stopped_user
stopping =
    next 3000 here (omega arith)
      (stopped (some operation) (some 1) receipt stopped_decision stopped_write)

start_at_most_once_example :
    decide_start operation (some 5000) stopped_user ≢ ok (begin 5000 consumed)
start_at_most_once_example =
    start_at_most_once operation no_metadata 1000 600_000_000 5000 5000 idle_user running_user
      stopped_user consumed consumed (omega arith) started_decision started_write stopping
      (omega arith)

-- The operation is refused as consumed.
consumed_run :
    start_timer_atomic
      (single Profile)
      operation
      no_metadata
      (λ _. some 5000)
      (λ _ db. db)
      (some stopped_user)
    ≡ (throw timer_operation_consumed, some stopped_user)
unfolding start_timer_atomic beq_stored beq_list decimal
consumed_run = refl

start_timer_atomic_changed_example :
    (now : ℕ) × (◌≡◌ {A = Option ℕ} (some 1000) (some now))
    × StartWrite operation no_metadata now
        (some idle_user)
        (start_timer_atomic
          (single Profile)
          operation
          no_metadata
          (λ _. some 1000)
          (λ _ db. db)
          (some idle_user)).1
        (record { payload = started_payload; etag = tag_one })
start_timer_atomic_changed_example =
    start_timer_atomic_changed (single Profile) operation no_metadata (λ _. some 1000) (λ _ db. db)
      (some idle_user) (ap (λ x. x.0) started_run) refl

bounded : HasBoundedHistory running_user
bounded = λ entries e. omega (arith, ap length (held-injective e))

Run-HasBoundedHistory_example : HasBoundedHistory stopped_user
Run-HasBoundedHistory_example = Run-HasBoundedHistory stopping bounded

tagged : etag_of timer running_user.timer_revision ≡ some tag_one
unfolding etag_of decimal
tagged = refl

decide_stop_again_example :
    (tag : Text) × (etag_of timer stopped_user.timer_revision ≡ some tag)
    × (decide_stop (some operation) (some 1) none stopped_user
        ≡ ok (answer (record { payload = record receipt.payload { changed = false }; etag = tag })))
decide_stop_again_example =
    decide_stop_again (some operation) (some 1) 3000 none running_user stopped_user receipt tag_one
      stopped_decision stopped_write tagged
