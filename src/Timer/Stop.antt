-- ===== src/Timer/Stop.antt =====
-- `stopTimerAtomic` and `getTimerState`.
use titra.Common.{
  ℕ, zero, suc, ◌+◌, Bool, true, false, not, ◌&&◌, ◌||◌, Option, none, some, Text, ℕ_eq, List_eq,
  Option_eq, Stored_eq, ◌==◌, leb, if◌then◌else◌, Stored, missing, held, junk, Result, ok, throw,
  throw_if, checked, ◌>>=◌, ◌>>◌,
}
use titra.Common.Collection.{Collection, Update, Reply, matched, rejected}
use titra.Revision.{etag_of, max_safe, revision_is}
use titra.Timer.Profile.{
  TimerError, timer_write_conflict, timer_not_found, driver_error, Payload, Response, Receipt,
  Profile, validate_operation_id, active_timer, timer_payload, timer_etag, respond, increment,
  same_timer,
}

-- `typeof duration === 'number' && Number.isFinite(duration)`; a duration is never negative.
abbrev is_finite : Option ℕ → Bool
is_finite none = false
is_finite (some _) = true

abbrev has_stop_date : Payload → Bool
has_stop_date p = elim p.stopped_at [ none ↦ false | some _ ↦ true ]

-- `stoppedTimerReceipt`: `ok none` where no receipt answers this call.
unfoldable pub receipt_answer :
    Stored Receipt → Option Text → Option ℕ → Result TimerError (Option Response)
receipt_answer (held receipt) timer_id expected_revision =
    if receipt.timer_id == timer_id
      && receipt.expected_revision == expected_revision
      && leb receipt.stopped_revision max_safe
      && has_stop_date receipt.payload
      && is_finite receipt.payload.duration
    then (do
      tag ← timer_etag (held receipt.stopped_revision)
      ok (some (record { payload = record receipt.payload { changed = false }; etag = tag })))
    else ok none
receipt_answer _ timer_id expected_revision = ok none

unfoldable pub stopped_timer_receipt :
    Profile → Option Text → Option ℕ → Result TimerError (Option Response)
unfolding receipt_answer
stopped_timer_receipt user = receipt_answer user.timer_stop_receipt

-- `user.profile.timerId ?? null`, where a value that is no string equals no argument. A stored null,
-- which would equal the argument null, is left out: the code sets a string here or unsets the field.
unfoldable pub timer_id_is : Stored Text → Option Text → Bool
timer_id_is missing expected = expected == none
timer_id_is (held id) expected = expected == some id
timer_id_is (junk _) expected = false

-- The number that `?? 0` and `+ 1` make of a stored revision.
unfoldable pub stopped_revision_of : Stored ℕ → ℕ
stopped_revision_of missing = 1
stopped_revision_of (held n) = n + 1
stopped_revision_of (junk m) = m

pub data Decision : Type 0 where
  answer : Response → Decision
  finish : Receipt → Decision

unfoldable pub stop_idle : Option Text → Option ℕ → Profile → Result TimerError Decision
unfolding stopped_timer_receipt
stop_idle timer_id expected_revision user = do
  recovered ← stopped_timer_receipt user timer_id expected_revision
  elim recovered [ none ↦ throw timer_not_found | some response ↦ ok (answer response) ]

-- The preview that the client acts on is not the running timer.
unfoldable pub stop_conflicts : Option Text → Option ℕ → Profile → Bool
stop_conflicts timer_id expected_revision user =
    not (revision_is user.timer_revision expected_revision)
    || not (timer_id_is user.timer_id timer_id)

unfoldable pub stop_finish :
    Option Text → Option ℕ → Option ℕ → Profile → Result TimerError Decision
unfolding timer_payload
stop_finish timer_id expected_revision stopped_at user = do
  payload ← timer_payload user stopped_at true
  ok (
      finish (record {
        timer_id = timer_id;
        expected_revision = expected_revision;
        stopped_revision = stopped_revision_of user.timer_revision;
        payload = record payload { stopped_at = some stopped_at };
      }))

unfoldable pub stop_active :
    Option Text → Option ℕ → Option ℕ → Profile → Result TimerError Decision
stop_active timer_id expected_revision stopped_at user = do
  throw_if (stop_conflicts timer_id expected_revision user) timer_write_conflict
  throw_if (user.timer_revision == held max_safe) timer_write_conflict
  stop_finish timer_id expected_revision stopped_at user

unfoldable pub decide_stop :
    Option Text → Option ℕ → Option ℕ → Profile → Result TimerError Decision
unfolding active_timer
decide_stop timer_id expected_revision stopped_at user =
    if active_timer user
    then stop_active timer_id expected_revision stopped_at user
    else stop_idle timer_id expected_revision user

unfoldable pub stopped_profile : Receipt → Stored ℕ → Profile → Profile
stopped_profile receipt revision stored = record stored {
  timer = missing;
  timer_id = missing;
  timer_revision = revision;
  timer_stop_receipt = held receipt;
  timer_project = missing;
  timer_task = missing;
  timer_start_time = missing;
  timer_custom_fields = missing;
}

unfoldable pub stop_modifier : Receipt → Profile → Option Profile
unfolding stopped_profile increment
stop_modifier receipt stored = elim (increment stored.timer_revision) [
  | none ↦ none
  | some revision ↦ some (stopped_profile receipt revision stored)
]

unfoldable pub stop_update : Receipt → Profile → Update Profile
unfolding same_timer stop_modifier
stop_update receipt user = record { selector = same_timer user; modifier = stop_modifier receipt }

unfoldable pub validate_timer_id : Option Text → Result TimerError (Unit {0})
unfolding validate_operation_id
validate_timer_id none = ok tt
validate_timer_id (some id) = validate_operation_id id

module _ (users : Collection Profile) where
  open users use {Db, find, update_one}

  unfoldable pub stop_written : Receipt → Reply × Db → Result TimerError Response × Db
  stop_written receipt (matched (suc zero), db) = (
    timer_etag (held receipt.stopped_revision) >>= λ tag.
        ok (record { payload = receipt.payload; etag = tag }),
    db,
  )
  stop_written receipt (matched n, db) = (throw timer_write_conflict, db)
  stop_written receipt (rejected, db) = (throw driver_error, db)

  unfoldable pub stop_decided :
      (Db → Db) → Profile → Result TimerError Decision → Db → Result TimerError Response × Db
  unfolding stop_written stop_update
  stop_decided others user (throw e) db = (throw e, db)
  stop_decided others user (ok (answer response)) db = (ok response, db)
  stop_decided others user (ok (finish receipt)) db =
      stop_written receipt (update_one (stop_update receipt user) (others db))

  unfoldable pub stop_read :
      Option Text
      → Option ℕ
      → Option ℕ
      → (Db → Db)
      → Option Profile
      → Db
      → Result TimerError Response × Db
  unfolding stop_decided
  stop_read timer_id expected_revision stopped_at others none db = (throw timer_not_found, db)
  stop_read timer_id expected_revision stopped_at others (some user) db =
      stop_decided others user (decide_stop timer_id expected_revision stopped_at user) db

  unfoldable pub stop_timer_atomic :
      Option Text → Option ℕ → Option ℕ → (ℕ → Db → Db) → Db → Result TimerError Response × Db
  unfolding stop_read validate_timer_id decide_stop stop_idle stop_active timer_etag etag_of
      stop_conflicts stop_finish revision_is timer_id_is stopped_revision_of
  stop_timer_atomic timer_id expected_revision stopped_at others db =
      let read = others 0 db in
      checked (validate_timer_id timer_id) read
        (stop_read timer_id expected_revision stopped_at (others 1) (find read) read)

  unfoldable pub get_timer_state : Option ℕ → (Db → Db) → Db → Result TimerError Response × Db
  unfolding active_timer respond timer_etag etag_of
  get_timer_state now others db =
      let read = others db in
      (
        elim (find read) [
          | none ↦ throw timer_not_found
          | some user ↦ if active_timer user then respond user now false else throw timer_not_found
        ],
        read,
      )
