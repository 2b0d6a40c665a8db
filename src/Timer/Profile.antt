-- ===== src/Timer/Profile.antt =====
-- The timer fields of a user's profile, and the functions of timerTransitions.js that read them.
-- A date is its milliseconds since the epoch; `none` is an invalid date, or NaN. A profile that a
-- user document lacks reads as one without fields.
use titra.Common.{
  ℕ, ◌+◌, ◌-◌, ◌*◌, ◌≡◌, ◌↔◌, Bool, true, not, ◌&&◌, ◌||◌, Option, none, some, List, [], ◌∷◌, arith,
  Text, ℕ_eq, List_eq, Eq, ◌==◌, ltb, if◌then◌else◌, length, Stored, missing, held, junk, exists,
  value, is_held, Result, ok, throw, throw_if, ◌>>=◌, ◌>>◌, is_safe_id, Stored_eq, beq_list_iff,
  eqb_iff,
}
use titra.Revision.{timer, etag_of}

pub data TimerError : Type 0 where
  timer_invalid timer_write_conflict timer_not_found timer_operation_consumed : TimerError
  not_authorized type_error driver_error : TimerError

abbrev pub timer_start_replay_retention_ms : ℕ
timer_start_replay_retention_ms = 7 * 24 * 60 * 60 * 1000

abbrev pub timer_start_history_grace_ms : ℕ
timer_start_history_grace_ms = 24 * 60 * 60 * 1000

abbrev pub max_timer_start_history : ℕ
max_timer_start_history = 4096

pub record HistoryEntry : Type 0 where
  pub operation_id : Text
  pub expires_at : ℕ

pub beq_entry : HistoryEntry → HistoryEntry → Bool
beq_entry a b = a.operation_id == b.operation_id && a.expires_at == b.expires_at

pub beq_entry_iff : (a b : HistoryEntry) → (beq_entry a b ≡ true) ↔ (a ≡ b)
unfolding beq_entry
beq_entry_iff a b =
    ground (arith, beq_list_iff a.operation_id b.operation_id, eqb_iff a.expires_at b.expires_at)

instance abbrev pub HistoryEntry_eq : Eq HistoryEntry
HistoryEntry_eq = record { beq = beq_entry; beq_iff = beq_entry_iff }

-- What a client is told of a timer. `changed` is false where an earlier call is answered again.
pub record Payload : Type 0 where
  pub timer_id : Option Text
  pub start_time : ℕ
  pub duration : Option ℕ
  pub revision : Stored ℕ
  pub legacy : Bool
  pub stopped_at : Option (Option ℕ)
  pub changed : Bool

pub record Response : Type 0 where
  pub payload : Payload
  pub etag : Text

-- A receipt with a part of another type than the code writes is `junk` in its field.
pub record Receipt : Type 0 where
  pub timer_id : Option Text
  pub expected_revision : Option ℕ
  pub stopped_revision : ℕ
  pub payload : Payload

pub record Profile : Type 0 where
  pub timer : Stored ℕ
  pub timer_id : Stored Text
  pub timer_revision : Stored ℕ
  pub timer_start_history : Stored (List (Stored HistoryEntry))
  pub timer_stop_receipt : Stored Receipt
  pub timer_project : Stored Text
  pub timer_task : Stored Text
  pub timer_start_time : Stored Text
  pub timer_custom_fields : Stored (List ℕ)

pub record Metadata : Type 0 where
  pub project : Stored Text
  pub task : Stored Text
  pub start_time : Stored Text
  pub custom_fields : Stored (List ℕ)

unfoldable pub validate_operation_id : Text → Result TimerError (Unit {0})
unfolding is_safe_id
validate_operation_id s = if is_safe_id 8 s then ok tt else throw timer_invalid

unfoldable pub active_timer : Profile → Bool
active_timer user = is_held user.timer

-- The `filter` of `retainedTimerStartHistory`, which throws at the first malformed entry.
unfoldable pub retained_from :
    List (Stored HistoryEntry) → ℕ → Result TimerError (List HistoryEntry)
unfolding is_safe_id
retained_from [] instant = ok []
retained_from (held e ∷ rest) instant = do
  throw_if (not (is_safe_id 8 e.operation_id)) timer_write_conflict
  kept ← retained_from rest instant
  ok (if ltb instant e.expires_at then e ∷ kept else kept)
retained_from (_ ∷ rest) instant = throw timer_write_conflict

-- Of the user only the history field is read.
unfoldable pub retained_timer_start_history :
    Stored (List (Stored HistoryEntry)) → Option ℕ → Result TimerError (List HistoryEntry)
unfolding retained_from
retained_timer_start_history history none = throw timer_write_conflict
retained_timer_start_history missing (some instant) = ok []
retained_timer_start_history (held entries) (some instant) =
    if ltb max_timer_start_history (length entries)
    then throw timer_write_conflict
    else retained_from entries instant
retained_timer_start_history (junk _) (some instant) = throw timer_write_conflict

-- `Math.max(0, now - start)`: subtraction on ℕ stops at 0, and NaN stays NaN.
unfoldable pub elapsed : ℕ → Option ℕ → Option ℕ
elapsed start none = none
elapsed start (some now) = some (now - start)

unfoldable pub payload_of : Stored ℕ → Profile → Option ℕ → Bool → Result TimerError Payload
unfolding elapsed
payload_of (held start) user now changed = ok (record {
  timer_id = value user.timer_id;
  start_time = start;
  duration = elapsed start now;
  revision = user.timer_revision;
  legacy = not (is_held user.timer_id) || not (exists user.timer_revision);
  stopped_at = none;
  changed = changed;
})
payload_of _ user now changed = throw timer_not_found

unfoldable pub timer_payload : Profile → Option ℕ → Bool → Result TimerError Payload
unfolding payload_of
timer_payload user now changed = payload_of user.timer user now changed

-- `resourceRevisionETag`, whose TypeError passes through.
unfoldable pub timer_etag : Stored ℕ → Result TimerError Text
timer_etag revision = elim (etag_of timer revision) [ none ↦ throw type_error | some tag ↦ ok tag ]

-- `{ payload: { ...timerPayload(user, now), changed }, etag: resourceRevisionETag(…) }`
unfoldable pub respond : Profile → Option ℕ → Bool → Result TimerError Response
unfolding timer_payload
respond user now changed = do
  payload ← timer_payload user now changed
  tag ← timer_etag user.timer_revision
  ok (record { payload = payload; etag = tag })

-- A metadata string is set if it is a string that is not empty; else its field is unset.
unfoldable pub set_text : Stored Text → Stored Text
set_text (held (c ∷ s)) = held (c ∷ s)
set_text _ = missing

unfoldable pub set_list : Stored (List ℕ) → Stored (List ℕ)
set_list (held xs) = held xs
set_list _ = missing

unfoldable pub with_timer_metadata : Metadata → Profile → Profile
unfolding set_text set_list
with_timer_metadata metadata user = record user {
  timer_project = set_text metadata.project;
  timer_task = set_text metadata.task;
  timer_start_time = set_text metadata.start_time;
  timer_custom_fields = set_list metadata.custom_fields;
}

-- `$inc: { 'profile.timerRevision': 1 }`, which the server refuses on a value that is no number.
unfoldable pub increment : Stored ℕ → Option (Stored ℕ)
increment missing = some (held 1)
increment (held n) = some (held (n + 1))
increment (junk _) = none

-- The fields that `timerSnapshotSelector` compares, by `$eq` or `$exists: false`.
unfoldable pub same_timer : Profile → Profile → Bool
same_timer user stored =
    stored.timer == user.timer
    && stored.timer_id == user.timer_id
    && stored.timer_revision == user.timer_revision
