-- ===== src/Timer/Start.antt =====
-- `startTimerAtomic`: the decision on the document that was read, the write, and the answer.
use titra.Common.{
  ℕ, zero, suc, ◌+◌, Bool, true, false, not, ◌&&◌, Option, none, some, List, [], ◌∷◌, ◌++◌, map,
  Text, ℕ_eq, List_eq, Stored_eq, ◌==◌, ltb, leb, if◌then◌else◌, length, any, Stored, missing, held,
  junk, Result, ok, throw, throw_if, checked, ◌>>=◌, ◌>>◌,
}
use titra.Common.Collection.{Collection, Update, Reply, matched, rejected}
use titra.Revision.{etag_of, max_safe}
use titra.Timer.Profile.{
  TimerError, timer_write_conflict, timer_operation_consumed, not_authorized, driver_error,
  timer_start_replay_retention_ms, timer_start_history_grace_ms, max_timer_start_history,
  HistoryEntry, HistoryEntry_eq, Response, Profile, Metadata, validate_operation_id, active_timer,
  retained_timer_start_history, respond, timer_etag, with_timer_metadata, increment, same_timer,
}

-- `entry.operationId === operationId`
abbrev pub is_operation : Text → HistoryEntry → Bool
is_operation operation_id e = e.operation_id == operation_id

-- The query `$elemMatch: { operationId, expiresAt: { $gt: instant } }` on one entry.
abbrev pub is_live_operation : Text → ℕ → Stored HistoryEntry → Bool
is_live_operation operation_id instant (held e) =
    e.operation_id == operation_id && ltb instant e.expires_at
is_live_operation operation_id instant _ = false

unfoldable pub lists_live_operation : Text → ℕ → Stored (List (Stored HistoryEntry)) → Bool
unfolding any
lists_live_operation operation_id instant (held entries) =
    any (is_live_operation operation_id instant) entries
lists_live_operation operation_id instant _ = false

-- What a first read leads to: an answer without a write, or a start at an instant.
pub data Decision : Type 0 where
  answer : Response → Decision
  begin : (start_time : ℕ) (history : List (Stored HistoryEntry)) → Decision

-- The start of an idle timer reads only the history field of the user.
unfoldable pub start_idle :
    Text → Option ℕ → Stored (List (Stored HistoryEntry)) → Result TimerError Decision
unfolding retained_timer_start_history any
start_idle operation_id none history = throw timer_write_conflict
start_idle operation_id (some start_time) history = do
  retained ← retained_timer_start_history history (some start_time)
  throw_if (any (is_operation operation_id) retained) timer_operation_consumed
  throw_if (leb max_timer_start_history (length retained)) timer_write_conflict
  let entry : HistoryEntry = record {
    operation_id = operation_id;
    expires_at = start_time + timer_start_replay_retention_ms + timer_start_history_grace_ms;
  }
  ok (begin start_time (map held retained ++ (held entry ∷ [])))

unfoldable pub decide_start : Text → Option ℕ → Profile → Result TimerError Decision
unfolding active_timer
decide_start operation_id now user =
    if active_timer user
    then if user.timer_id == held operation_id
      then (respond user now false >>= λ response. ok (answer response))
      else throw timer_write_conflict
    else if user.timer_revision == held max_safe
    then throw timer_write_conflict
    else start_idle operation_id now user.timer_start_history

-- `timerStartSnapshotSelector`
unfoldable pub timer_start_snapshot_selector : Profile → Text → ℕ → Profile → Bool
unfolding same_timer lists_live_operation
timer_start_snapshot_selector user operation_id instant stored =
    same_timer user stored
    && stored.timer_start_history == user.timer_start_history
    && not (lists_live_operation operation_id instant stored.timer_start_history)

unfoldable pub started_profile :
    Text → Metadata → ℕ → List (Stored HistoryEntry) → Stored ℕ → Profile → Profile
unfolding with_timer_metadata
started_profile operation_id metadata start_time history revision stored =
    record (with_timer_metadata metadata stored) {
      timer = held start_time;
      timer_id = held operation_id;
      timer_start_history = held history;
      timer_revision = revision;
    }

unfoldable pub start_modifier :
    Text → Metadata → ℕ → List (Stored HistoryEntry) → Profile → Option Profile
unfolding started_profile increment
start_modifier operation_id metadata start_time history stored =
    elim (increment stored.timer_revision) [
      | none ↦ none
      | some revision ↦
          some (started_profile operation_id metadata start_time history revision stored)
    ]

unfoldable pub start_update :
    Text → Metadata → ℕ → List (Stored HistoryEntry) → Profile → Update Profile
unfolding timer_start_snapshot_selector start_modifier
start_update operation_id metadata start_time history user = record {
  selector = timer_start_snapshot_selector user operation_id start_time;
  modifier = start_modifier operation_id metadata start_time history;
}

-- `(user.profile?.timerRevision ?? 0) + 1`
unfoldable pub next_revision : Stored ℕ → Stored ℕ
next_revision missing = held 1
next_revision (held n) = held (n + 1)
next_revision (junk m) = junk m

-- The answer where the write matched nothing, from a second read of the document.
unfoldable pub start_lost : Text → ℕ → Option ℕ → Option Profile → Result TimerError Response
unfolding active_timer retained_timer_start_history any
start_lost operation_id start_time now none = throw timer_write_conflict
start_lost operation_id start_time now (some current) =
    if current.timer_id == held operation_id && active_timer current
    then respond current now false
    else do
      retained ← retained_timer_start_history current.timer_start_history (some start_time)
      throw_if (any (is_operation operation_id) retained) timer_operation_consumed
      throw timer_write_conflict

-- A handler waits at each call of the database: `others k` is what other requests do to the
-- database before its k-th call, and `clock k` is its k-th reading of the clock.
module _ (users : Collection Profile) where
  open users use {Db, find, update_one}

  unfoldable pub start_written :
      Text → ℕ → Option ℕ → (Db → Db) → Profile → Reply × Db → Result TimerError Response × Db
  unfolding start_lost
  start_written operation_id start_time now others started (matched (suc zero), db) =
      (respond started (some start_time) true, db)
  start_written operation_id start_time now others started (matched n, db) =
      let reread = others db in (start_lost operation_id start_time now (find reread), reread)
  start_written operation_id start_time now others started (rejected, db) = (throw driver_error, db)

  unfoldable pub start_decided :
      Text
      → Metadata
      → Option ℕ
      → (ℕ → Db → Db)
      → Profile
      → Result TimerError Decision
      → Db
      → Result TimerError Response × Db
  unfolding start_written start_update started_profile next_revision
  start_decided operation_id metadata later others user (throw e) db = (throw e, db)
  start_decided operation_id metadata later others user (ok (answer response)) db =
      (ok response, db)
  start_decided operation_id metadata later others user (ok (begin start_time history)) db =
      start_written operation_id start_time later (others 2)
        (record user {
          timer = held start_time;
          timer_id = held operation_id;
          timer_revision = next_revision user.timer_revision;
          timer_start_history = held history;
        })
        (update_one (start_update operation_id metadata start_time history user) (others 1 db))

  unfoldable pub start_read :
      Text
      → Metadata
      → (ℕ → Option ℕ)
      → (ℕ → Db → Db)
      → Option Profile
      → Db
      → Result TimerError Response × Db
  unfolding start_decided
  start_read operation_id metadata clock others none db = (throw not_authorized, db)
  start_read operation_id metadata clock others (some user) db =
      start_decided operation_id metadata (clock 1) others user
        (decide_start operation_id (clock 0) user) db

  unfoldable pub start_timer_atomic :
      Text → Metadata → (ℕ → Option ℕ) → (ℕ → Db → Db) → Db → Result TimerError Response × Db
  unfolding start_read validate_operation_id decide_start start_idle respond timer_etag etag_of
  start_timer_atomic operation_id metadata clock others db =
      let read = others 0 db in
      checked (validate_operation_id operation_id) read
        (start_read operation_id metadata clock others (find read) read)
