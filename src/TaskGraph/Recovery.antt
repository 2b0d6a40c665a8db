-- ===== src/TaskGraph/Recovery.antt =====
-- Recovery of a lock that a stopped process left: `analyzeTaskGraphLockRecovery`,
-- `previewTaskGraphLockRecovery` and `recoverTaskGraphLock`.
use titra.Common.{
  ℕ, ◌+◌, ◌-◌, zero, suc, Bool, true, false, not, ◌&&◌, Option, none, some, Text, ℕ_eq, List_eq,
  Option_eq, Stored_eq, ◌==◌, leb, eqb, if◌then◌else◌, Stored, missing, held, junk, exists, Result,
  ok, throw, throw_if, ◌>>=◌, ◌>>◌,
}
use titra.Common.Collection.{Collection, Update, Reply, matched, rejected}
use titra.Revision.{max_safe}
use titra.Fence.Project.{Project, TaskGraphLock, is_absent_or_empty, minimum_fence_recovery_age_ms}
use titra.Fence.Recovery.{selected}
use titra.TaskGraph.Lock.{
  TaskGraphError, project_task_invalid, driver_error, TaskLock, delete_task_kind,
  validate_task_graph_lock_id, validate_task_resource_id, valid_task_name, valid_fingerprint,
  current_date, has_exact_lock, graph_unlock_modifier,
}

pub data Status : Type 0 where
  not_authorized not_found untracked deployment_disabled active_process too_young : Status
  task_unexpected recoverable cleared conflict : Status

pub data TaskStatus : Type 0 where
  absent unchanged unexpected : TaskStatus

-- `publicTaskLockState`; `ageMs` is the reading of the clock less `acquired_at`.
pub record Report : Type 0 where
  pub status : Status
  pub lock : Option (TaskLock × ℕ)
  pub task_status : Option TaskStatus

-- A task as it is found, with the fingerprint that `taskRecoveryFingerprint` gives it, `none` where
-- that throws.
pub record Task : Type 0 where
  pub id : Text
  pub project_id : Text
  pub name : Text
  pub fingerprint : Option Text

pub record Deployment : Type 0 where
  pub allow_stale_fence_recovery : Bool
  pub boot_id : Text
  pub now : Option ℕ
  pub find_task : Text → Option Task

abbrev pub bare : Status → Report
bare status = record { status = status; lock = none; task_status = none }

abbrev pub about : Status → TaskLock → ℕ → Option TaskStatus → Report
about status l now task = record { status = status; lock = some (l, now); task_status = task }

-- The fields of a stored lock with their types, if each has its type.
unfoldable pub typed_lock :
    Stored Text → Stored Text → Stored Text → Stored Text → Stored ℕ → Stored Text → Option TaskLock
typed_lock (held l) (held t) (held n) (held f) (held a) (held b) = some (record {
  lock_id = l;
  task_id = t;
  task_name = n;
  task_fingerprint = f;
  acquired_at = a;
  boot_id = b;
})
typed_lock _ _ _ _ _ _ = none

unfoldable pub is_valid_lock : TaskLock → Bool
unfolding validate_task_graph_lock_id validate_task_resource_id valid_task_name valid_fingerprint
is_valid_lock l =
    validate_task_graph_lock_id l.lock_id
    && validate_task_resource_id l.task_id
    && validate_task_graph_lock_id l.boot_id
    && valid_task_name l.task_name
    && valid_fingerprint l.task_fingerprint

unfoldable pub checked_lock : Option TaskLock → Option TaskLock
unfolding is_valid_lock
checked_lock none = none
checked_lock (some l) = if is_valid_lock l then some l else none

-- `validStoredTaskLock`, with the lock that passed.
unfoldable pub valid_stored_task_lock : TaskGraphLock → Option TaskLock
unfolding typed_lock checked_lock
valid_stored_task_lock s =
    if s.kind == held delete_task_kind
    then checked_lock
        (typed_lock s.lock_id s.task_id s.task_name s.task_fingerprint s.acquired_at s.boot_id)
    else none

unfoldable pub task_status_of : Text → TaskLock → Option Task → TaskStatus
task_status_of project_id l none = absent
task_status_of project_id l (some t) =
    if t.id == l.task_id
      && t.project_id == project_id
      && t.name == l.task_name
      && t.fingerprint == some l.task_fingerprint
    then unchanged
    else unexpected

abbrev pub status_for : TaskStatus → Status
status_for unexpected = task_unexpected
status_for _ = recoverable

unfoldable pub is_old_enough : TaskLock → ℕ → Bool
is_old_enough l now =
    leb (l.acquired_at + minimum_fence_recovery_age_ms) now && leb (now - l.acquired_at) max_safe

unfoldable pub analyze_task : Text → TaskLock → ℕ → TaskStatus → Report
analyze_task project_id l now status = about (status_for status) l now (some status)

unfoldable pub analyze_age : Deployment → Text → TaskLock → ℕ → Result TaskGraphError Report
unfolding validate_task_graph_lock_id is_old_enough analyze_task task_status_of
analyze_age d project_id l now =
    if not d.allow_stale_fence_recovery
    then ok (about deployment_disabled l now none)
    else if not (validate_task_graph_lock_id d.boot_id)
    then throw project_task_invalid
    else if l.boot_id == d.boot_id
    then ok (about active_process l now none)
    else if not (is_old_enough l now)
    then ok (about too_young l now none)
    else ok (analyze_task project_id l now (task_status_of project_id l (d.find_task l.task_id)))

unfoldable pub analyze_tracked : Deployment → Text → Option TaskLock → Result TaskGraphError Report
unfolding analyze_age current_date
analyze_tracked d project_id none = ok (bare untracked)
analyze_tracked d project_id (some l) = current_date d.now >>= λ now. analyze_age d project_id l now

-- No lock of the other kind and no writers.
unfoldable pub is_only_locked : Project → Bool
is_only_locked p =
    not (exists p.lifecycle_lock)
    && is_absent_or_empty p.lifecycle_writers
    && is_absent_or_empty p.lifecycle_writer_metadata

-- `lockId != null && lock.lockId !== lockId`
unfoldable pub other_lock_id : Option Text → Stored Text → Bool
other_lock_id none id = false
other_lock_id (some lock_id) id = not (id == held lock_id)

-- A lock that is no object has no `lockId`; the values that are false in a test are `junk zero`.
unfoldable pub analyze_lock :
    Deployment → Text → Option Text → Project → Stored TaskGraphLock → Result TaskGraphError Report
unfolding analyze_tracked valid_stored_task_lock is_only_locked other_lock_id
analyze_lock d project_id lock_id p missing = ok (bare not_found)
analyze_lock d project_id lock_id p (junk zero) = ok (bare not_found)
analyze_lock d project_id lock_id p (junk (suc m)) =
    if other_lock_id lock_id missing then ok (bare not_found) else ok (bare untracked)
analyze_lock d project_id lock_id p (held s) =
    if other_lock_id lock_id s.lock_id
    then ok (bare not_found)
    else if is_only_locked p
    then analyze_tracked d project_id (valid_stored_task_lock s)
    else ok (bare untracked)

unfoldable pub analyze_project :
    Deployment → Text → Option Text → Option Project → Result TaskGraphError Report
unfolding analyze_lock
analyze_project d project_id lock_id none = ok (bare not_authorized)
analyze_project d project_id lock_id (some p) =
    analyze_lock d project_id lock_id p p.task_graph_lock

unfoldable pub is_lock_id_valid : Option Text → Bool
unfolding validate_task_graph_lock_id
is_lock_id_valid none = true
is_lock_id_valid (some lock_id) = validate_task_graph_lock_id lock_id

unfoldable pub analyze_read :
    Deployment → Text → Option Text → Option Project → Result TaskGraphError Report
unfolding analyze_project is_lock_id_valid
analyze_read d project_id lock_id project =
    throw_if (not (is_lock_id_valid lock_id)) project_task_invalid
    >> analyze_project d project_id lock_id project

unfoldable pub recover_selector : (Project → Bool) → TaskLock → Project → Bool
unfolding is_only_locked has_exact_lock
recover_selector selector l p = selector p && is_only_locked p && has_exact_lock l p.task_graph_lock

unfoldable pub recover_update : (Project → Bool) → TaskLock → Update Project
unfolding recover_selector graph_unlock_modifier
recover_update selector l = record {
  selector = recover_selector selector l;
  modifier = λ p. some (graph_unlock_modifier p);
}

unfoldable pub recovered : Report → Reply → Result TaskGraphError Report
recovered report rejected = throw driver_error
recovered report (matched n) = ok (record report { status = if eqb n 1 then cleared else conflict })

module _ (projects : Collection Project) where
  open projects use {Db, find, update_one}

  unfoldable pub preview_task_graph_lock_recovery :
      (Project → Bool)
      → Text
      → Option Text
      → Deployment
      → (Db → Db)
      → Db
      → Result TaskGraphError Report × Db
  unfolding analyze_read selected
  preview_task_graph_lock_recovery selector project_id lock_id d others db =
      let read = others db in
      (analyze_read d project_id lock_id (selected selector (find read)), read)

  unfoldable pub recover_write :
      (Project → Bool) → Report → TaskLock → (Db → Db) → Db → Result TaskGraphError Report × Db
  unfolding recover_update recovered
  recover_write selector report l others db =
      let (reply, after) = update_one (recover_update selector l) (others db) in
      (recovered report reply, after)

  unfoldable pub recover_reported :
      (Project → Bool)
      → Report
      → Status
      → Option (TaskLock × ℕ)
      → (Db → Db)
      → Db
      → Result TaskGraphError Report × Db
  unfolding recover_write
  recover_reported selector report recoverable (some (l, now)) others db =
      recover_write selector report l others db
  recover_reported selector report status lock others db = (ok report, db)

  unfoldable pub recover_analyzed :
      (Project → Bool)
      → Result TaskGraphError Report
      → (Db → Db)
      → Db
      → Result TaskGraphError Report × Db
  unfolding recover_reported
  recover_analyzed selector (throw e) others db = (throw e, db)
  recover_analyzed selector (ok report) others db =
      recover_reported selector report report.status report.lock others db

  unfoldable pub recover_task_graph_lock :
      (Project → Bool)
      → Text
      → Option Text
      → Deployment
      → (ℕ → Db → Db)
      → Db
      → Result TaskGraphError Report × Db
  unfolding recover_analyzed preview_task_graph_lock_recovery
  recover_task_graph_lock selector project_id lock_id d others db =
      let (analysis, read) =
        preview_task_graph_lock_recovery selector project_id lock_id d (others 0) db in
      recover_analyzed selector analysis (others 1) read
