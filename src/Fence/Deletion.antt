-- ===== src/Fence/Deletion.antt =====
-- `deleteEmptyProjectWithFence`: an empty project is deleted under a lock that the reservations of
-- child writers exclude.
use titra.Common.{
  ℕ, zero, Bool, false, not, ◌&&◌, Option, none, some, Text, ℕ_eq, List_eq, ◌==◌, eqb,
  if◌then◌else◌, Stored, missing, held, exists, Result, ok, throw,
}
use titra.Common.Collection.{
  Collection, Update, Reply, matched, rejected, FoundReply, returned, refused,
}
use titra.Fence.Project.{
  FenceError, project_child_fence_invalid, driver_error, Lock, Project, validate_fence_id,
  is_absent_or_empty,
}

pub data Deletion : Type 0 where
  conflict deleted : Deletion
  not_empty : (timecards project_tasks : ℕ) → Deletion

unfoldable pub lock_selector : (Project → Bool) → Project → Bool
lock_selector selector p =
    selector p
    && not (exists p.lifecycle_lock)
    && not (exists p.task_graph_lock)
    && is_absent_or_empty p.lifecycle_writers
    && is_absent_or_empty p.lifecycle_writer_metadata

unfoldable pub lock_modifier : Lock → Project → Project
lock_modifier lock p = record p { lifecycle_lock = held lock }

unfoldable pub lock_update : (Project → Bool) → Lock → Update Project
unfolding lock_selector lock_modifier
lock_update selector lock = record {
  selector = lock_selector selector;
  modifier = λ p. some (lock_modifier lock p);
}

abbrev pub has_lock_id : Text → Stored Lock → Bool
has_lock_id lock_id (held lock) = lock.lock_id == lock_id
has_lock_id lock_id _ = false

-- `lockSelector`, which follows the lock's identifier.
unfoldable pub own_lock_selector : Text → Text → Project → Bool
own_lock_selector id lock_id p = p.id == id && has_lock_id lock_id p.lifecycle_lock

unfoldable pub unlock_modifier : Project → Project
unlock_modifier p = record p { lifecycle_lock = missing }

unfoldable pub unlock_update : Text → Text → Update Project
unfolding own_lock_selector unlock_modifier
unlock_update id lock_id = record {
  selector = own_lock_selector id lock_id;
  modifier = λ p. some (unlock_modifier p);
}

-- The child counts of a locked project, `none` where a count was rejected.
abbrev pub both_counts : Option ℕ → Option ℕ → Option (ℕ × ℕ)
both_counts (some timecards) (some tasks) = some (timecards, tasks)
both_counts _ _ = none

-- A lock is kept where the outcome of the deletion is not known to be harmless.
pub data Ending : Type 0 where
  unlock keep_lock : Deletion → Ending
  fail : Ending

unfoldable pub after_delete : Reply → Ending
after_delete (matched n) = if eqb n 1 then unlock deleted else keep_lock conflict
after_delete rejected = fail

module _ (projects : Collection Project) {World : Type 0}
    (count_timecards : Text → World → Option ℕ)
    (count_project_tasks : Text → World → Option ℕ) where
  open projects use {Db, find_one_and_update, update_one, delete_one}

  unfoldable pub finish_deletion :
      Text → Text → (Db → Db) → Ending → Db → Result FenceError Deletion × Db
  unfolding unlock_update
  finish_deletion id lock_id others (unlock d) db =
      let (reply, after) = update_one (unlock_update id lock_id) (others db) in
      (elim reply [ matched n ↦ ok d | rejected ↦ throw driver_error ], after)
  finish_deletion id lock_id others (keep_lock d) db = (ok d, db)
  finish_deletion id lock_id others fail db = (throw driver_error, db)

  unfoldable pub delete_counted : Text → Text → Option (ℕ × ℕ) → (ℕ → Db → Db) → Db → Ending × Db
  unfolding own_lock_selector after_delete
  delete_counted id lock_id none others db = (fail, db)
  delete_counted id lock_id (some (zero, zero)) others db =
      let (reply, after) = delete_one (own_lock_selector id lock_id) (others 3 db) in
      (after_delete reply, after)
  delete_counted id lock_id (some (timecards, tasks)) others db =
      (unlock (not_empty timecards tasks), db)

  -- The counts are read in worlds of their own: `worlds k` is the world at the k-th count.
  unfoldable pub delete_locked :
      Text → FoundReply Project → (ℕ → World) → (ℕ → Db → Db) → Db → Result FenceError Deletion × Db
  unfolding delete_counted finish_deletion
  delete_locked lock_id refused worlds others db = (throw driver_error, db)
  delete_locked lock_id (returned none) worlds others db = (ok conflict, db)
  delete_locked lock_id (returned (some locked)) worlds others db =
      let counts =
        both_counts (count_timecards locked.id (worlds 0))
          (count_project_tasks locked.id (worlds 1)) in
      let (ending, db') = delete_counted locked.id lock_id counts others db in
      let finished = finish_deletion locked.id lock_id (others 4) ending db' in
      if has_lock_id lock_id locked.lifecycle_lock then finished else (ok conflict, db)

  unfoldable pub delete_empty_project_with_fence :
      (Project → Bool) → Lock → (ℕ → World) → (ℕ → Db → Db) → Db → Result FenceError Deletion × Db
  unfolding delete_locked lock_update validate_fence_id
  delete_empty_project_with_fence selector lock worlds others db =
      let (reply, after) = find_one_and_update (lock_update selector lock) (others 0 db) in
      if validate_fence_id lock.lock_id
      then delete_locked lock.lock_id reply worlds others after
      else (throw project_child_fence_invalid, db)
