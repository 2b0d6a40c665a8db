-- ===== src/TaskGraph/Deletion.antt =====
-- `deleteProjectTaskWithFence`. `inspect` and `delete_task` are the caller's callbacks on a world of
-- their own; `others k` is what others do to the project before the k-th call.
use titra.Common.{
  ℕ, Bool, not, ◌&&◌, Option, none, some, Text, ℕ_eq, List_eq, ◌==◌, eqb, ltb, if◌then◌else◌,
  Result, ok, throw,
}
use titra.Common.Collection.{Collection, matched, rejected, FoundReply, returned, refused}
use titra.Fence.Project.{Project}
use titra.TaskGraph.Lock.{
  TaskGraphError, driver_error, cause, TaskLock, new_lock, graph_lock_update, has_graph_lock_id,
  graph_unlock_update,
}

-- The state under the lock; an absent count is 0.
pub record Inspected : Type 0 where
  pub conflict : Bool
  pub is_default : Bool
  pub dependent_task_count : ℕ
  pub record_count : ℕ

pub data TaskDeletion : Type 0 where
  not_locked : TaskDeletion
  conflicting default dependent recorded deleted : Inspected → TaskDeletion

-- The guard that refuses the deletion, if one does.
unfoldable pub refuse_deletion : Bool → Inspected → Option TaskDeletion
refuse_deletion acknowledged state =
    if state.conflict
    then some (conflicting state)
    else if state.is_default
    then some (default state)
    else if ltb 0 state.dependent_task_count
    then some (dependent state)
    else if ltb 0 state.record_count && not acknowledged
    then some (recorded state)
    else none

unfoldable pub after_removal : Inspected → ℕ → TaskDeletion
after_removal state n = if eqb n 1 then deleted state else conflicting state

module _ (projects : Collection Project) {World : Type 0} (inspect : World → Result ℕ Inspected)
    (delete_task : World → Result ℕ ℕ × World) where
  open projects use {Db, find_one_and_update, update_one}

  -- The lock is released, and the answer is given if that was acknowledged.
  unfoldable pub release_lock :
      Text → TaskLock → TaskDeletion → (Db → Db) → Db → Result TaskGraphError TaskDeletion × Db
  unfolding graph_unlock_update
  release_lock project_id l answer others db =
      let (reply, after) = update_one (graph_unlock_update project_id l) (others db) in
      (elim reply [ matched n ↦ ok answer | rejected ↦ throw driver_error ], after)

  -- A deletion that threw keeps the lock.
  unfoldable pub remove_task :
      Text
      → TaskLock
      → Inspected
      → Result ℕ ℕ × World
      → (Db → Db)
      → Db
      → Result TaskGraphError TaskDeletion × Db × World
  unfolding release_lock after_removal
  remove_task project_id l state (throw e, world) others db = (throw (cause e), db, world)
  remove_task project_id l state (ok n, world) others db =
      let (answer, after) = release_lock project_id l (after_removal state n) others db in
      (answer, after, world)

  unfoldable pub delete_unless :
      Text
      → TaskLock
      → Inspected
      → Option TaskDeletion
      → (Db → Db)
      → Db
      → World
      → Result TaskGraphError TaskDeletion × Db × World
  unfolding remove_task release_lock
  delete_unless project_id l state none others db world =
      remove_task project_id l state (delete_task world) others db
  delete_unless project_id l state (some refusal) others db world =
      let (answer, after) = release_lock project_id l refusal others db in (answer, after, world)

  unfoldable pub delete_inspected :
      Text
      → TaskLock
      → Bool
      → Result ℕ Inspected
      → (Db → Db)
      → Db
      → World
      → Result TaskGraphError TaskDeletion × Db × World
  unfolding delete_unless refuse_deletion
  delete_inspected project_id l acknowledged (throw e) others db world =
      (throw (cause e), db, world)
  delete_inspected project_id l acknowledged (ok state) others db world =
      delete_unless project_id l state (refuse_deletion acknowledged state) others db world

  unfoldable pub delete_found :
      Text
      → TaskLock
      → Bool
      → FoundReply Project
      → (Db → Db)
      → Db
      → World
      → Result TaskGraphError TaskDeletion × Db × World
  unfolding delete_inspected has_graph_lock_id
  delete_found project_id l acknowledged refused others db world = (throw driver_error, db, world)
  delete_found project_id l acknowledged (returned none) others db world =
      (ok not_locked, db, world)
  delete_found project_id l acknowledged (returned (some locked)) others db world =
      let rest = delete_inspected project_id l acknowledged (inspect world) others db world in
      if locked.id == project_id && has_graph_lock_id l.lock_id locked.task_graph_lock
      then rest
      else (ok not_locked, db, world)

  unfoldable pub delete_with_lock :
      (Project → Bool)
      → Text
      → Bool
      → Result TaskGraphError TaskLock
      → (ℕ → Db → Db)
      → Db
      → World
      → Result TaskGraphError TaskDeletion × Db × World
  unfolding delete_found graph_lock_update
  delete_with_lock selector project_id acknowledged (throw e) others db world = (throw e, db, world)
  delete_with_lock selector project_id acknowledged (ok l) others db world =
      let (reply, after) = find_one_and_update (graph_lock_update selector l) (others 0 db) in
      delete_found project_id l acknowledged reply (others 1) after world

  unfoldable pub delete_project_task_with_fence :
      (Project → Bool)
      → Text
      → Text
      → Text
      → Text
      → Text
      → Bool
      → Option ℕ
      → Text
      → (ℕ → Db → Db)
      → Db
      → World
      → Result TaskGraphError TaskDeletion × Db × World
  unfolding delete_with_lock new_lock
  delete_project_task_with_fence selector project_id task_id task_name task_fingerprint lock_id
        acknowledged now boot_id =
      delete_with_lock selector project_id acknowledged
        (new_lock lock_id task_id task_name task_fingerprint now boot_id)
