-- ===== src/TaskGraph/Deleted.antt =====
-- When the deletion of a task runs.
use titra.Common.{
  ℕ, ◌≡◌, refl, sym, ◌∙◌, subst, ◌⊎◌, inl, inr, Bool, true, false, ◌&&◌, Option, none, some, arith,
  Text, ℕ_eq, List_eq, ◌==◌, if◌then◌else◌, Result, ok, throw,
}
use titra.Common.Collection.{Collection, FoundReply, returned, refused, Returned, Returned-some}
use titra.Fence.Project.{Project}
use titra.Fence.Deletion.{lock_selector}
use titra.TaskGraph.Lock.{TaskGraphError, TaskLock, new_lock, graph_lock_update, has_graph_lock_id}
use titra.TaskGraph.Deletion.{
  Inspected, TaskDeletion, not_locked, refuse_deletion, remove_task, delete_unless,
  delete_inspected, delete_found, delete_with_lock, delete_project_task_with_fence,
}

-- The state under the lock permits the deletion.
pub record IsPermitted (acknowledged : Bool) (state : Inspected) : Type 0 where
  pub no_conflict : state.conflict ≡ false
  pub no_default : state.is_default ≡ false
  pub no_dependents : state.dependent_task_count ≡ 0
  pub records : (state.record_count ≡ 0) ⊎ (acknowledged ≡ true)

refuse_deletion-none :
    (acknowledged : Bool) (state : Inspected)
    → refuse_deletion acknowledged state ≡ none
    → IsPermitted acknowledged state
unfolding refuse_deletion
refuse_deletion-none acknowledged state e = record {
  no_conflict = ground arith;
  no_default = ground arith;
  no_dependents = ground arith;
  records = recorded_or acknowledged e;
}
  where
    recorded_or :
        (a : Bool) → refuse_deletion a state ≡ none → (state.record_count ≡ 0) ⊎ (a ≡ true)
    recorded_or true h = inr refl
    recorded_or false h = inl (ground arith)

-- The project was free of locks and writers right before it was locked, and what was inspected
-- under the lock permits the deletion.
pub record Permit (selector : Project → Bool) (acknowledged : Bool) (before : Option Project)
    (inspected : Result ℕ Inspected) : Type 0 where
  pub project : Project
  pub state : Inspected
  pub found : before ≡ some project
  pub free : lock_selector selector project ≡ true
  pub seen : inspected ≡ ok state
  pub permitted : IsPermitted acknowledged state

module _ (projects : Collection Project) {World : Type 0} (inspect : World → Result ℕ Inspected)
    (delete_task : World → Result ℕ ℕ × World) where
  open projects use {Db, find, find_one_and_update, find_one_and_update_lem}

  remove_task-world :
      (project_id : Text) (l : TaskLock) (state : Inspected) (r : Result ℕ ℕ × World)
      (others : Db → Db) (db : Db)
      → (remove_task projects inspect delete_task project_id l state r others db).2 ≡ r.1
  unfolding remove_task
  remove_task-world project_id l state (throw e, world) others db = refl
  remove_task-world project_id l state (ok n, world) others db = refl

  delete_inspected-world :
      (project_id : Text) (l : TaskLock) (acknowledged : Bool) (inspected : Result ℕ Inspected)
      (others : Db → Db) (db : Db) (world : World) {after : World}
      → (delete_inspected projects inspect delete_task project_id l acknowledged inspected others db
          world).2
        ≡ after
      → (after ≡ world)
        ⊎ ((state : Inspected) × (inspected ≡ ok state)
            × IsPermitted acknowledged state
            × (after ≡ (delete_task world).1))
  unfolding delete_inspected delete_unless
  delete_inspected-world project_id l acknowledged (throw e) others db world h = inl (sym h)
  delete_inspected-world project_id l acknowledged (ok state) others db world {after} h =
      decided (refuse_deletion acknowledged state) refl h
    where
      decided :
          (refusal : Option TaskDeletion)
          → refuse_deletion acknowledged state ≡ refusal
          → (delete_unless projects inspect delete_task project_id l state refusal others db
              world).2
            ≡ after
          → (after ≡ world)
            ⊎ ((s : Inspected) × (◌≡◌ {A = Result ℕ Inspected} (ok state) (ok s))
                × IsPermitted acknowledged s
                × (after ≡ (delete_task world).1))
      decided (some refusal) e h = inl (sym h)
      decided none e h = inr (
        state,
        refl,
        refuse_deletion-none acknowledged state e,
        sym h ∙ remove_task-world project_id l state (delete_task world) others db,
      )

  delete_found-world :
      (selector : Project → Bool) (project_id : Text) (l : TaskLock) (acknowledged : Bool)
      (reply : FoundReply Project) (before now : Option Project) (others : Db → Db) (db : Db)
      (world : World) {after : World}
      → Returned (graph_lock_update selector l) before now reply
      → (delete_found projects inspect delete_task project_id l acknowledged reply others db
          world).2
        ≡ after
      → (after ≡ world)
        ⊎ (Permit selector acknowledged before (inspect world) × (after ≡ (delete_task world).1))
  unfolding delete_found graph_lock_update
  delete_found-world selector project_id l acknowledged refused before now others db world r h =
      inl (sym h)
  delete_found-world selector project_id l acknowledged (returned none) before now others db world r
        h =
      inl (sym h)
  delete_found-world selector project_id l acknowledged (returned (some locked)) before now others
        db world {after} r h =
      ours (locked.id == project_id && has_graph_lock_id l.lock_id locked.task_graph_lock) h
    where
      rest : Result TaskGraphError TaskDeletion × Db × World
      rest =
          delete_inspected projects inspect delete_task project_id l acknowledged (inspect world)
            others db world

      ran :
          (after ≡ world)
            ⊎ ((state : Inspected) × (inspect world ≡ ok state)
                × IsPermitted acknowledged state
                × (after ≡ (delete_task world).1))
          → (after ≡ world)
            ⊎ (Permit selector acknowledged before (inspect world)
                × (after ≡ (delete_task world).1))
      ran (inl kept) = inl kept
      ran (inr (state, seen, permitted, removed)) =
          let (p, found, free, _, _) =
            Returned-some (graph_lock_update selector l) before now locked r in
          inr (
            record {
              project = p;
              state = state;
              found = found;
              free = free;
              seen = seen;
              permitted = permitted;
            },
            removed,
          )

      ours :
          (b : Bool)
          → (if b then rest else (ok not_locked, db, world)).2 ≡ after
          → (after ≡ world)
            ⊎ (Permit selector acknowledged before (inspect world)
                × (after ≡ (delete_task world).1))
      ours false e = inl (sym e)
      ours true e =
          ran (delete_inspected-world project_id l acknowledged (inspect world) others db world e)

  delete_with_lock-world :
      (selector : Project → Bool) (project_id : Text) (acknowledged : Bool)
      (l : Result TaskGraphError TaskLock) (others : ℕ → Db → Db) (db : Db) (world : World)
      → (let after =
            (delete_with_lock projects inspect delete_task selector project_id acknowledged l others
              db world).2 in
          (after ≡ world)
          ⊎ (Permit selector acknowledged (find (others 0 db)) (inspect world)
              × (after ≡ (delete_task world).1)))
  unfolding delete_with_lock
  delete_with_lock-world selector project_id acknowledged (throw e) others db world = inl refl
  delete_with_lock-world selector project_id acknowledged (ok l) others db world =
      let u = graph_lock_update selector l in
      delete_found-world selector project_id l acknowledged _ (find (others 0 db)) _ (others 1) _
        world (find_one_and_update_lem u (others 0 db)) refl

  -- Whatever a deletion of a task answers or throws, its caller's `deleteTask` ran at most once, and
  -- only when the project had neither a lock nor a writer right before it was locked and what was
  -- inspected under the lock is no conflict, is not the default task, has no dependent tasks, and
  -- has no recorded entries or was acknowledged.
  pub delete_project_task-permitted :
      (selector : Project → Bool) (project_id task_id task_name task_fingerprint lock_id : Text)
      (acknowledged : Bool) (now : Option ℕ) (boot_id : Text) (others : ℕ → Db → Db) (db : Db)
      (world : World) {after : World}
      → (delete_project_task_with_fence projects inspect delete_task selector project_id task_id
          task_name task_fingerprint lock_id acknowledged now boot_id others db world).2
        ≡ after
      → (after ≡ world)
        ⊎ (Permit selector acknowledged (find (others 0 db)) (inspect world)
            × (after ≡ (delete_task world).1))
  unfolding delete_project_task_with_fence
  delete_project_task-permitted selector project_id task_id task_name task_fingerprint lock_id
        acknowledged now boot_id others db world {after} h =
      subst
        (λ w.
          (w ≡ world)
          ⊎ (Permit selector acknowledged (find (others 0 db)) (inspect world)
              × (w ≡ (delete_task world).1)))
        h
        (delete_with_lock-world selector project_id acknowledged
          (new_lock lock_id task_id task_name task_fingerprint now boot_id) others db world)
