-- ===== src/Fence/Children.antt =====
-- Work on the children of a project under a reservation: `runWithProjectChildWriter` and
-- `createProjectChildWithFence`.
use titra.Common.{
  ℕ, Bool, true, false, Option, none, some, Text, ℕ_eq, List_eq, if◌then◌else◌, Stored, held,
  Result, ok, throw, ◌>>=◌,
}
use titra.Common.Collection.{Collection}
use titra.Fence.Project.{
  FenceError, project_child_write_blocked, project_child_write_outcome_unknown, cause, Metadata,
  Project,
}
use titra.Fence.Writers.{
  Reservation, acquire_project_child_writer, release_project_child_writer,
  verify_project_child_writer,
}

-- How a callback that writes a child ends: with a result, with the marker of a failure before any
-- write (`ProjectChildNoWriteError`), or with another error, which says nothing of the write.
pub data Operation (A : Type 0) : Type 0 where
  wrote : A → Operation A
  no_write failed : ℕ → Operation A

-- What `createChild` returns: an identifier, or an object with `created` and `resourceId`.
pub data Created : Type 0 where
  new_id : Text → Created
  outcome : (created : Bool) (resource_id : Stored Text) → Created

-- The child that this attempt is known to have created.
unfoldable pub created_here : Created → Option Text
created_here (new_id id) = some id
created_here (outcome true (held id)) = some id
created_here (outcome _ _) = none

-- The children stand in collections of their own, whose state is a `World`. `others k` is what other
-- requests do to both before the k-th call.
module _ (projects : Collection Project) {World : Type 0} where
  open projects use {Db, find_one_and_update, update_one, delete_one}

  -- The `finally` of the two functions below: an error of the release takes the place of what they
  -- come to.
  unfoldable pub release_after :
      {A : Type 0}
      → Metadata
      → Bool
      → (Db × World → Db × World)
      → Result FenceError A
      → Db × World
      → Result FenceError A × Db × World
  unfolding release_project_child_writer
  release_after m require_match others ending s =
      let (db, world) = others s in
      let (released, after) = release_project_child_writer projects m require_match (λ d. d) db in
      ((released >>= λ _. ending), after, world)

  unfoldable pub run_operation :
      {A : Type 0}
      → Metadata
      → (ℕ → Db × World → Db × World)
      → Operation A × World
      → Db
      → Result FenceError A × Db × World
  unfolding release_after verify_project_child_writer
  run_operation m others (wrote result, world) db =
      let (seen, world') = others 2 (db, world) in
      let (verified, db') = verify_project_child_writer projects m (λ d. d) seen in
      let released = release_after m true (others 3) (ok result) (db', world') in
      if verified then released else (throw project_child_write_outcome_unknown, db', world')
  run_operation m others (no_write e, world) db =
      release_after m true (others 2) (throw (cause e)) (db, world)
  run_operation m others (failed e, world) db = (throw (cause e), db, world)

  unfoldable pub run_reserved :
      {A : Type 0}
      → (World → Operation A × World)
      → (ℕ → Db × World → Db × World)
      → Result FenceError Reservation
      → Db × World
      → Result FenceError A × Db × World
  unfolding run_operation
  run_reserved operation others (throw e) s = (throw e, s.0, s.1)
  run_reserved operation others (ok reservation) s =
      let (db, world) = others 1 s in run_operation reservation.metadata others (operation world) db

  unfoldable pub run_with_project_child_writer :
      {A : Type 0}
      → (Project → Bool)
      → Text
      → Text
      → Text
      → Option ℕ
      → Text
      → (World → Operation A × World)
      → (ℕ → Db × World → Db × World)
      → Db × World
      → Result FenceError A × Db × World
  unfolding run_reserved acquire_project_child_writer
  run_with_project_child_writer selector reservation_id kind resource_id now boot_id operation
        others s =
      let (db, world) = others 0 s in
      let (reservation, db') =
        acquire_project_child_writer projects selector reservation_id kind resource_id now boot_id
          (λ d. d) db in
      run_reserved operation others reservation (db', world)

  abbrev remove_created : (Text → World → World) → Option Text → World → World
  remove_created remove none world = world
  remove_created remove (some id) world = remove id world

  unfoldable pub create_operation :
      (Text → World → World)
      → Metadata
      → (ℕ → Db × World → Db × World)
      → Operation Created × World
      → Db
      → Result FenceError Created × Db × World
  unfolding release_after verify_project_child_writer created_here
  create_operation remove m others (wrote result, world) db =
      let (seen, world') = others 2 (db, world) in
      let (verified, db') = verify_project_child_writer projects m (λ d. d) seen in
      let released = release_after m true (others 3) (ok result) (db', world') in
      let undone = remove_created remove (created_here result) world' in
      let blocked =
        release_after m false (others 3) (throw project_child_write_blocked) (db', undone) in
      if verified then released else blocked
  create_operation remove m others (no_write e, world) db =
      release_after m true (others 2) (throw (cause e)) (db, world)
  create_operation remove m others (failed e, world) db = (throw (cause e), db, world)

  unfoldable pub create_reserved :
      (World → Operation Created × World)
      → (Text → World → World)
      → (ℕ → Db × World → Db × World)
      → Result FenceError Reservation
      → Db × World
      → Result FenceError Created × Db × World
  unfolding create_operation
  create_reserved create remove others (throw e) s = (throw e, s.0, s.1)
  create_reserved create remove others (ok reservation) s =
      let (db, world) = others 1 s in
      create_operation remove reservation.metadata others (create world) db

  unfoldable pub create_project_child_with_fence :
      (Project → Bool)
      → Text
      → Text
      → Text
      → Option ℕ
      → Text
      → (World → Operation Created × World)
      → (Text → World → World)
      → (ℕ → Db × World → Db × World)
      → Db × World
      → Result FenceError Created × Db × World
  unfolding create_reserved acquire_project_child_writer
  create_project_child_with_fence selector reservation_id kind resource_id now boot_id create remove
        others s =
      let (db, world) = others 0 s in
      let (reservation, db') =
        acquire_project_child_writer projects selector reservation_id kind resource_id now boot_id
          (λ d. d) db in
      create_reserved create remove others reservation (db', world)
