-- ===== src/Fence/Writers.antt =====
-- Writer reservations: `acquireProjectChildWriter`, `releaseProjectChildWriter` and
-- `verifyProjectChildWriter`.
use titra.Common.{
  ℕ, Bool, false, not, ◌&&◌, Option, none, some, List, [], ◌∷◌, ◌++◌, Text, ℕ_eq, List_eq,
  Stored_eq, ◌==◌, ltb, eqb, if◌then◌else◌, length, contains, keep, Stored, missing, held, junk,
  exists, Result, ok, throw,
}
use titra.Common.Collection.{
  Collection, Update, Reply, matched, rejected, FoundReply, returned, refused, fits,
}
use titra.Fence.Project.{
  FenceError, project_child_fence_invalid, project_child_write_blocked,
  project_child_write_outcome_unknown, driver_error, max_project_child_writers, Metadata, Entry,
  Entry_eq, exact_writer_metadata, Project, writer_metadata, valid_stored, elements,
}

-- The entries that name a reservation.
unfoldable pub tracked : Text → List Entry → List Entry
unfolding keep
tracked reservation_id = keep (λ e. e.reservation_id == held reservation_id)

-- `$addToSet` and `$push`, which the server refuses on a value that is no array.
unfoldable pub add_to_set :
    Stored Text → Stored (List (Stored Text)) → Option (Stored (List (Stored Text)))
unfolding contains
add_to_set a missing = some (held (a ∷ []))
add_to_set a (held xs) = some (held (if contains a xs then xs else xs ++ (a ∷ [])))
add_to_set a (junk _) = none

unfoldable pub push : Entry → Stored (List Entry) → Option (Stored (List Entry))
push e missing = some (held (e ∷ []))
push e (held xs) = some (held (xs ++ (e ∷ [])))
push e (junk _) = none

-- `$pull` of a value removes each element that equals it.
unfoldable pub pull_writer : Stored Text → Stored (List (Stored Text)) → Stored (List (Stored Text))
unfolding keep
pull_writer a (held xs) = held (keep (λ x. not (x == a)) xs)
pull_writer a other = other

unfoldable pub pull_entry : Entry → Stored (List Entry) → Stored (List Entry)
unfolding keep
pull_entry e (held xs) = held (keep (λ x. not (x == e)) xs)
pull_entry e other = other

-- The caller's own selector, which names the project and who may write to it, stands in `selector`.
unfoldable pub acquire_selector : (Project → Bool) → Text → Project → Bool
unfolding contains
acquire_selector selector reservation_id p =
    selector p
    && not (exists p.lifecycle_lock)
    && not (exists p.task_graph_lock)
    && not (contains (held reservation_id) (elements p.lifecycle_writers))
    && ltb (length (elements p.lifecycle_writer_metadata)) max_project_child_writers

unfoldable pub with_writer :
    Option (Stored (List (Stored Text))) → Option (Stored (List Entry)) → Project → Option Project
with_writer (some writers) (some metadata) p =
    some (record p { lifecycle_writers = writers; lifecycle_writer_metadata = metadata })
with_writer _ _ p = none

unfoldable pub acquire_modifier : Metadata → Project → Option Project
unfolding add_to_set push with_writer
acquire_modifier m p =
    with_writer (add_to_set (held m.reservation_id) p.lifecycle_writers)
      (push (exact_writer_metadata m) p.lifecycle_writer_metadata) p

unfoldable pub acquire_update : (Project → Bool) → Metadata → Update Project
unfolding acquire_selector acquire_modifier
acquire_update selector m = record {
  selector = acquire_selector selector m.reservation_id;
  modifier = acquire_modifier m;
}

-- The project has this reservation, by its identifier and by its exact metadata.
unfoldable pub holds_writer : Metadata → Project → Bool
unfolding contains
holds_writer m p =
    contains (held m.reservation_id) (elements p.lifecycle_writers)
    && contains (exact_writer_metadata m) (elements p.lifecycle_writer_metadata)

unfoldable pub release_modifier : Metadata → Project → Project
unfolding pull_writer pull_entry
release_modifier m p = record p {
  lifecycle_writers = pull_writer (held m.reservation_id) p.lifecycle_writers;
  lifecycle_writer_metadata = pull_entry (exact_writer_metadata m) p.lifecycle_writer_metadata;
}

unfoldable pub release_update : Metadata → Update Project
unfolding holds_writer release_modifier
release_update m = record { selector = holds_writer m; modifier = λ p. some (release_modifier m p) }

-- The query of `verifyProjectChildWriter`.
unfoldable pub verify_selector : Metadata → Project → Bool
unfolding holds_writer
verify_selector m p = not (exists p.lifecycle_lock) && holds_writer m p

pub record Reservation : Type 0 where
  pub project : Project
  pub metadata : Metadata

unfoldable pub is_exactly_tracked : Metadata → List Entry → Bool
is_exactly_tracked m (e ∷ []) = e.boot_id == held m.boot_id
is_exactly_tracked m _ = false

-- The check of the document that `findOneAndUpdate` gave back.
unfoldable pub accept_reservation : Metadata → FoundReply Project → Result FenceError Reservation
unfolding contains tracked is_exactly_tracked
accept_reservation m refused = throw driver_error
accept_reservation m (returned none) = throw project_child_write_blocked
accept_reservation m (returned (some p)) =
    if contains (held m.reservation_id) (elements p.lifecycle_writers)
      && is_exactly_tracked m (tracked m.reservation_id (elements p.lifecycle_writer_metadata))
    then ok (record { project = p; metadata = m })
    else throw project_child_write_blocked

-- `requireMatch && affected(result) !== 1`
unfoldable pub release_outcome : Bool → Reply → Result FenceError Bool
release_outcome require_match rejected = throw driver_error
release_outcome require_match (matched n) =
    if require_match && not (eqb n 1)
    then throw project_child_write_outcome_unknown
    else ok (eqb n 1)

module _ (projects : Collection Project) where
  open projects use {Db, find, update_one, find_one_and_update}

  unfoldable pub acquire_with :
      (Project → Bool)
      → Result FenceError Metadata
      → (Db → Db)
      → Db
      → Result FenceError Reservation × Db
  acquire_with selector (throw e) others db = (throw e, db)
  acquire_with selector (ok m) others db =
      let (reply, after) = find_one_and_update (acquire_update selector m) (others db) in
      (accept_reservation m reply, after)

  unfoldable pub acquire_project_child_writer :
      (Project → Bool)
      → Text
      → Text
      → Text
      → Option ℕ
      → Text
      → (Db → Db)
      → Db
      → Result FenceError Reservation × Db
  unfolding acquire_with acquire_update accept_reservation writer_metadata
  acquire_project_child_writer selector reservation_id kind resource_id now boot_id =
      acquire_with selector (writer_metadata reservation_id kind resource_id now boot_id)

  unfoldable pub release_project_child_writer :
      Metadata → Bool → (Db → Db) → Db → Result FenceError Bool × Db
  unfolding release_update release_outcome valid_stored
  release_project_child_writer m require_match others db =
      if valid_stored m
      then (let (reply, after) = update_one (release_update m) (others db) in
          (release_outcome require_match reply, after))
      else (throw project_child_fence_invalid, db)

  unfoldable pub verify_project_child_writer : Metadata → (Db → Db) → Db → Bool × Db
  unfolding verify_selector valid_stored
  verify_project_child_writer m others db =
      if valid_stored m
      then (let read = others db in (fits (verify_selector m) (find read), read))
      else (false, db)
