-- ===== src/Fence/Inspection.antt =====
-- `inspectProjectChildWriterRecoveries`: the reservations of one project, each previewed from a read
-- of its own.
pub mod Ids
pub mod Previews
pub mod Bound
use titra.Common.{
  is_before, ℕ, zero, suc, Bool, true, false, not, ◌&&◌, ◌||◌, Option, none, some, List, [], ◌∷◌,
  ◌++◌, Text, ℕ_eq, List_eq, ◌==◌, leb, ltb, if◌then◌else◌, length, every, Stored, missing, held,
  junk, exists, Result, ok, throw,
}
use titra.Common.Collection.{Collection}
use titra.Fence.Project.{
  FenceError, max_project_child_writers, Entry, Project, validate_fence_id,
  valid_stored_writer_metadata, elements,
}
use titra.Fence.Recovery.{Report, Deployment, selected, preview_project_child_writer_recovery}

pub data Inspection : Type 0 where
  not_authorized : Inspection
  untracked : (writer_count metadata_count : Option ℕ) → Inspection
  inspected : (writer_count metadata_count : ℕ) (reservations : List Report) → Inspection

-- The length of an array, that of `[]` for a missing field, or `null`.
unfoldable pub count_of {ℓ} : {A : Type ℓ} → Stored (List A) → Option ℕ
count_of missing = some 0
count_of (held xs) = some (length xs)
count_of (junk _) = none

unfoldable pub is_bounded : Option ℕ → Bool
is_bounded none = false
is_bounded (some n) = leb n max_project_child_writers

unfoldable pub is_writer_id : Stored Text → Bool
unfolding validate_fence_id
is_writer_id (held id) = validate_fence_id id
is_writer_id _ = false

-- `validShape`, and no lock.
unfoldable pub is_inspectable : Project → Bool
unfolding count_of is_bounded is_writer_id every valid_stored_writer_metadata
is_inspectable p =
    is_bounded (count_of p.lifecycle_writers)
    && is_bounded (count_of p.lifecycle_writer_metadata)
    && every is_writer_id (elements p.lifecycle_writers)
    && every valid_stored_writer_metadata (elements p.lifecycle_writer_metadata)
    && not (exists p.lifecycle_lock)
    && not (exists p.task_graph_lock)

-- A set is kept as a sorted list: `[...new Set(...)].sort()`.
unfoldable pub insert_id : Text → List Text → List Text
insert_id id [] = id ∷ []
insert_id id (x ∷ xs) =
    let rest = insert_id id xs in
    if id == x then x ∷ xs else if is_before id x then id ∷ x ∷ xs else x ∷ rest

unfoldable pub add_id : Stored Text → List Text → List Text
unfolding insert_id
add_id (held id) ids = insert_id id ids
add_id _ ids = ids

unfoldable pub writer_ids : List (Stored Text) → List Text
unfolding add_id
writer_ids [] = []
writer_ids (w ∷ ws) = add_id w (writer_ids ws)

unfoldable pub entry_ids : List Entry → List Text → List Text
unfolding add_id
entry_ids [] ids = ids
entry_ids (e ∷ es) ids = add_id e.reservation_id (entry_ids es ids)

unfoldable pub reservation_ids : Project → List Text
unfolding writer_ids entry_ids
reservation_ids p =
    entry_ids (elements p.lifecycle_writer_metadata) (writer_ids (elements p.lifecycle_writers))

abbrev pub or_zero : Option ℕ → ℕ
or_zero none = 0
or_zero (some n) = n

unfoldable pub inspection_of :
    Project → Result FenceError (List Report) → Result FenceError Inspection
unfolding count_of
inspection_of p (throw e) = throw e
inspection_of p (ok reports) = ok (
    inspected (or_zero (count_of p.lifecycle_writers))
      (or_zero (count_of p.lifecycle_writer_metadata)) reports)

unfoldable pub with_report :
    Result FenceError Report → Result FenceError (List Report) → Result FenceError (List Report)
with_report (throw e) rest = throw e
with_report (ok r) (throw e) = throw e
with_report (ok r) (ok rs) = ok (r ∷ rs)

module _ (projects : Collection Project) where
  open projects use {Db, find}

  -- The loop of awaited previews; it ends at the first that throws.
  unfoldable pub preview_each :
      (Project → Bool)
      → Text
      → Deployment
      → (ℕ → Db → Db)
      → ℕ
      → List Text
      → Db
      → Result FenceError (List Report) × Db
  unfolding with_report preview_project_child_writer_recovery
  preview_each selector project_id d others k [] db = (ok [], db)
  preview_each selector project_id d others k (id ∷ ids) db =
      let (report, read) =
        preview_project_child_writer_recovery projects selector project_id id d (others k) db in
      let (rest, left) = preview_each selector project_id d others (suc k) ids read in
      (with_report report rest, elim report [ ok _ ↦ left | throw _ ↦ read ])

  unfoldable pub inspect_project :
      (Project → Bool)
      → Text
      → Deployment
      → (ℕ → Db → Db)
      → Option Project
      → Db
      → Result FenceError Inspection × Db
  unfolding preview_each inspection_of is_inspectable reservation_ids
  inspect_project selector project_id d others none db = (ok not_authorized, db)
  inspect_project selector project_id d others (some p) db =
      let (reports, read) = preview_each selector project_id d others 1 (reservation_ids p) db in
      if is_inspectable p then (inspection_of p reports, read) else (
        ok (untracked (count_of p.lifecycle_writers) (count_of p.lifecycle_writer_metadata)),
        db,
      )

  unfoldable pub inspect_project_child_writer_recoveries :
      (Project → Bool) → Text → Deployment → (ℕ → Db → Db) → Db → Result FenceError Inspection × Db
  unfolding inspect_project selected
  inspect_project_child_writer_recoveries selector project_id d others db =
      let read = others 0 db in
      inspect_project selector project_id d others (selected selector (find read)) read
