-- ===== src/Fence/Recovery.antt =====
-- Recovery of reservations that a stopped process left: `analyzeProjectChildWriterRecovery`,
-- `previewProjectChildWriterRecovery`, `inspectProjectChildWriterRecoveries` and
-- `recoverProjectChildWriter`.
pub mod Stale
pub mod Clearance
use titra.Common.{
  ℕ, zero, suc, ◌+◌, ◌-◌, Bool, true, false, not, ◌&&◌, ◌||◌, Option, none, some, List, [], ◌∷◌,
  ◌++◌, map, Text, ℕ_eq, List_eq, Stored_eq, ◌==◌, leb, ltb, eqb, if◌then◌else◌, length, every,
  keep, contains, Stored, missing, held, junk, exists, Result, ok, throw, throw_if, ◌>>=◌, ◌>>◌,
}
use titra.Common.Collection.{Collection, Update, Reply, matched, rejected, fits}
use titra.Revision.{max_safe}
use titra.Fence.Project.{
  FenceError, project_child_fence_invalid, driver_error, max_project_child_writers,
  minimum_fence_recovery_age_ms, ResourceType, Metadata, Entry, Project, validate_fence_id,
  resource_type_of, valid_stored, metadata_of, valid_stored_writer_metadata, current_date, elements,
}
use titra.Fence.Writers.{tracked, holds_writer, release_modifier}

pub data Status : Type 0 where
  not_authorized not_found untracked deployment_disabled active_process too_young : Status
  unsupported recoverable resource_unexpected cleared conflict : Status

pub data ResourceStatus : Type 0 where
  absent present_in_project unexpected : ResourceStatus

-- `publicWriterRecoveryState`; `ageMs` is the reading of the clock less `acquired_at`.
pub record Report : Type 0 where
  pub status : Status
  pub reservation : Option (Metadata × ℕ)
  pub resource_status : Option ResourceStatus

pub record Resource : Type 0 where
  pub id : Text
  pub project_id : Text

-- What a recovery is told of its deployment and given to read the children. A finder that is not
-- given is `none`.
pub record Deployment : Type 0 where
  pub allow_stale_fence_recovery : Bool
  pub boot_id : Text
  pub now : Option ℕ
  pub find_resource : ResourceType → Option (Text → Option Resource)

abbrev pub bare : Status → Report
bare status = record { status = status; reservation = none; resource_status = none }

abbrev pub about : Status → Metadata → ℕ → Option ResourceStatus → Report
about status m now resource = record {
  status = status;
  reservation = some (m, now);
  resource_status = resource;
}

abbrev is_list {ℓ} : {A : Type ℓ} → Stored (List A) → Bool
is_list (held _) = true
is_list _ = false

abbrev is_list_or_missing {ℓ} : {A : Type ℓ} → Stored (List A) → Bool
is_list_or_missing (junk _) = false
is_list_or_missing _ = true

unfoldable pub occurrences : Text → List (Stored Text) → ℕ
unfolding keep
occurrences reservation_id writers = length (keep (λ w. w == held reservation_id) writers)

-- The metadata of the one entry that tracks a reservation, if it is valid.
unfoldable pub only_tracked : List Entry → Option Metadata
only_tracked (e ∷ []) = elim (metadata_of e) [
  | none ↦ none
  | some m ↦ if valid_stored m then some m else none
]
only_tracked _ = none

unfoldable pub resource_status_of : Text → Metadata → Option Resource → ResourceStatus
resource_status_of project_id m none = absent
resource_status_of project_id m (some r) =
    if r.id == m.resource_id && r.project_id == project_id then present_in_project else unexpected

abbrev pub status_for : ResourceStatus → Status
status_for unexpected = resource_unexpected
status_for _ = recoverable

unfoldable pub analyze_resource : Text → Metadata → ℕ → Option (Text → Option Resource) → Report
analyze_resource project_id m now none = about unsupported m now none
analyze_resource project_id m now (some find_resource) =
    let status = resource_status_of project_id m (find_resource m.resource_id) in
    about (status_for status) m now (some status)

abbrev pub finder :
    Option ResourceType
    → (ResourceType → Option (Text → Option Resource))
    → Option (Text → Option Resource)
finder none find_resource = none
finder (some type) find_resource = find_resource type

-- The age is a safe integer and not below the minimum.
unfoldable pub is_old_enough : Metadata → ℕ → Bool
is_old_enough m now =
    leb (m.acquired_at + minimum_fence_recovery_age_ms) now && leb (now - m.acquired_at) max_safe

unfoldable pub analyze_age : Deployment → Text → Metadata → ℕ → Result FenceError Report
unfolding validate_fence_id resource_type_of
analyze_age d project_id m now =
    if not d.allow_stale_fence_recovery
    then ok (about deployment_disabled m now none)
    else if not (validate_fence_id d.boot_id)
    then throw project_child_fence_invalid
    else if m.boot_id == d.boot_id
    then ok (about active_process m now none)
    else if not (is_old_enough m now)
    then ok (about too_young m now none)
    else ok (analyze_resource project_id m now (finder (resource_type_of m.kind) d.find_resource))

unfoldable pub analyze_tracked : Deployment → Text → Option Metadata → Result FenceError Report
analyze_tracked d project_id none = ok (bare untracked)
analyze_tracked d project_id (some m) = current_date d.now >>= λ now. analyze_age d project_id m now

-- Neither array names the reservation, and what is there are arrays.
unfoldable pub is_not_found : Text → Project → Bool
unfolding occurrences tracked
is_not_found reservation_id p =
    eqb (occurrences reservation_id (elements p.lifecycle_writers)) 0
    && eqb (length (tracked reservation_id (elements p.lifecycle_writer_metadata))) 0
    && is_list_or_missing p.lifecycle_writers
    && is_list_or_missing p.lifecycle_writer_metadata

unfoldable pub is_tracked_once : Text → Project → Bool
unfolding occurrences
is_tracked_once reservation_id p =
    is_list p.lifecycle_writers
    && is_list p.lifecycle_writer_metadata
    && eqb (occurrences reservation_id (elements p.lifecycle_writers)) 1
    && not (exists p.lifecycle_lock)
    && not (exists p.task_graph_lock)

unfoldable pub analyze_project :
    Deployment → Text → Text → Option Project → Result FenceError Report
analyze_project d project_id reservation_id none = ok (bare not_authorized)
analyze_project d project_id reservation_id (some p) =
    if is_not_found reservation_id p
    then ok (bare not_found)
    else if is_tracked_once reservation_id p
    then analyze_tracked d project_id
        (only_tracked (tracked reservation_id (elements p.lifecycle_writer_metadata)))
    else ok (bare untracked)

unfoldable pub analyze_read : Deployment → Text → Text → Option Project → Result FenceError Report
analyze_read d project_id reservation_id project =
    throw_if (not (validate_fence_id reservation_id)) project_child_fence_invalid
    >> analyze_project d project_id reservation_id project

-- The update of `recoverProjectChildWriter`.
unfoldable pub recover_selector : (Project → Bool) → Metadata → Project → Bool
unfolding holds_writer
recover_selector selector m p =
    selector p
    && not (exists p.lifecycle_lock)
    && not (exists p.task_graph_lock)
    && holds_writer m p

unfoldable pub recover_update : (Project → Bool) → Metadata → Update Project
unfolding recover_selector release_modifier
recover_update selector m = record {
  selector = recover_selector selector m;
  modifier = λ p. some (release_modifier m p);
}

unfoldable pub recovered : Report → Reply → Result FenceError Report
recovered report rejected = throw driver_error
recovered report (matched n) = ok (record report { status = if eqb n 1 then cleared else conflict })

-- `findProject({ ...selector, _id })`: the selector names the project.
unfoldable pub selected : (Project → Bool) → Option Project → Option Project
selected selector none = none
selected selector (some p) = if selector p then some p else none

module _ (projects : Collection Project) where
  open projects use {Db, find, update_one}

  unfoldable pub preview_project_child_writer_recovery :
      (Project → Bool) → Text → Text → Deployment → (Db → Db) → Db → Result FenceError Report × Db
  unfolding analyze_read analyze_project selected validate_fence_id is_not_found is_tracked_once
      only_tracked tracked metadata_of valid_stored analyze_tracked current_date analyze_age
      is_old_enough analyze_resource resource_status_of
  preview_project_child_writer_recovery selector project_id reservation_id d others db =
      let read = others db in
      (analyze_read d project_id reservation_id (selected selector (find read)), read)

  unfoldable pub recover_write :
      (Project → Bool) → Report → Metadata → (Db → Db) → Db → Result FenceError Report × Db
  unfolding recover_update recovered
  recover_write selector report m others db =
      let (reply, after) = update_one (recover_update selector m) (others db) in
      (recovered report reply, after)

  -- Only a `recoverable` reservation, which its report names, is written.
  unfoldable pub recover_reported :
      (Project → Bool)
      → Report
      → Status
      → Option (Metadata × ℕ)
      → (Db → Db)
      → Db
      → Result FenceError Report × Db
  unfolding recover_write
  recover_reported selector report recoverable (some (m, now)) others db =
      recover_write selector report m others db
  recover_reported selector report status reservation others db = (ok report, db)

  unfoldable pub recover_analyzed :
      (Project → Bool) → Result FenceError Report → (Db → Db) → Db → Result FenceError Report × Db
  unfolding recover_reported
  recover_analyzed selector (throw e) others db = (throw e, db)
  recover_analyzed selector (ok report) others db =
      recover_reported selector report report.status report.reservation others db

  unfoldable pub recover_project_child_writer :
      (Project → Bool)
      → Text
      → Text
      → Deployment
      → (ℕ → Db → Db)
      → Db
      → Result FenceError Report × Db
  unfolding recover_analyzed preview_project_child_writer_recovery
  recover_project_child_writer selector project_id reservation_id d others db =
      let (analysis, read) =
        preview_project_child_writer_recovery selector project_id reservation_id d (others 0) db in
      recover_analyzed selector analysis (others 1) read
