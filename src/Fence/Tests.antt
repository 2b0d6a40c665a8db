-- ===== src/Fence/Tests.antt =====
-- One project with a writer, a deletion and a recovery, and the theorems at these runs.
use titra.Common.{
  List_eq, ℕ_eq, Option, ◌≤◌, ℕ, ◌≡◌, refl, ap, true, false, none, some, [], ◌∷◌, Text, codes,
  contains, missing, held, ok, beq_stored, beq_list,
}
use titra.Common.Collection.{single}
use titra.Fence.Project.{
  Metadata, Lock, Project, Entry_eq, beq_entry, exact_writer_metadata, elements,
}
use titra.Fence.Writers.{acquire_selector, acquire_modifier, holds_writer, release_modifier}
use titra.Fence.Deletion.{lock_selector, lock_modifier, own_lock_selector}
use titra.Fence.Laws.{release-acquire}
use titra.Fence.Inspection.{
  inspected, is_inspectable, reservation_ids, inspect_project_child_writer_recoveries,
}
use titra.Fence.Inspection.Ids.{IsAscending, names_reservation}
use titra.Fence.Inspection.Previews.{ArePreviews}
use titra.Fence.Inspection.Bound.{inspect-bounded}
use titra.Fence.Recovery.{
  recoverable, cleared, present_in_project, Report, about, Deployment, recover_project_child_writer,
}
use titra.Fence.Recovery.Clearance.{Clearance, recover_project_child_writer-cleared}
use titra.Fence.System.{
  Phase, idle, deleting, System, update, lock, count_timecards, count_tasks, delete, calls, Reach,
  here, next,
}
use titra.Fence.Orphans.Phases.{HasNoOrphans}
use titra.Fence.Orphans.{no_orphans}

abbrev empty_project : Project
empty_project = record {
  id = codes "project-1";
  lifecycle_lock = missing;
  task_graph_lock = missing;
  lifecycle_writers = missing;
  lifecycle_writer_metadata = missing;
}

abbrev reservation : Metadata
reservation = record {
  reservation_id = codes "reservation-1";
  kind = codes "timecard-create";
  resource_id = codes "timecard-1";
  acquired_at = 1000;
  boot_id = codes "boot-0001";
}

abbrev reserved_project : Project
reserved_project = record empty_project {
  lifecycle_writers = held (held reservation.reservation_id ∷ []);
  lifecycle_writer_metadata = held (exact_writer_metadata reservation ∷ []);
}

abbrev released_project : Project
released_project = record empty_project {
  lifecycle_writers = held [];
  lifecycle_writer_metadata = held [];
}

abbrev deletion_lock : Lock
deletion_lock = record { lock_id = codes "deletion-1"; acquired_at = 2000 }

abbrev locked_project : Project
locked_project = record released_project { lifecycle_lock = held deletion_lock }

acquired_selector : acquire_selector (λ _. true) reservation.reservation_id empty_project ≡ true
unfolding acquire_selector
acquired_selector = refl

acquired_write : acquire_modifier reservation empty_project ≡ some reserved_project
unfolding acquire_modifier
acquired_write = refl

reserved_holds : holds_writer reservation reserved_project ≡ true
unfolding holds_writer beq_stored beq_list beq_entry
reserved_holds = refl

released_write : release_modifier reservation reserved_project ≡ released_project
unfolding release_modifier beq_stored beq_list beq_entry
released_write = refl

locked_selector : lock_selector (λ _. true) released_project ≡ true
unfolding lock_selector
locked_selector = refl

locked_own : own_lock_selector locked_project.id deletion_lock.lock_id locked_project ≡ true
unfolding own_lock_selector beq_list
locked_own = refl

abbrev quiet_phase : ℕ → Phase
quiet_phase = λ _. idle

abbrev lock_id : Text
lock_id = deletion_lock.lock_id

abbrev deleted : System
deleted = record {
  shared = record { project = none; timecards = []; tasks = [] };
  phase =
      update
        (update
          (update (update quiet_phase 1 (deleting lock_id false false)) 1
            (deleting lock_id true false))
          1 (deleting lock_id true true))
        1 idle;
}

abbrev released : System
released = record {
  shared = record { project = some released_project; timecards = []; tasks = [] };
  phase = quiet_phase;
}

delete_run : Reach released deleted
unfolding lock_modifier
delete_run =
    next
      (next
        (next
          (next here
            (calls 1 refl (lock (λ _. true) deletion_lock released_project refl locked_selector)))
          (calls 1 refl (count_timecards lock_id false refl)))
        (calls 1 refl (count_tasks lock_id true refl)))
      (calls 1 refl (delete lock_id locked_project refl locked_own))

released_project_stands : HasNoOrphans released.shared
released_project_stands e = (refl, refl)

no_orphans_example : (deleted.shared.timecards ≡ []) × (deleted.shared.tasks ≡ [])
no_orphans_example = no_orphans (λ _. refl) released_project_stands delete_run refl

fresh_entry : contains (exact_writer_metadata reservation) [] ≡ false
unfolding contains
fresh_entry = refl

release-acquire_example :
    (holds_writer reservation reserved_project ≡ true)
    × (elements (release_modifier reservation reserved_project).lifecycle_writers ≡ [])
    × (elements (release_modifier reservation reserved_project).lifecycle_writer_metadata ≡ [])
    × ((release_modifier reservation reserved_project).lifecycle_lock ≡ missing)
release-acquire_example =
    release-acquire (λ _. true) reservation empty_project reserved_project acquired_selector
      fresh_entry acquired_write

-- An administrator recovers the reservation from another process twenty minutes later.
abbrev deployment : Deployment
deployment = record {
  allow_stale_fence_recovery = true;
  boot_id = codes "boot-0002";
  now = some 1_201_000;
  find_resource = λ _. some (λ id. some (record { id = id; project_id = empty_project.id }));
}

abbrev report : Report
report = record (about cleared reservation 1_201_000 (some present_in_project)) { status = cleared }

recovered_run :
    recover_project_child_writer
      (single Project)
      (λ _. true)
      empty_project.id
      reservation.reservation_id
      deployment
      (λ _ db. db)
      (some reserved_project)
    ≡ (ok report, some released_project)
unfolding recover_project_child_writer beq_stored beq_list beq_entry
recovered_run = refl

recover_project_child_writer-cleared_example :
    Clearance deployment
      (λ _. true)
      empty_project.id
      reservation.reservation_id
      (some reserved_project)
      (recover_project_child_writer
        (single Project)
        (λ _. true)
        empty_project.id
        reservation.reservation_id
        deployment
        (λ _ db. db)
        (some reserved_project)).1
recover_project_child_writer-cleared_example =
    recover_project_child_writer-cleared (single Project) deployment (λ _. true) empty_project.id
      reservation.reservation_id (λ _ db. db) (some reserved_project) report
      (ap (λ x. x.0) recovered_run) refl

inspected_run :
    (inspect_project_child_writer_recoveries
      (single Project)
      (λ _. true)
      empty_project.id
      deployment
      (λ _ db. db)
      (some reserved_project)).0
    ≡ ok (inspected 1 1 (about recoverable reservation 1_201_000 (some present_in_project) ∷ []))
unfolding inspect_project_child_writer_recoveries beq_stored beq_list beq_entry
inspected_run = refl

inspect-bounded_example :
    (p : Project) × (◌≡◌ {A = Option Project} (some reserved_project) (some p))
    × (is_inspectable p ≡ true)
    × (contains reservation.reservation_id (reservation_ids p)
        ≡ names_reservation p reservation.reservation_id)
    × IsAscending (reservation_ids p)
    × ArePreviews
        (single Project)
        (λ _. true)
        empty_project.id
        deployment
        (λ _ db. db)
        1
        (some reserved_project)
        (reservation_ids p)
        (about recoverable reservation 1_201_000 (some present_in_project) ∷ [])
    × (1 ≤ 128)
inspect-bounded_example =
    inspect-bounded (single Project) (λ _. true) empty_project.id deployment (λ _ db. db)
      (some reserved_project) reservation.reservation_id inspected_run
