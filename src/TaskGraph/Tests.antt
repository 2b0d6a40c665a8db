-- ===== src/TaskGraph/Tests.antt =====
-- A task that is deleted under the lock of its project, and a lock that is recovered.
use titra.Common.{
  ℕ, ◌≡◌, refl, ap, ◌⊎◌, true, false, none, some, [], Text, codes, beq_list, beq_stored, beq_option,
  missing, held, Result, ok,
}
use titra.Common.Collection.{single}
use titra.Fence.Project.{Project}
use titra.TaskGraph.Lock.{TaskLock, stored_lock}
use titra.TaskGraph.Deletion.{Inspected, deleted, dependent, delete_project_task_with_fence}
use titra.TaskGraph.Deleted.{Permit, delete_project_task-permitted}
use titra.TaskGraph.Recovery.{
  cleared, unchanged, Report, Deployment, about, recover_task_graph_lock,
}
use titra.TaskGraph.Clearance.{Clearance, recover_task_graph_lock-cleared}

abbrev fingerprint : Text
fingerprint = codes "00112233445566778899aabbccddeeff00112233445566778899aabbccddeeff"

abbrev taken_lock : TaskLock
taken_lock = record {
  lock_id = codes "task-lock-1";
  task_id = codes "task-1";
  task_name = codes "design";
  task_fingerprint = fingerprint;
  acquired_at = 1000;
  boot_id = codes "boot-0001";
}

abbrev free_project : Project
free_project = record {
  id = codes "project-1";
  lifecycle_lock = missing;
  task_graph_lock = missing;
  lifecycle_writers = held [];
  lifecycle_writer_metadata = missing;
}

abbrev locked_project : Project
locked_project = record free_project { task_graph_lock = held (stored_lock taken_lock) }

-- The world is the number of tasks that depend on the task, and of tasks that are left.
abbrev inspect : ℕ × ℕ → Result ℕ Inspected
inspect (dependents, _) = ok (record {
  conflict = false;
  is_default = false;
  dependent_task_count = dependents;
  record_count = 2;
})

abbrev delete_task : ℕ × ℕ → Result ℕ ℕ × (ℕ × ℕ)
delete_task (dependents, _) = (ok 1, (dependents, 0))

abbrev inspected : ℕ → Inspected
inspected dependents = record {
  conflict = false;
  is_default = false;
  dependent_task_count = dependents;
  record_count = 2;
}

deleted_run :
    delete_project_task_with_fence
      (single Project)
      inspect
      delete_task
      (λ _. true)
      free_project.id
      taken_lock.task_id
      taken_lock.task_name
      fingerprint
      taken_lock.lock_id
      true
      (some 1000)
      taken_lock.boot_id
      (λ _ db. db)
      (some free_project)
      (0, 1)
    ≡ (ok (deleted (inspected 0)), some free_project, (0, 0))
unfolding delete_project_task_with_fence beq_list beq_stored
deleted_run = refl

-- A task on which another depends is kept, and the lock is released.
dependent_run :
    delete_project_task_with_fence
      (single Project)
      inspect
      delete_task
      (λ _. true)
      free_project.id
      taken_lock.task_id
      taken_lock.task_name
      fingerprint
      taken_lock.lock_id
      true
      (some 1000)
      taken_lock.boot_id
      (λ _ db. db)
      (some free_project)
      (3, 1)
    ≡ (ok (dependent (inspected 3)), some free_project, (3, 1))
unfolding delete_project_task_with_fence beq_list beq_stored
dependent_run = refl

delete_project_task-permitted_example :
    (◌≡◌ {A = ℕ × ℕ} (0, 0) (0, 1))
    ⊎ (Permit (λ _. true) true (some free_project) (inspect (0, 1))
        × (◌≡◌ {A = ℕ × ℕ} (0, 0) (0, 0)))
delete_project_task-permitted_example =
    delete_project_task-permitted (single Project) inspect delete_task (λ _. true) free_project.id
      taken_lock.task_id taken_lock.task_name fingerprint taken_lock.lock_id true (some 1000)
      taken_lock.boot_id (λ _ db. db) (some free_project) (0, 1) (ap (λ x. x.2) deleted_run)

abbrev deployment : Deployment
deployment = record {
  allow_stale_fence_recovery = true;
  boot_id = codes "boot-0002";
  now = some 1_201_000;
  find_task = λ id. some (record {
    id = id;
    project_id = free_project.id;
    name = taken_lock.task_name;
    fingerprint = some fingerprint;
  });
}

abbrev report : Report
report = record (about cleared taken_lock 1_201_000 (some unchanged)) { status = cleared }

recovered_run :
    recover_task_graph_lock
      (single Project)
      (λ _. true)
      free_project.id
      none
      deployment
      (λ _ db. db)
      (some locked_project)
    ≡ (ok report, some free_project)
unfolding recover_task_graph_lock beq_list beq_stored beq_option
recovered_run = refl

recover_task_graph_lock-cleared_example :
    Clearance deployment
      (λ _. true)
      free_project.id
      (some locked_project)
      (recover_task_graph_lock
        (single Project)
        (λ _. true)
        free_project.id
        none
        deployment
        (λ _ db. db)
        (some locked_project)).1
recover_task_graph_lock-cleared_example =
    recover_task_graph_lock-cleared (single Project) deployment (λ _. true) free_project.id none
      (λ _ db. db) (some locked_project) report (ap (λ x. x.0) recovered_run) refl
