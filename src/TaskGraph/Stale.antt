-- ===== src/TaskGraph/Stale.antt =====
-- Only a stale lock is analysed as recoverable.
use titra.Common.{
  ℕ, zero, suc, ◌+◌, ◌≤◌, ◌≡◌, ◌≢◌, refl, subst, Bool, true, false, not, Option, none, some, arith,
  Text, ℕ_eq, List_eq, Option_eq, beq_list_iff, leb→le, Result, ok, throw_if-eq-ok, >>=-eq-ok,
  Stored, Stored_eq, ◌==◌, held, missing, junk,
}
use titra.Fence.Project.{Project, TaskGraphLock, minimum_fence_recovery_age_ms}
use titra.TaskGraph.Lock.{TaskGraphError, project_task_invalid, TaskLock, current_date}
use titra.TaskGraph.Recovery.{
  Status, recoverable, task_unexpected, cleared, TaskStatus, absent, unchanged, unexpected, Report,
  Deployment, bare, about, task_status_of, is_old_enough, analyze_task, analyze_age,
  analyze_tracked, analyze_lock, analyze_project, analyze_read, is_lock_id_valid,
  valid_stored_task_lock, is_only_locked, other_lock_id,
}

-- When a lock may be cleared.
pub record IsStale (d : Deployment) (project_id : Text) (l : TaskLock) (now : ℕ) : Type 0 where
  pub allowed : d.allow_stale_fence_recovery ≡ true
  pub other_process : l.boot_id ≢ d.boot_id
  pub old : l.acquired_at + minimum_fence_recovery_age_ms ≤ now
  pub expected : task_status_of project_id l (d.find_task l.task_id) ≢ unexpected

-- What an analysis may report: never that something was cleared, and a lock as recoverable only if
-- it is stale.
pub record IsSound (d : Deployment) (project_id : Text) (report : Report) : Type 0 where
  pub not_cleared : report.status ≢ cleared
  pub stale :
      report.status ≡ recoverable
      → (l : TaskLock) × (now : ℕ) × (report.lock ≡ some (l, now))
        × (d.now ≡ some now)
        × IsStale d project_id l now

-- A report of any other status is sound.
idle-IsSound :
    (d : Deployment) (project_id : Text) (report : Report)
    → report.status ≢ cleared
    → report.status ≢ recoverable
    → IsSound d project_id report
idle-IsSound d id report c r = record { not_cleared = c; stale = λ h. absurd (r h) }

same-IsSound :
    {d : Deployment} {project_id : Text} {report other : Report}
    → ◌≡◌ {A = Result TaskGraphError Report} (ok other) (ok report)
    → IsSound d project_id other
    → IsSound d project_id report
same-IsSound {d = d} {project_id = id} e s = subst (IsSound d id) (reported e) s
  where
    reported : {a b : Report} → ◌≡◌ {A = Result TaskGraphError Report} (ok a) (ok b) → a ≡ b
    reported e = cc

is_old_enough_lem :
    (l : TaskLock) (now : ℕ)
    → is_old_enough l now ≡ true
    → l.acquired_at + minimum_fence_recovery_age_ms ≤ now
unfolding is_old_enough
is_old_enough_lem l now h =
    leb→le (l.acquired_at + minimum_fence_recovery_age_ms) now (ground arith)

analyze_task-IsSound :
    (d : Deployment) (project_id : Text) (l : TaskLock) (now : ℕ) (status : TaskStatus)
    → task_status_of project_id l (d.find_task l.task_id) ≡ status
    → d.now ≡ some now
    → (status ≢ unexpected → IsStale d project_id l now)
    → IsSound d project_id (analyze_task project_id l now status)
unfolding analyze_task
analyze_task-IsSound d id l now unexpected e clock stale =
    idle-IsSound d id (about task_unexpected l now (some unexpected)) (λ h. cc) (λ h. cc)
analyze_task-IsSound d id l now absent e clock stale = record {
  not_cleared = λ h. cc;
  stale = λ _. (l, now, refl, clock, stale (λ h. cc));
}
analyze_task-IsSound d id l now unchanged e clock stale = record {
  not_cleared = λ h. cc;
  stale = λ _. (l, now, refl, clock, stale (λ h. cc));
}

analyze_age-IsSound :
    (d : Deployment) (project_id : Text) (l : TaskLock) (now : ℕ) (report : Report)
    → analyze_age d project_id l now ≡ ok report
    → d.now ≡ some now
    → IsSound d project_id report
unfolding analyze_age
analyze_age-IsSound d id l now report e clock =
    split d.allow_stale_fence_recovery (l.boot_id == d.boot_id) (is_old_enough l now) refl refl refl
  where
    analyzed :
        d.allow_stale_fence_recovery ≡ true
        → (l.boot_id == d.boot_id) ≡ false
        → is_old_enough l now ≡ true
        → ◌≡◌ {A = Result TaskGraphError Report}
            (ok (analyze_task id l now (task_status_of id l (d.find_task l.task_id))))
            (ok report)
    analyzed a s o = ground arith

    split :
        (allowed same old : Bool)
        → d.allow_stale_fence_recovery ≡ allowed
        → (l.boot_id == d.boot_id) ≡ same
        → is_old_enough l now ≡ old
        → IsSound d id report
    split false same old a s o = idle-IsSound d id report (λ h. ground arith) (λ h. ground arith)
    split true true old a s o = idle-IsSound d id report (λ h. ground arith) (λ h. ground arith)
    split true false false a s o = idle-IsSound d id report (λ h. ground arith) (λ h. ground arith)
    split true false true a s o =
        let status = task_status_of id l (d.find_task l.task_id) in
        same-IsSound (analyzed a s o) (
          analyze_task-IsSound d id l now status refl clock (λ expected. record {
            allowed = a;
            other_process = λ same. ground (arith, beq_list_iff l.boot_id d.boot_id);
            old = is_old_enough_lem l now o;
            expected = expected;
          }))

current_date-eq-ok : (clock : Option ℕ) (now : ℕ) → current_date clock ≡ ok now → clock ≡ some now
unfolding current_date
current_date-eq-ok none now h = cc
current_date-eq-ok (some t) now h = ground arith

bare-IsSound :
    (d : Deployment) (project_id : Text) (status : Status) {report : Report}
    → status ≢ cleared
    → status ≢ recoverable
    → ◌≡◌ {A = Result TaskGraphError Report} (ok (bare status)) (ok report)
    → IsSound d project_id report
bare-IsSound d id status c r e = same-IsSound e (idle-IsSound d id (bare status) c r)

analyze_tracked-IsSound :
    (d : Deployment) (project_id : Text) (l : Option TaskLock) (report : Report)
    → analyze_tracked d project_id l ≡ ok report
    → IsSound d project_id report
unfolding analyze_tracked
analyze_tracked-IsSound d id none report e = bare-IsSound d id _ (λ h. cc) (λ h. cc) e
analyze_tracked-IsSound d id (some l) report e =
    let (now, clock, e') = >>=-eq-ok (current_date d.now) _ e in
    analyze_age-IsSound d id l now report e' (current_date-eq-ok d.now now clock)

analyze_lock-IsSound :
    (d : Deployment) (project_id : Text) (lock_id : Option Text) (p : Project)
    (lock : Stored TaskGraphLock) (report : Report)
    → analyze_lock d project_id lock_id p lock ≡ ok report
    → IsSound d project_id report
unfolding analyze_lock
analyze_lock-IsSound d id lock_id p missing report e = bare-IsSound d id _ (λ h. cc) (λ h. cc) e
analyze_lock-IsSound d id lock_id p (junk zero) report e = bare-IsSound d id _ (λ h. cc) (λ h. cc) e
analyze_lock-IsSound d id lock_id p (junk (suc m)) report e =
    idle-IsSound d id report (λ h. ground arith) (λ h. ground arith)
analyze_lock-IsSound d id lock_id p (held s) report e =
    split (other_lock_id lock_id s.lock_id) (is_only_locked p) refl refl
  where
    split :
        (other only : Bool)
        → other_lock_id lock_id s.lock_id ≡ other
        → is_only_locked p ≡ only
        → IsSound d id report
    split true only o b = idle-IsSound d id report (λ h. ground arith) (λ h. ground arith)
    split false false o b = idle-IsSound d id report (λ h. ground arith) (λ h. ground arith)
    split false true o b =
        analyze_tracked-IsSound d id (valid_stored_task_lock s) report (ground arith)

pub analyze_read-IsSound :
    (d : Deployment) (project_id : Text) (lock_id : Option Text) (project : Option Project)
    (report : Report)
    → analyze_read d project_id lock_id project ≡ ok report
    → IsSound d project_id report
unfolding analyze_read analyze_project
analyze_read-IsSound d id lock_id none report e =
    bare-IsSound d id _ (λ h. cc) (λ h. cc)
      (throw_if-eq-ok (not (is_lock_id_valid lock_id)) project_task_invalid _ e).1
analyze_read-IsSound d id lock_id (some p) report e =
    analyze_lock-IsSound d id lock_id p p.task_graph_lock report
      (throw_if-eq-ok (not (is_lock_id_valid lock_id)) project_task_invalid _ e).1
