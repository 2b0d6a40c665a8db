-- ===== src/TaskGraph/Clearance.antt =====
-- A recovery clears one stale task graph lock, or nothing.
use titra.Common.{
  ℕ, ◌≡◌, refl, sym, ◌∙◌, subst, Bool, true, Option, none, some, arith, Text, ℕ_eq, List_eq,
  Option_eq, eqb_iff, Result, ok, throw, Stored_eq,
}
use titra.Common.Collection.{Collection, Reply, matched, rejected, Updated-one}
use titra.Fence.Project.{Project}
use titra.Fence.Recovery.{selected}
use titra.TaskGraph.Lock.{TaskGraphError, TaskLock, graph_unlock_modifier}
use titra.TaskGraph.Recovery.{
  Status, recoverable, cleared, Report, Deployment, analyze_read, recover_selector, recover_update,
  recovered, recover_write, recover_reported, recover_analyzed, preview_task_graph_lock_recovery,
  recover_task_graph_lock,
}
use titra.TaskGraph.Stale.{IsStale, IsSound, analyze_read-IsSound}

lock_pair :
    {l k : TaskLock} {s t : ℕ}
    → ◌≡◌ {A = Option (TaskLock × ℕ)} (some (l, s)) (some (k, t))
    → (l ≡ k) × (s ≡ t)
lock_pair e = (cc, cc)

-- The one write of a recovery: the project before it, and what it leaves.
pub record Clearance (d : Deployment) (selector : Project → Bool) (project_id : Text)
    (before after : Option Project) : Type 0 where
  pub lock : TaskLock
  pub now : ℕ
  pub project : Project
  pub clock : d.now ≡ some now
  pub stale : IsStale d project_id lock now
  pub found : before ≡ some project
  pub same_lock : recover_selector selector lock project ≡ true
  pub left : after ≡ some (graph_unlock_modifier project)

module _ (projects : Collection Project) where
  open projects use {Db, find, update_one, update_one_lem}

  recovered-cleared :
      (before : Report) (reply : Reply) (report : Report)
      → recovered before reply ≡ ok report
      → report.status ≡ cleared
      → reply ≡ matched 1
  unfolding recovered
  recovered-cleared before rejected report e h = cc
  recovered-cleared before (matched n) report e h = ground (arith, eqb_iff n 1)

  recover_write-Clearance :
      (d : Deployment) (selector : Project → Bool) (project_id : Text) (before : Report)
      (l : TaskLock) (now : ℕ) (others : Db → Db) (db : Db) (report : Report)
      → d.now ≡ some now
      → IsStale d project_id l now
      → (recover_write projects selector before l others db).0 ≡ ok report
      → report.status ≡ cleared
      → Clearance d selector project_id
          (find (others db))
          (find (recover_write projects selector before l others db).1)
  unfolding recover_write
  recover_write-Clearance d selector id before l now others db report clock stale e h =
      let u = recover_update selector l in
      let acked = recovered-cleared before (update_one u (others db)).0 report e h in
      let (p, q, found, fits, modified, left) =
        Updated-one u (find (others db)) (find (update_one u (others db)).1) _
          (update_one_lem u (others db)) acked in
      record {
        lock = l;
        now = now;
        project = p;
        clock = clock;
        stale = stale;
        found = found;
        same_lock = fits;
        left = left ∙ sym modified;
      }

  recover_reported-Clearance :
      (d : Deployment) (selector : Project → Bool) (project_id : Text) (before : Report)
      (status : Status) (lock : Option (TaskLock × ℕ)) (others : Db → Db) (db : Db)
      (report : Report)
      → before.status ≡ status
      → before.lock ≡ lock
      → IsSound d project_id before
      → (recover_reported projects selector before status lock others db).0 ≡ ok report
      → report.status ≡ cleared
      → Clearance d selector project_id
          (find (others db))
          (find (recover_reported projects selector before status lock others db).1)
  unfolding recover_reported
  recover_reported-Clearance d selector id before recoverable (some (l, now)) others db report s k
        sound e h =
      let (l', now', same, clock, stale) = sound.stale s in
      let (el, et) = lock_pair (sym k ∙ same) in
      recover_write-Clearance d selector id before l now others db report
        (subst (λ t. d.now ≡ some t) (sym et) clock)
        (subst (λ x. IsStale d id x now) (sym el) (subst (λ t. IsStale d id l' t) (sym et) stale)) e
        h
  recover_reported-Clearance d selector id before recoverable none others db report s k sound e h =
      (let (_, _, same, _, _) = sound.stale s in absurd (unnamed (sym k ∙ same)))
    where
      unnamed : {x : TaskLock × ℕ} → ¬ (◌≡◌ {A = Option (TaskLock × ℕ)} none (some x))
      unnamed e = cc
  recover_reported-Clearance d selector id before status lock others db report s k sound e h =
      absurd (sound.not_cleared (ground arith))

  -- A recovery that reports a task graph lock as cleared removed that lock and nothing else from the
  -- project, which right before the write had exactly this lock, no lock of the other kind and no
  -- writers, and only because the deployment allows it, another process took the lock, it is at
  -- least fifteen minutes old, and its task is absent or is as it was when the lock was taken.
  pub recover_task_graph_lock-cleared :
      (d : Deployment) (selector : Project → Bool) (project_id : Text) (lock_id : Option Text)
      (others : ℕ → Db → Db) (db : Db) (report : Report)
      → (recover_task_graph_lock projects selector project_id lock_id d others db).0 ≡ ok report
      → report.status ≡ cleared
      → Clearance d selector project_id
          (find (others 1 (others 0 db)))
          (find (recover_task_graph_lock projects selector project_id lock_id d others db).1)
  unfolding recover_task_graph_lock recover_analyzed preview_task_graph_lock_recovery
  recover_task_graph_lock-cleared d selector id lock_id others db report e h =
      analyzed (analyze_read d id lock_id (selected selector (find (others 0 db)))) refl e
    where
      analyzed :
          (analysis : Result TaskGraphError Report)
          → analyze_read d id lock_id (selected selector (find (others 0 db))) ≡ analysis
          → (recover_analyzed projects selector analysis (others 1) (others 0 db)).0 ≡ ok report
          → Clearance d selector id
              (find (others 1 (others 0 db)))
              (find (recover_analyzed projects selector analysis (others 1) (others 0 db)).1)
      analyzed (throw x) a e = cc
      analyzed (ok first) a e =
          recover_reported-Clearance d selector id first first.status first.lock (others 1)
            (others 0 db) report refl refl (analyze_read-IsSound d id lock_id _ first a) e h
