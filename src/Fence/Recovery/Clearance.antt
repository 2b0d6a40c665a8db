-- ===== src/Fence/Recovery/Clearance.antt =====
-- A recovery clears one stale reservation, or nothing.
use titra.Common.{
  ℕ, ◌≡◌, ◌≢◌, refl, sym, ap, ◌∙◌, subst, Bool, true, not, Option, none, some, arith, Text, ℕ_eq,
  List_eq, eqb_iff, Result, ok, throw, throw_if-eq-ok, >>=-eq-ok, Stored_eq,
}
use titra.Common.Collection.{Collection, Reply, matched, rejected, Updated-one}
use titra.Fence.Project.{
  FenceError, project_child_fence_invalid, Metadata, Project, validate_fence_id, current_date,
  resource_type_of, elements,
}
use titra.Fence.Writers.{tracked, release_modifier}
use titra.Fence.Recovery.{
  Status, recoverable, cleared, Report, Resource, Deployment, only_tracked, analyze_resource,
  analyze_age, analyze_tracked, analyze_project, analyze_read, finder, selected, recover_selector,
  recover_update, recovered, recover_write, recover_reported, recover_analyzed,
  recover_project_child_writer,
}
use titra.Fence.Recovery.Stale.{IsStale, analyze_project-IsStale}

some_pair :
    {m n : Metadata} {s t : ℕ}
    → ◌≡◌ {A = Option (Metadata × ℕ)} (some (m, s)) (some (n, t))
    → (m ≡ n) × (s ≡ t)
some_pair e = (cc, cc)

-- An analysis alone never says that something was cleared.
analyze_resource-ne-cleared :
    (project_id : Text) (m : Metadata) (now : ℕ) (f : Option (Text → Option Resource))
    → (analyze_resource project_id m now f).status ≢ cleared
unfolding analyze_resource
analyze_resource-ne-cleared id m now none = cc
analyze_resource-ne-cleared id m now (some f) = ground arith

analyze_age-ne-cleared :
    (d : Deployment) (project_id : Text) (m : Metadata) (now : ℕ) (report : Report)
    → analyze_age d project_id m now ≡ ok report
    → report.status ≢ cleared
unfolding analyze_age
analyze_age-ne-cleared d id m now report e h =
    ground (
      arith,
      analyze_resource-ne-cleared id m now (finder (resource_type_of m.kind) d.find_resource),
    )

analyze_tracked-ne-cleared :
    (d : Deployment) (project_id : Text) (one : Option Metadata) (report : Report)
    → analyze_tracked d project_id one ≡ ok report
    → report.status ≢ cleared
unfolding analyze_tracked
analyze_tracked-ne-cleared d id none report e h = ground arith
analyze_tracked-ne-cleared d id (some m) report e h =
    let (now, _, e') = >>=-eq-ok (current_date d.now) _ e in
    analyze_age-ne-cleared d id m now report e' h

analyze_project-ne-cleared :
    (d : Deployment) (project_id reservation_id : Text) (project : Option Project) (report : Report)
    → analyze_project d project_id reservation_id project ≡ ok report
    → report.status ≢ cleared
unfolding analyze_project
analyze_project-ne-cleared d id rid none report e h = ground arith
analyze_project-ne-cleared d id rid (some p) report e h = ground (
  arith,
  analyze_tracked-ne-cleared d id
      (only_tracked (tracked rid (elements p.lifecycle_writer_metadata))) report,
)

pub analyze_read-project :
    (d : Deployment) (project_id reservation_id : Text) (project : Option Project) (report : Report)
    → analyze_read d project_id reservation_id project ≡ ok report
    → analyze_project d project_id reservation_id project ≡ ok report
unfolding analyze_read
analyze_read-project d id rid project report e =
    (throw_if-eq-ok (not (validate_fence_id rid)) project_child_fence_invalid
      (analyze_project d id rid project) e).1

-- The one write of a recovery: the document before it, and what it leaves.
pub record Clearance (d : Deployment) (selector : Project → Bool) (project_id reservation_id : Text)
    (before after : Option Project) : Type 0 where
  pub metadata : Metadata
  pub now : ℕ
  pub project : Project
  pub named : metadata.reservation_id ≡ reservation_id
  pub clock : d.now ≡ some now
  pub stale : IsStale d project_id metadata now
  pub found : before ≡ some project
  pub unchanged : recover_selector selector metadata project ≡ true
  pub left : after ≡ some (release_modifier metadata project)

module _ (projects : Collection Project) where
  open projects use {Db, find, update_one, update_one_lem}

  recovered-cleared :
      (before : Report) (reply : Reply) (report : Report)
      → recovered before reply ≡ ok report
      → report.status ≡ cleared
      → reply ≡ matched 1
  unfolding recovered
  recovered-cleared before rejected report e h = cc
  recovered-cleared before (matched n) report e h = ground (arith, eqb_iff n 1)

  recover_reported-cleared :
      (selector : Project → Bool) (before : Report) (status : Status)
      (reservation : Option (Metadata × ℕ)) (others : Db → Db) (db : Db) (report : Report)
      → before.status ≡ status
      → status ≢ cleared
      → (recover_reported projects selector before status reservation others db).0 ≡ ok report
      → report.status ≡ cleared
      → (m : Metadata) × (now : ℕ) × (status ≡ recoverable)
        × (reservation ≡ some (m, now))
        × (recover_reported projects selector before status reservation others db
            ≡ recover_write projects selector before m others db)
  unfolding recover_reported
  recover_reported-cleared selector before recoverable (some (m, now)) others db report s ne e h =
      (m, now, refl, refl, refl)
  recover_reported-cleared selector before recoverable none others db report s ne e h = ground arith
  recover_reported-cleared selector before status reservation others db report s ne e h =
      ground arith

  recover_write-cleared :
      (selector : Project → Bool) (before : Report) (m : Metadata) (others : Db → Db) (db : Db)
      (report : Report)
      → (recover_write projects selector before m others db).0 ≡ ok report
      → report.status ≡ cleared
      → (p : Project) × (find (others db) ≡ some p)
        × (recover_selector selector m p ≡ true)
        × (find (recover_write projects selector before m others db).1
            ≡ some (release_modifier m p))
  unfolding recover_write
  recover_write-cleared selector before m others db report e h =
      let u = recover_update selector m in
      let acked = recovered-cleared before (update_one u (others db)).0 report e h in
      let (p, q, found, fits, modified, left) =
        Updated-one u (find (others db)) (find (update_one u (others db)).1) _
          (update_one_lem u (others db)) acked in
      (p, found, fits, left ∙ sym modified)

  recover_analyzed-cleared :
      (d : Deployment) (selector : Project → Bool) (project_id reservation_id : Text)
      (project : Option Project) (analysis : Result FenceError Report) (others : Db → Db) (db : Db)
      (report : Report)
      → analyze_read d project_id reservation_id project ≡ analysis
      → (recover_analyzed projects selector analysis others db).0 ≡ ok report
      → report.status ≡ cleared
      → Clearance d selector project_id reservation_id
          (find (others db))
          (find (recover_analyzed projects selector analysis others db).1)
  unfolding recover_analyzed
  recover_analyzed-cleared d selector id rid project (throw x) others db report a e h = cc
  recover_analyzed-cleared d selector id rid project (ok first) others db report a e h =
      let analyzed = analyze_read-project d id rid project first a in
      let never = analyze_project-ne-cleared d id rid project first analyzed in
      let (m, now, ready, reserved, write) =
        recover_reported-cleared selector first first.status first.reservation others db report refl
          never e h in
      let (n, t, clock, stale, same, named) =
        analyze_project-IsStale d id rid project first analyzed ready in
      let (p, found, fits, left) =
        recover_write-cleared selector first m others db report (ap (λ r. r.0) (sym write) ∙ e) h in
      let (em, et) = some_pair (sym reserved ∙ same) in
      record {
        metadata = m;
        now = t;
        project = p;
        named = ap (λ (x : Metadata). x.reservation_id) em ∙ named;
        clock = clock;
        stale = subst (λ x. IsStale d id x t) (sym em) stale;
        found = found;
        unchanged = fits;
        left = ap (λ r. find r.1) write ∙ left;
      }

  -- A recovery that reports a reservation as cleared removed exactly that reservation from the
  -- project, as it stood right before the write and unlocked, and only because the deployment
  -- allows it, the reservation belongs to another process, is at least fifteen minutes old, and its
  -- resource is absent or in this project.
  pub recover_project_child_writer-cleared :
      (d : Deployment) (selector : Project → Bool) (project_id reservation_id : Text)
      (others : ℕ → Db → Db) (db : Db) (report : Report)
      → (recover_project_child_writer projects selector project_id reservation_id d others db).0
        ≡ ok report
      → report.status ≡ cleared
      → Clearance d selector project_id reservation_id (find (others 1 (others 0 db))) (
          find
            (recover_project_child_writer projects selector project_id reservation_id d others
              db).1)
  unfolding recover_project_child_writer
  recover_project_child_writer-cleared d selector id rid others db report e h =
      recover_analyzed-cleared d selector id rid (selected selector (find (others 0 db)))
        (analyze_read d id rid (selected selector (find (others 0 db)))) (others 1) (others 0 db)
        report refl e h
