-- ===== src/Fence/Inspection/Previews.antt =====
-- The reports of `inspectProjectChildWriterRecoveries` as previews of its identifiers.
use titra.Common.{
  ℕ, suc, ◌≡◌, refl, subst, Bool, Option, none, some, List, [], ◌∷◌, arith, Text, Result, ok, throw,
  >>=-eq-ok,
}
use titra.Common.Collection.{Collection}
use titra.Fence.Project.{FenceError, Metadata, Project, current_date, resource_type_of, elements}
use titra.Fence.Writers.{tracked}
use titra.Fence.Recovery.{
  Report, Deployment, selected, only_tracked, finder, analyze_age, analyze_tracked, analyze_project,
  analyze_read, preview_project_child_writer_recovery,
}
use titra.Fence.Recovery.Stale.{analyze_resource-reservation, only_tracked-reservation}
use titra.Fence.Recovery.Clearance.{analyze_read-project}
use titra.Fence.Inspection.{with_report, preview_each}

analyze_age-reservation :
    (d : Deployment) (project_id : Text) (m : Metadata) (now : ℕ) (report : Report)
    → analyze_age d project_id m now ≡ ok report
    → report.reservation ≡ some (m, now)
unfolding analyze_age
analyze_age-reservation d id m now report e = ground (
  arith,
  analyze_resource-reservation id m now (finder (resource_type_of m.kind) d.find_resource),
)

analyze_tracked-reservation :
    (d : Deployment) (project_id : Text) (one : Option Metadata) (report : Report) {m : Metadata}
    {t : ℕ}
    → analyze_tracked d project_id one ≡ ok report
    → report.reservation ≡ some (m, t)
    → one ≡ some m
unfolding analyze_tracked
analyze_tracked-reservation d id none report e h = ground arith
analyze_tracked-reservation d id (some n) report e h =
    let (now, _, e') = >>=-eq-ok (current_date d.now) _ e in
    ground (arith, analyze_age-reservation d id n now report e')

-- The reservation that a report tells of is the one that was asked for.
analyze_project-reservation :
    (d : Deployment) (project_id reservation_id : Text) (project : Option Project) (report : Report)
    {m : Metadata} {t : ℕ}
    → analyze_project d project_id reservation_id project ≡ ok report
    → report.reservation ≡ some (m, t)
    → m.reservation_id ≡ reservation_id
unfolding analyze_project
analyze_project-reservation d id rid none report e h = absurd (ground arith)
analyze_project-reservation d id rid (some p) report {m = m} {t = t} e h =
    only_tracked-reservation (elements p.lifecycle_writer_metadata) rid m (
      ground (
        arith,
        analyze_tracked-reservation d id
            (only_tracked (tracked rid (elements p.lifecycle_writer_metadata))) report {m = m}
            {t = t},
      ))

with_report-eq-ok :
    (r : Result FenceError Report) (rest : Result FenceError (List Report)) {reports : List Report}
    → with_report r rest ≡ ok reports
    → (x : Report) × (xs : List Report) × (r ≡ ok x) × (rest ≡ ok xs) × (x ∷ xs ≡ reports)
unfolding with_report
with_report-eq-ok (throw e) rest h = cc
with_report-eq-ok (ok r) (throw e) h = cc
with_report-eq-ok (ok r) (ok rs) h = (r, rs, refl, refl, ground arith)

-- Metadata that a report may tell of, if it tells of any.
abbrev pub Names : Text → Option (Metadata × ℕ) → Type 0
Names id none = Unit
Names id (some (m, _)) = m.reservation_id ≡ id

analyze_read-Names :
    (d : Deployment) (project_id id : Text) (project : Option Project) (report : Report)
    → analyze_read d project_id id project ≡ ok report
    → Names id report.reservation
analyze_read-Names d project_id id project report e = told report.reservation refl
  where
    told : (o : Option (Metadata × ℕ)) → report.reservation ≡ o → Names id o
    told none same = tt
    told (some (m, t)) same =
        analyze_project-reservation d project_id id project report {m = m} {t = t}
          (analyze_read-project d project_id id project report e) same

module _ (projects : Collection Project) where
  open projects use {Db, find}

  -- The report is the analysis of the reservation as it was seen, and tells of no other reservation.
  pub record IsPreview (selector : Project → Bool) (project_id : Text) (d : Deployment) (seen : Db)
      (id : Text) (report : Report) : Type 0 where
    pub analyzed : analyze_read d project_id id (selected selector (find seen)) ≡ ok report
    pub named : Names id report.reservation

  -- One preview for each identifier, in the same order, from one read after another.
  abbrev pub ArePreviews :
      (Project → Bool)
      → Text
      → Deployment
      → (ℕ → Db → Db)
      → ℕ
      → Db
      → List Text
      → List Report
      → Type 0
  ArePreviews selector project_id d others k db [] [] = Unit
  ArePreviews selector project_id d others k db (id ∷ ids) (r ∷ rs) =
      IsPreview selector project_id d (others k db) id r
      × ArePreviews selector project_id d others (suc k) (others k db) ids rs
  ArePreviews selector project_id d others k db _ _ = ⊥

  analyze_read-IsPreview :
      (selector : Project → Bool) (project_id id : Text) (d : Deployment) (seen : Db)
      {report : Report}
      → analyze_read d project_id id (selected selector (find seen)) ≡ ok report
      → IsPreview selector project_id d seen id report
  analyze_read-IsPreview selector project_id id d seen {report = report} e = record {
    analyzed = e;
    named = analyze_read-Names d project_id id (selected selector (find seen)) report e;
  }

  pub preview_each-ArePreviews :
      (selector : Project → Bool) (project_id : Text) (d : Deployment) (others : ℕ → Db → Db)
      (k : ℕ) (ids : List Text) (db : Db) {reports : List Report}
      → (preview_each projects selector project_id d others k ids db).0 ≡ ok reports
      → ArePreviews selector project_id d others k db ids reports
  unfolding preview_each preview_project_child_writer_recovery
  preview_each-ArePreviews selector project_id d others k [] db {reports = []} h = tt
  preview_each-ArePreviews selector project_id d others k [] db {reports = r ∷ rs} h =
      absurd (ground arith)
  preview_each-ArePreviews selector project_id d others k (id ∷ ids) db h =
      let (x, xs, first, rest, all) = with_report-eq-ok _ _ h in
      subst (ArePreviews selector project_id d others k db (id ∷ ids)) all (
        analyze_read-IsPreview selector project_id id d (others k db) first,
        preview_each-ArePreviews selector project_id d others (suc k) ids (others k db) rest,
      )
