-- ===== src/Fence/Recovery/Stale.antt =====
-- When the analysis of a reservation calls it recoverable.
use titra.Common.{
  ℕ, ◌+◌, ◌≤◌, ◌≡◌, ◌≢◌, refl, sym, ap, ◌∙◌, true, Option, none, some, List, [], ◌∷◌, arith, Text,
  ℕ_eq, List_eq, beq_list_iff, ok, >>=-eq-ok, keep-head, held-injective, Stored, Stored_eq, ◌==◌,
  ==→≡, held, missing,
}
use titra.Fence.Project.{
  minimum_fence_recovery_age_ms, Metadata, Entry, Project, current_date, metadata_of,
  typed_metadata, resource_type_of, elements,
}
use titra.Fence.Writers.{tracked}
use titra.Fence.Recovery.{
  recoverable, unexpected, Report, Resource, Deployment, only_tracked, resource_status_of,
  analyze_resource, analyze_age, analyze_tracked, analyze_project, is_old_enough, finder,
}

-- What makes a reservation recoverable.
pub record IsStale (d : Deployment) (project_id : Text) (m : Metadata) (now : ℕ) : Type 0 where
  pub allowed : d.allow_stale_fence_recovery ≡ true
  pub other_process : m.boot_id ≢ d.boot_id
  pub old : m.acquired_at + minimum_fence_recovery_age_ms ≤ now
  pub find_resource : Text → Option Resource
  pub found : finder (resource_type_of m.kind) d.find_resource ≡ some find_resource
  pub expected : resource_status_of project_id m (find_resource m.resource_id) ≢ unexpected

pub analyze_resource-recoverable :
    (project_id : Text) (m : Metadata) (now : ℕ) (f : Option (Text → Option Resource))
    → (analyze_resource project_id m now f).status ≡ recoverable
    → (find_resource : Text → Option Resource) × (f ≡ some find_resource)
      × (resource_status_of project_id m (find_resource m.resource_id) ≢ unexpected)
unfolding analyze_resource
analyze_resource-recoverable id m now none h = cc
analyze_resource-recoverable id m now (some f) h = (f, refl, λ u. ground (arith, u))

pub analyze_resource-reservation :
    (project_id : Text) (m : Metadata) (now : ℕ) (f : Option (Text → Option Resource))
    → (analyze_resource project_id m now f).reservation ≡ some (m, now)
unfolding analyze_resource
analyze_resource-reservation id m now none = refl
analyze_resource-reservation id m now (some f) = refl

pub is_old_enough_lem :
    (m : Metadata) (now : ℕ)
    → is_old_enough m now ≡ true
    → m.acquired_at + minimum_fence_recovery_age_ms ≤ now
unfolding is_old_enough
is_old_enough_lem m now h = ground arith

-- The chain of refusals of `analyze_age`, passed.
pub analyze_age_passed :
    (d : Deployment) (project_id : Text) (m : Metadata) (now : ℕ) (report : Report)
    → analyze_age d project_id m now ≡ ok report
    → report.status ≡ recoverable
    → (d.allow_stale_fence_recovery ≡ true)
      × (m.boot_id ≢ d.boot_id)
      × (is_old_enough m now ≡ true)
      × (report
          ≡ analyze_resource project_id m now (finder (resource_type_of m.kind) d.find_resource))
unfolding analyze_age
analyze_age_passed d id m now report e h = ground (arith, beq_list_iff m.boot_id d.boot_id)

pub analyze_age-IsStale :
    (d : Deployment) (project_id : Text) (m : Metadata) (now : ℕ) (report : Report)
    → analyze_age d project_id m now ≡ ok report
    → report.status ≡ recoverable
    → IsStale d project_id m now × (report.reservation ≡ some (m, now))
analyze_age-IsStale d id m now report e h =
    let (allowed, other, old, same) = analyze_age_passed d id m now report e h in
    let f = finder (resource_type_of m.kind) d.find_resource in
    let (find_resource, found, expected) =
      analyze_resource-recoverable id m now f (ap (λ (r : Report). r.status) (sym same) ∙ h) in
    (
      record {
        allowed = allowed;
        other_process = other;
        old = is_old_enough_lem m now old;
        find_resource = find_resource;
        found = found;
        expected = expected;
      },
      ap (λ (r : Report). r.reservation) same ∙ analyze_resource-reservation id m now f,
    )

pub current_date-eq-ok :
    (clock : Option ℕ) (now : ℕ) → current_date clock ≡ ok now → clock ≡ some now
unfolding current_date
current_date-eq-ok none now h = cc
current_date-eq-ok (some t) now h = ground arith

pub analyze_project-none :
    (d : Deployment) (project_id reservation_id : Text) (report : Report)
    → analyze_project d project_id reservation_id none ≡ ok report
    → report.status ≢ recoverable
unfolding analyze_project
analyze_project-none d id rid report e h = ground arith

pub typed-reservation :
    (r k i : Stored Text) (t : Stored ℕ) (b : Stored Text) {m : Metadata}
    → typed_metadata r k i t b ≡ some m
    → r ≡ held m.reservation_id
unfolding typed_metadata
typed-reservation (held r) (held k) (held i) (held t) (held b) h = ground arith
typed-reservation missing k i t b h = cc
typed-reservation r k i t b h = ground arith

pub only_tracked_lem :
    (entries : List Entry) (m : Metadata)
    → only_tracked entries ≡ some m
    → (e : Entry) × (entries ≡ e ∷ []) × (metadata_of e ≡ some m)
unfolding only_tracked
only_tracked_lem [] m h = cc
only_tracked_lem (e ∷ []) m h = (e, refl, ground arith)
only_tracked_lem (e ∷ f ∷ es) m h = cc

-- Only a project that tracks the reservation once is analysed further.
pub analyze_project-tracked :
    (d : Deployment) (project_id reservation_id : Text) (p : Project) (report : Report)
    → analyze_project d project_id reservation_id (some p) ≡ ok report
    → report.status ≡ recoverable
    → analyze_tracked d project_id
        (only_tracked (tracked reservation_id (elements p.lifecycle_writer_metadata)))
      ≡ ok report
unfolding analyze_project
analyze_project-tracked d id rid p report e h = ground arith

pub analyze_tracked-some :
    (d : Deployment) (project_id : Text) (tracked_one : Option Metadata) (report : Report)
    → analyze_tracked d project_id tracked_one ≡ ok report
    → report.status ≡ recoverable
    → (m : Metadata) × (now : ℕ) × (tracked_one ≡ some m)
      × (d.now ≡ some now)
      × (analyze_age d project_id m now ≡ ok report)
unfolding analyze_tracked
analyze_tracked-some d id none report e h = ground arith
analyze_tracked-some d id (some m) report e h =
    let (now, clock, e') = >>=-eq-ok (current_date d.now) _ e in
    (m, now, refl, current_date-eq-ok d.now now clock, e')

pub metadata_of-reservation :
    (e : Entry) (m : Metadata) → metadata_of e ≡ some m → e.reservation_id ≡ held m.reservation_id
unfolding metadata_of
metadata_of-reservation e m h =
    typed-reservation e.reservation_id e.kind e.resource_id e.acquired_at e.boot_id h

pub only_tracked-reservation :
    (entries : List Entry) (reservation_id : Text) (m : Metadata)
    → only_tracked (tracked reservation_id entries) ≡ some m
    → m.reservation_id ≡ reservation_id
only_tracked-reservation entries rid m h = single (tracked rid entries) refl h
  where
    single :
        (es : List Entry)
        → tracked rid entries ≡ es
        → only_tracked es ≡ some m
        → m.reservation_id ≡ rid
    single es same o =
        let (e, one, typed) = only_tracked_lem es m o in
        let named =
          keep-head (λ (x : Entry). x.reservation_id == held rid) entries e []
            (unfold tracked in (same ∙ one)) in
        held-injective
          (sym (metadata_of-reservation e m typed) ∙ ==→≡ e.reservation_id (held rid) named)

pub analyze_project-IsStale :
    (d : Deployment) (project_id reservation_id : Text) (project : Option Project) (report : Report)
    → analyze_project d project_id reservation_id project ≡ ok report
    → report.status ≡ recoverable
    → (m : Metadata) × (now : ℕ) × (d.now ≡ some now)
      × IsStale d project_id m now
      × (report.reservation ≡ some (m, now))
      × (m.reservation_id ≡ reservation_id)
analyze_project-IsStale d id rid none report e h = absurd (analyze_project-none d id rid report e h)
analyze_project-IsStale d id rid (some p) report e h =
    let one = only_tracked (tracked rid (elements p.lifecycle_writer_metadata)) in
    let tracked_once = analyze_project-tracked d id rid p report e h in
    let (m, now, found, clock, aged) = analyze_tracked-some d id one report tracked_once h in
    let (stale, reserved) = analyze_age-IsStale d id m now report aged h in
    (
      m,
      now,
      clock,
      stale,
      reserved,
      only_tracked-reservation (elements p.lifecycle_writer_metadata) rid m found,
    )
