-- ===== src/Fence/Orphans/Events.antt =====
-- What happens to the documents besides keeps what all processes rely on.
use titra.Common.{
  ℕ, ◌≡◌, ◌≢◌, refl, subst, some, List, [], ◌∷◌, Text, without, List_eq, ℕ_eq, Stored_eq, keep,
}
use titra.Fence.Project.{Metadata, Project}
use titra.Fence.Writers.{holds_writer, release_modifier}
use titra.Fence.Laws.{release-keeps}
use titra.Fence.System.{
  Shared, Phase, idle, writing, deleting, System, Event, remove, edit, recover,
}
use titra.Fence.Orphans.Phases.{HoldsIn, release_empty, LockedIn, Fits, HasNoOrphans, Inv}

-- What an event must leave to each process that runs.
pub keep_event :
    (s : System) (t : Shared)
    → Inv s
    → ((j : ℕ) → Fits s.shared (s.phase j) → Fits t (s.phase j))
    → HasNoOrphans t
    → Inv (record { shared = t; phase = s.phase })
keep_event s t inv kept clean = record {
  fit = λ j. kept j (inv.fit j);
  apart = inv.apart;
  no_orphans = clean;
}

pub without_empty : (id : Text) (xs : List Text) → xs ≡ [] → without id xs ≡ []
unfolding keep
without_empty id [] e = refl
without_empty id (x ∷ xs) e = cc

pub remove_fits :
    (s : Shared) (id : Text) (z : Phase)
    → Fits s z
    → Fits (record s { timecards = without id s.timecards; tasks = without id s.tasks }) z
remove_fits s id idle f = tt
remove_fits s id (writing m) f = f
remove_fits s id (deleting l b c) f =
    (f.0, (λ e. without_empty id s.timecards (f.1 e)), (λ e. without_empty id s.tasks (f.2 e)))

pub edit_fits :
    (s : Shared) (p q : Project)
    → s.project ≡ some p
    → q.lifecycle_lock ≡ p.lifecycle_lock
    → q.lifecycle_writers ≡ p.lifecycle_writers
    → q.lifecycle_writer_metadata ≡ p.lifecycle_writer_metadata
    → (z : Phase) → Fits s z
    → Fits (record s { project = some q }) z
unfolding holds_writer
edit_fits s p q found el ew em idle f = tt
edit_fits s p q found el ew em (writing m) f = rw (ew, em) (subst (HoldsIn m) found f)
edit_fits s p q found el ew em (deleting l b c) f =
    let locked = subst (LockedIn l) found f.0 in ((rw el locked.0, rw ew locked.1), f.1, f.2)

pub recover_fits :
    (s : Shared) (m : Metadata) (p : Project) (z : Phase)
    → s.project ≡ some p
    → ((n : Metadata) → z ≡ writing n → m.reservation_id ≢ n.reservation_id)
    → Fits s z
    → Fits (record s { project = some (release_modifier m p) }) z
unfolding release_modifier
recover_fits s m p idle found dead f = tt
recover_fits s m p (writing n) found dead f =
    release-keeps m n p (dead n refl) (subst (HoldsIn n) found f)
recover_fits s m p (deleting l b c) found dead f =
    let locked = subst (LockedIn l) found f.0 in ((locked.0, release_empty m p locked.1), f.1, f.2)

pub Event-Inv :
    (s : System) {t : Shared} → Inv s → Event s t → Inv (record { shared = t; phase = s.phase })
Event-Inv s inv (remove id) =
    keep_event s
      (record s.shared {
        timecards = without id s.shared.timecards;
        tasks = without id s.shared.tasks;
      })
      inv (λ j. remove_fits s.shared id (s.phase j))
      λ e.
        let (no_timecards, no_tasks) = inv.no_orphans e in
        (without_empty id s.shared.timecards no_timecards, without_empty id s.shared.tasks no_tasks)
Event-Inv s inv (edit p q found el ew em) =
    keep_event s (record s.shared { project = some q }) inv
      (λ j. edit_fits s.shared p q found el ew em (s.phase j)) (λ e. cc)
Event-Inv s inv (recover m p found dead) =
    keep_event s (record s.shared { project = some (release_modifier m p) }) inv
      (λ j. recover_fits s.shared m p (s.phase j) found (dead j)) (λ e. cc)
