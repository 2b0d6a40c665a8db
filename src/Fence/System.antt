-- ===== src/Fence/System.antt =====
-- Any number of processes that work on one project: child writers under reservations, deletions
-- under the lock, recoveries of reservations, interleaved one database call at a time.
use titra.Common.{
  ℕ, ◌≡◌, ◌≢◌, Bool, true, false, Option, none, some, List, [], ◌∷◌, Text, eqb, if◌then◌else◌,
  without, List_eq, ℕ_eq,
}
use titra.Fence.Project.{Metadata, Lock, Project, ResourceType, task, timecard}
use titra.Fence.Writers.{acquire_selector, acquire_modifier, holds_writer, release_modifier}
use titra.Fence.Deletion.{lock_selector, lock_modifier, own_lock_selector, unlock_modifier}

-- The documents: the project, and the identifiers of its children in two collections.
pub record Shared : Type 0 where
  pub project : Option Project
  pub timecards : List Text
  pub tasks : List Text

-- Where a process stands: it holds a reservation and may write children, or it holds the lock and
-- has found no timecards, or no tasks.
pub data Phase : Type 0 where
  idle : Phase
  writing : Metadata → Phase
  deleting : (lock_id : Text) (no_timecards no_tasks : Bool) → Phase

pub record System : Type 0 where
  pub shared : Shared
  pub phase : ℕ → Phase

abbrev pub update : (ℕ → Phase) → ℕ → Phase → ℕ → Phase
update f i x j = if eqb i j then x else f j

abbrev pub with_child : ResourceType → Text → Shared → Shared
with_child task id s = record s { tasks = id ∷ s.tasks }
with_child timecard id s = record s { timecards = id ∷ s.timecards }

-- One call of the database by the process `i`. The order of a process's calls is written out here by
-- hand, with the selectors and modifiers of the modelled handlers; they are those of
-- projectChildFence.js: `acquire`, `create` and `release` of a child writer (a writer whose call
-- failed with an unknown outcome stays `writing` for ever, and its write may still arrive),
-- `lock`, the two counts, `delete` and `unlock` of a deletion.
pub data Call (i : ℕ) (s : Shared) : Phase → Shared → Phase → Type 0 where
  acquire :
      (selector : Project → Bool) (m : Metadata) (p q : Project)
      → s.project ≡ some p
      → acquire_selector selector m.reservation_id p ≡ true
      → acquire_modifier m p ≡ some q
      → Call i s idle (record s { project = some q }) (writing m)
  create :
      (m : Metadata) (kind : ResourceType) (id : Text)
      → Call i s (writing m) (with_child kind id s) (writing m)
  release :
      (m : Metadata) (p : Project)
      → s.project ≡ some p
      → holds_writer m p ≡ true
      → Call i s (writing m) (record s { project = some (release_modifier m p) }) idle
  lock :
      (selector : Project → Bool) (l : Lock) (p : Project)
      → s.project ≡ some p
      → lock_selector selector p ≡ true
      → Call i s idle
          (record s { project = some (lock_modifier l p) })
          (deleting l.lock_id false false)
  count_timecards :
      (lock_id : Text) (b : Bool)
      → s.timecards ≡ []
      → Call i s (deleting lock_id false b) s (deleting lock_id true b)
  count_tasks :
      (lock_id : Text) (b : Bool)
      → s.tasks ≡ []
      → Call i s (deleting lock_id b false) s (deleting lock_id b true)
  delete :
      (lock_id : Text) (p : Project)
      → s.project ≡ some p
      → own_lock_selector p.id lock_id p ≡ true
      → Call i s (deleting lock_id true true) (record s { project = none }) idle
  unlock :
      (lock_id : Text) (b c : Bool) (p : Project)
      → s.project ≡ some p
      → own_lock_selector p.id lock_id p ≡ true
      → Call i s (deleting lock_id b c) (record s { project = some (unlock_modifier p) }) idle

-- What happens to the documents besides: children are removed, other fields of the project change,
-- and a stale reservation is cleared in one step. That its writer no longer runs is an assumption: the
-- code concludes it from the boot id and the age of the reservation.
pub data Event (s : System) : Shared → Type 0 where
  remove :
      (id : Text)
      → Event s (record s.shared {
        timecards = without id s.shared.timecards;
        tasks = without id s.shared.tasks;
      })
  edit :
      (p q : Project)
      → s.shared.project ≡ some p
      → q.lifecycle_lock ≡ p.lifecycle_lock
      → q.lifecycle_writers ≡ p.lifecycle_writers
      → q.lifecycle_writer_metadata ≡ p.lifecycle_writer_metadata
      → Event s (record s.shared { project = some q })
  recover :
      (m : Metadata) (p : Project)
      → s.shared.project ≡ some p
      → ((j : ℕ) (n : Metadata) → s.phase j ≡ writing n → m.reservation_id ≢ n.reservation_id)
      → Event s (record s.shared { project = some (release_modifier m p) })

pub data Step (s : System) : System → Type 0 where
  calls :
      (i : ℕ) {x : Phase} {t : Shared} {y : Phase}
      → s.phase i ≡ x
      → Call i s.shared x t y
      → Step s (record { shared = t; phase = update s.phase i y })
  happens : {t : Shared} → Event s t → Step s (record { shared = t; phase = s.phase })

pub data Reach (first : System) : System → Type 0 where
  here : Reach first first
  next : {last then_last : System} → Reach first last → Step last then_last → Reach first then_last
