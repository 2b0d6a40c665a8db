-- ===== src/Fence/Orphans.antt =====
-- No interleaving leaves a child without its project.
pub mod Phases
mod Calls
mod Events
use titra.Common.{
  ℕ, ◌≡◌, ◌≢◌, refl, sym, ap, ◌∙◌, subst, ◌⊎◌, inl, inr, Bool, true, false, Option, none, some,
  List, [], ◌∷◌, arith, Text, ==_self, eqb, eqb_iff, if◌then◌else◌, Bool-cases, contains, without,
  List_eq, ℕ_eq, Stored_eq, Stored, missing, held, junk, keep, not, ◌&&◌, exists,
}
use mathlib.Core.Bool.{false≢true}
use titra.Fence.Project.{
  Metadata, Lock, Project, ResourceType, task, timecard, is_absent_or_empty, elements,
}
use titra.Fence.Writers.{
  acquire_selector, acquire_modifier, holds_writer, release_modifier, pull_writer,
}
use titra.Fence.Deletion.{
  lock_selector, lock_modifier, own_lock_selector, unlock_modifier, has_lock_id,
}
use titra.Fence.Laws.{
  Acquired, acquire-Acquired, acquire-holds_writer, acquire-keeps, release-keeps,
  absent_or_empty-holds_writer, exists-missing, holds_writer_lem, elements_of_absent,
}
use titra.Fence.System.{
  Shared, Phase, idle, writing, deleting, System, update, with_child, Call, acquire, create,
  release, lock, count_timecards, count_tasks, delete, unlock, Event, remove, edit, recover, Step,
  calls, happens, Reach, here, next,
}
use Phases.{
  fresh_differs, missing_not_locked, HoldsIn, pull_empty, release_empty, LockedIn, Fits, excluded,
  lock_selector_lem, locks, holds_child, Apart, HasNoOrphans, Inv, Apart-sym,
}
use Calls.{Call-Inv}
use Events.{Event-Inv}

pub Step-Inv : {s t : System} → Inv s → Step s t → Inv t
Step-Inv {s} inv (calls i at call) = Call-Inv s i inv at call
Step-Inv {s} inv (happens event) = Event-Inv s inv event

pub Reach-Inv : {s t : System} → Inv s → Reach s t → Inv t
Reach-Inv inv here = inv
Reach-Inv inv (next r step) = Step-Inv (Reach-Inv inv r) step

-- Every process is idle at the start.
abbrev pub IsQuiet : System → Type 0
IsQuiet s = (i : ℕ) → s.phase i ≡ idle

IsQuiet-Inv : (s : System) → IsQuiet s → HasNoOrphans s.shared → Inv s
IsQuiet-Inv s quiet clean = record {
  fit = λ i. rw (quiet i) tt;
  apart = λ i j ne.
      subst (λ z. Apart z (s.phase j)) (sym (quiet i)) (subst (Apart idle) (sym (quiet j)) tt);
  no_orphans = clean;
}

-- From a start in which every process is idle and no child is left without its project, whatever
-- the processes do, in any interleaving of their calls of the database, with children removed,
-- reservations of dead writers cleared and lost answers in between: when the project is gone, no
-- timecard and no task of it is left.
pub no_orphans :
    {s t : System}
    → IsQuiet s
    → HasNoOrphans s.shared
    → Reach s t
    → t.shared.project ≡ none
    → (t.shared.timecards ≡ []) × (t.shared.tasks ≡ [])
no_orphans {s} quiet clean r = (Reach-Inv (IsQuiet-Inv s quiet clean) r).no_orphans
