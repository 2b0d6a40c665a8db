-- ===== src/Fence/Orphans/Phases.antt =====
-- What each process relies on between two calls of the database, and that processes exclude one
-- another.
use titra.Common.{
  ℕ, ◌≡◌, ◌≢◌, refl, sym, ◌∙◌, subst, Bool, true, false, Option, none, some, List, [], ◌∷◌, arith,
  Text, ==_self, contains, List_eq, ℕ_eq, Stored_eq, Stored, missing, held, junk, keep,
}
use mathlib.Core.Bool.{false≢true}
use titra.Fence.Project.{
  Metadata, Lock, Project, ResourceType, task, timecard, is_absent_or_empty, elements,
}
use titra.Fence.Writers.{holds_writer, release_modifier, pull_writer}
use titra.Fence.Deletion.{lock_selector, lock_modifier, has_lock_id}
use titra.Fence.Laws.{Acquired, absent_or_empty-holds_writer, exists-missing, holds_writer_lem}
use titra.Fence.System.{Shared, Phase, idle, writing, deleting, System, with_child}

-- A reservation that was acquired was not there before.
pub fresh_differs :
    (m n : Metadata) (p : Project) {q : Project}
    → Acquired m p q
    → holds_writer n p ≡ true
    → m.reservation_id ≢ n.reservation_id
fresh_differs m n p a h e = false≢true (
    sym (subst (λ r. contains (held r) (elements p.lifecycle_writers) ≡ false) e a.fresh)
    ∙ (holds_writer_lem n p h).0)

pub missing_not_locked :
    (lock_id : Text) (l : Stored Lock) → l ≡ missing → has_lock_id lock_id l ≢ true
missing_not_locked lock_id missing e h = cc
missing_not_locked lock_id (held l) e h = cc
missing_not_locked lock_id (junk m) e h = cc

abbrev pub HoldsIn : Metadata → Option Project → Type 0
HoldsIn m none = ⊥
HoldsIn m (some p) = holds_writer m p ≡ true

pub pull_empty :
    (a : Stored Text) (field : Stored (List (Stored Text)))
    → is_absent_or_empty field ≡ true
    → is_absent_or_empty (pull_writer a field) ≡ true
unfolding pull_writer keep
pull_empty a missing h = refl
pull_empty a (held []) h = refl
pull_empty a (held (x ∷ xs)) h = cc
pull_empty a (junk m) h = cc

pub release_empty :
    (m : Metadata) (p : Project)
    → is_absent_or_empty p.lifecycle_writers ≡ true
    → is_absent_or_empty (release_modifier m p).lifecycle_writers ≡ true
unfolding release_modifier
release_empty m p h = pull_empty (held m.reservation_id) p.lifecycle_writers h

abbrev pub LockedIn : Text → Option Project → Type 0
LockedIn lock_id none = ⊥
LockedIn lock_id (some p) =
    (has_lock_id lock_id p.lifecycle_lock ≡ true) × (is_absent_or_empty p.lifecycle_writers ≡ true)

-- What a process in a phase relies on: its reservation stands in the project; its lock does, there
-- are no writers, and what it counted as zero is still zero.
abbrev pub Fits : Shared → Phase → Type 0
Fits s idle = Unit
Fits s (writing m) = HoldsIn m s.project
Fits s (deleting lock_id b c) =
    LockedIn lock_id s.project × (b ≡ true → s.timecards ≡ []) × (c ≡ true → s.tasks ≡ [])

pub excluded :
    (m : Metadata) (lock_id : Text) (project : Option Project)
    → HoldsIn m project
    → ¬ LockedIn lock_id project
excluded m l none h k = h
excluded m l (some p) h k = false≢true (sym (absent_or_empty-holds_writer m p k.1) ∙ h)

pub lock_selector_lem :
    (selector : Project → Bool) (p : Project)
    → lock_selector selector p ≡ true
    → (p.lifecycle_lock ≡ missing) × (is_absent_or_empty p.lifecycle_writers ≡ true)
unfolding lock_selector
lock_selector_lem selector p h = (exists-missing p.lifecycle_lock (ground arith), ground arith)

pub locks :
    (l : Lock) (p : Project) → has_lock_id l.lock_id (lock_modifier l p).lifecycle_lock ≡ true
unfolding lock_modifier
locks l p = ==_self l.lock_id

pub holds_child :
    (kind : ResourceType) (id : Text) (m : Metadata) (s : Shared)
    → HoldsIn m s.project
    → HoldsIn m (with_child kind id s).project
holds_child task id m s h = h
holds_child timecard id m s h = h

-- Two processes hold different reservations, and not both the lock.
abbrev pub Apart : Phase → Phase → Type 0
Apart (writing m) (writing n) = m.reservation_id ≢ n.reservation_id
Apart (deleting _ _ _) (deleting _ _ _) = ⊥
Apart _ _ = Unit

abbrev pub HasNoOrphans : Shared → Type 0
HasNoOrphans s = s.project ≡ none → (s.timecards ≡ []) × (s.tasks ≡ [])

pub record Inv (s : System) : Type 0 where
  pub fit : (i : ℕ) → Fits s.shared (s.phase i)
  pub apart : (i j : ℕ) → i ≢ j → Apart (s.phase i) (s.phase j)
  pub no_orphans : HasNoOrphans s.shared

pub Apart-sym : (x y : Phase) → Apart x y → Apart y x
Apart-sym (writing m) (writing n) h = λ e. h (sym e)
Apart-sym (deleting a b c) (deleting d e f) h = h
Apart-sym idle idle h = tt
Apart-sym idle (writing n) h = tt
Apart-sym idle (deleting d e f) h = tt
Apart-sym (writing m) idle h = tt
Apart-sym (writing m) (deleting d e f) h = tt
Apart-sym (deleting a b c) idle h = tt
Apart-sym (deleting a b c) (writing n) h = tt
