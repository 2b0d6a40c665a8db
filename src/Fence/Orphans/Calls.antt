-- ===== src/Fence/Orphans/Calls.antt =====
-- Every call of a process keeps what all processes rely on.
use titra.Common.{
  ℕ, ◌≡◌, ◌≢◌, refl, sym, ◌∙◌, subst, inl, inr, Bool, true, false, none, some, Text, eqb, eqb_iff,
  Bool-cases, List_eq, ℕ_eq, Stored_eq,
}
use mathlib.Core.Bool.{false≢true}
use titra.Fence.Project.{Metadata, Lock, Project, ResourceType, task, timecard}
use titra.Fence.Writers.{holds_writer, release_modifier}
use titra.Fence.Deletion.{lock_selector, lock_modifier, unlock_modifier}
use titra.Fence.Laws.{
  Acquired, acquire-Acquired, acquire-holds_writer, acquire-keeps, release-keeps,
  absent_or_empty-holds_writer,
}
use titra.Fence.System.{
  Shared, Phase, idle, writing, deleting, System, update, with_child, Call, acquire, create,
  release, lock, count_timecards, count_tasks, delete, unlock,
}
use titra.Fence.Orphans.Phases.{
  fresh_differs, missing_not_locked, HoldsIn, LockedIn, Fits, excluded, lock_selector_lem, locks,
  holds_child, Apart, HasNoOrphans, Inv, Apart-sym,
}

-- A call keeps the invariant if it keeps what every other process relies on.
module _ (s : System) (t : Shared) (x y : Phase) (inv : Inv s) (i : ℕ) (at : s.phase i ≡ x)
    (mine : Fits s.shared x → Fits t y)
    (theirs : (z : Phase) → Fits s.shared x → Fits s.shared z → Apart x z → Fits t z × Apart y z)
    (left : Fits s.shared x → HasNoOrphans s.shared → HasNoOrphans t) where
  fit_self : Fits s.shared x
  fit_self = subst (Fits s.shared) at (inv.fit i)

  other : (j : ℕ) → eqb i j ≡ false → Fits t (s.phase j) × Apart y (s.phase j)
  other j e =
      let ne : i ≢ j = λ p. false≢true (sym e ∙ (eqb_iff i j).1 p) in
      theirs (s.phase j) fit_self (inv.fit j)
        (subst (λ z. Apart z (s.phase j)) at (inv.apart i j ne))

  apart_call : (j k : ℕ) → j ≢ k → Apart (update s.phase i y j) (update s.phase i y k)
  apart_call j k ne = elim (Bool-cases (eqb i j)) [
    | inl ej ↦ elim (Bool-cases (eqb i k)) [
      | inl ek ↦ absurd (ne (sym ((eqb_iff i j).0 ej) ∙ (eqb_iff i k).0 ek))
      | inr ek ↦ rw (ej, ek) (other k ek).1
    ]
    | inr ej ↦ elim (Bool-cases (eqb i k)) [
      | inl ek ↦ rw (ej, ek) (Apart-sym y (s.phase j) (other j ej).1)
      | inr ek ↦ rw (ej, ek) (inv.apart j k ne)
    ]
  ]

  pub keep_call : Inv (record { shared = t; phase = update s.phase i y })
  keep_call = record {
    fit = λ j. elim (Bool-cases (eqb i j)) [
      | inl e ↦ rw e (mine fit_self)
      | inr e ↦ rw e (other j e).0
    ];
    apart = apart_call;
    no_orphans = left fit_self inv.no_orphans;
  }

pub child_no_orphans :
    (kind : ResourceType) (id : Text) (m : Metadata) (s : Shared)
    → HoldsIn m s.project
    → HasNoOrphans (with_child kind id s)
child_no_orphans task id m s h e = absurd (subst (HoldsIn m) e h)
child_no_orphans timecard id m s h e = absurd (subst (HoldsIn m) e h)

pub acquire_theirs :
    (s : Shared) (m : Metadata) (p q : Project)
    → s.project ≡ some p
    → Acquired m p q
    → (z : Phase) → Fits s z
    → Fits (record s { project = some q }) z × Apart (writing m) z
acquire_theirs s m p q found a idle f = (tt, tt)
acquire_theirs s m p q found a (writing n) f =
    let h = subst (HoldsIn n) found f in (acquire-keeps m n p a h, λ e. fresh_differs m n p a h e)
acquire_theirs s m p q found a (deleting l b c) f =
    let locked = subst (LockedIn l) found f.0 in
    absurd (missing_not_locked l p.lifecycle_lock a.unlocked locked.0)

pub release_theirs :
    (s : Shared) (m : Metadata) (p : Project)
    → s.project ≡ some p
    → holds_writer m p ≡ true
    → (z : Phase) → Fits s z
    → Apart (writing m) z
    → Fits (record s { project = some (release_modifier m p) }) z × Apart idle z
release_theirs s m p found h idle f ne = (tt, tt)
release_theirs s m p found h (writing n) f ne =
    (release-keeps m n p ne (subst (HoldsIn n) found f), tt)
release_theirs s m p found h (deleting l b c) f ne =
    let locked = subst (LockedIn l) found f.0 in
    absurd (false≢true (sym (absent_or_empty-holds_writer m p locked.1) ∙ h))

pub create_theirs :
    (s : Shared) (m : Metadata) (kind : ResourceType) (id : Text)
    → HoldsIn m s.project
    → (z : Phase) → Fits s z
    → Apart (writing m) z
    → Fits (with_child kind id s) z × Apart (writing m) z
create_theirs s m task id h idle f ne = (tt, tt)
create_theirs s m timecard id h idle f ne = (tt, tt)
create_theirs s m task id h (writing n) f ne = (f, ne)
create_theirs s m timecard id h (writing n) f ne = (f, ne)
create_theirs s m kind id h (deleting l b c) f ne = absurd (excluded m l s.project h f.0)

pub lock_theirs :
    (s : Shared) (selector : Project → Bool) (l : Lock) (p : Project)
    → s.project ≡ some p
    → lock_selector selector p ≡ true
    → (z : Phase) → Fits s z
    → Fits (record s { project = some (lock_modifier l p) }) z
      × Apart (deleting l.lock_id false false) z
lock_theirs s selector l p found sel idle f = (tt, tt)
lock_theirs s selector l p found sel (writing n) f = absurd (
    false≢true (
      sym (absent_or_empty-holds_writer n p (lock_selector_lem selector p sel).1)
      ∙ subst (HoldsIn n) found f))
lock_theirs s selector l p found sel (deleting k b c) f =
    let locked = subst (LockedIn k) found f.0 in
    absurd (missing_not_locked k p.lifecycle_lock (lock_selector_lem selector p sel).0 locked.0)

-- While a process holds the lock no other relies on the project document.
pub deleting_theirs :
    (s t : Shared) (lock_id : Text) (b c : Bool) (y : Phase)
    → LockedIn lock_id s.project
    → Apart y idle
    → (z : Phase) → Fits s z
    → Apart (deleting lock_id b c) z
    → Fits t z × Apart y z
deleting_theirs s t l b c y h free idle f ne = (tt, free)
deleting_theirs s t l b c y h free (writing n) f ne = absurd (excluded n l s.project f h)
deleting_theirs s t l b c y h free (deleting k d e) f ne = absurd ne

-- Every call of a process keeps the invariant.
pub Call-Inv :
    (s : System) (i : ℕ) {x y : Phase} {t : Shared}
    → Inv s
    → s.phase i ≡ x
    → Call i s.shared x t y
    → Inv (record { shared = t; phase = update s.phase i y })
unfolding lock_modifier
Call-Inv s i inv at (acquire selector m p q found sel modified) =
    let a = acquire-Acquired selector m p sel modified in
    keep_call s (record s.shared { project = some q }) idle (writing m) inv i at
      (λ _. acquire-holds_writer m p a) (λ z _ f _. acquire_theirs s.shared m p q found a z f)
      (λ _ _ e. cc)
Call-Inv s i inv at (create m kind id) =
    keep_call s (with_child kind id s.shared) (writing m) (writing m) inv i at
      (holds_child kind id m s.shared) (λ z h f ne. create_theirs s.shared m kind id h z f ne)
      (λ h no. child_no_orphans kind id m s.shared h)
Call-Inv s i inv at (release m p found h) =
    keep_call s (record s.shared { project = some (release_modifier m p) }) (writing m) idle inv i
      at (λ _. tt) (λ z _ f ne. release_theirs s.shared m p found h z f ne) (λ _ _ e. cc)
Call-Inv s i inv at (lock selector l p found sel) =
    keep_call s (record s.shared { project = some (lock_modifier l p) }) idle
      (deleting l.lock_id false false) inv i at
      (λ _. ((locks l p, (lock_selector_lem selector p sel).1), (λ e. cc), (λ e. cc)))
      (λ z _ f _. lock_theirs s.shared selector l p found sel z f) (λ _ _ e. cc)
Call-Inv s i inv at (count_timecards l b none_left) =
    keep_call s s.shared (deleting l false b) (deleting l true b) inv i at
      (λ f. (f.0, (λ _. none_left), f.2))
      (λ z f g ne. deleting_theirs s.shared s.shared l false b (deleting l true b) f.0 tt z g ne)
      (λ _ no. no)
Call-Inv s i inv at (count_tasks l b none_left) =
    keep_call s s.shared (deleting l b false) (deleting l b true) inv i at
      (λ f. (f.0, f.1, (λ _. none_left)))
      (λ z f g ne. deleting_theirs s.shared s.shared l b false (deleting l b true) f.0 tt z g ne)
      (λ _ no. no)
Call-Inv s i inv at (delete l p found own) =
    keep_call s (record s.shared { project = none }) (deleting l true true) idle inv i at (λ _. tt)
      (λ z f g ne.
        deleting_theirs s.shared (record s.shared { project = none }) l true true idle f.0 tt z g
          ne)
      (λ f _ _. (f.1 refl, f.2 refl))
Call-Inv s i inv at (unlock l b c p found own) =
    keep_call s (record s.shared { project = some (unlock_modifier p) }) (deleting l b c) idle inv i
      at (λ _. tt)
      (λ z f g ne.
        deleting_theirs s.shared (record s.shared { project = some (unlock_modifier p) }) l b c idle
          f.0 tt z g ne)
      (λ _ _ e. cc)
