-- ===== src/Fence/Laws.antt =====
-- What the reservation updates do to a project document.
use titra.Common.{
  ◌<◌, ◌≡◌, ◌≢◌, refl, ap, Bool, true, false, Option, none, some, List, [], ◌∷◌, ◌++◌, arith, Text,
  ℕ_eq, List_eq, Stored_eq, length, contains, contains-append_self, contains-append_left,
  contains-without, without, without-append_self, Stored, missing, held, junk, exists, keep,
  held-injective,
}
use titra.Fence.Project.{
  Metadata, Entry, Entry_eq, exact_writer_metadata, Project, max_project_child_writers, elements,
  is_absent_or_empty,
}
use titra.Fence.Writers.{
  add_to_set, push, acquire_selector, acquire_modifier, with_writer, holds_writer, release_modifier,
  pull_writer, pull_entry,
}

elements-add_to_set :
    (a : Stored Text) (field : Stored (List (Stored Text))) {after : Stored (List (Stored Text))}
    → contains a (elements field) ≡ false
    → add_to_set a field ≡ some after
    → elements after ≡ elements field ++ (a ∷ [])
unfolding add_to_set
elements-add_to_set a missing h e = ground arith
elements-add_to_set a (held xs) h e = ground arith
elements-add_to_set a (junk m) h e = cc

elements-push :
    (a : Entry) (field : Stored (List Entry)) {after : Stored (List Entry)}
    → push a field ≡ some after
    → elements after ≡ elements field ++ (a ∷ [])
unfolding push
elements-push a missing e = ground arith
elements-push a (held xs) e = ground arith
elements-push a (junk m) e = cc

-- What an acknowledged acquisition has checked, and the document that it leaves.
pub record Acquired (m : Metadata) (p q : Project) : Type 0 where
  pub unlocked : p.lifecycle_lock ≡ missing
  pub no_task_lock : p.task_graph_lock ≡ missing
  pub fresh : contains (held m.reservation_id) (elements p.lifecycle_writers) ≡ false
  pub room : length (elements p.lifecycle_writer_metadata) < max_project_child_writers
  pub writers :
      elements q.lifecycle_writers ≡ elements p.lifecycle_writers ++ (held m.reservation_id ∷ [])
  pub entries :
      elements q.lifecycle_writer_metadata
      ≡ elements p.lifecycle_writer_metadata ++ (exact_writer_metadata m ∷ [])
  pub same_lock : q.lifecycle_lock ≡ p.lifecycle_lock
  pub same_task_lock : q.task_graph_lock ≡ p.task_graph_lock

pub exists-missing {ℓ} : {A : Type ℓ} (s : Stored A) → exists s ≡ false → s ≡ missing
exists-missing missing h = refl
exists-missing (held a) h = cc
exists-missing (junk m) h = cc

with_writer_lem :
    (w : Option (Stored (List (Stored Text)))) (e : Option (Stored (List Entry))) (p : Project)
    {q : Project}
    → with_writer w e p ≡ some q
    → (w ≡ some q.lifecycle_writers)
      × (e ≡ some q.lifecycle_writer_metadata)
      × (q.lifecycle_lock ≡ p.lifecycle_lock)
      × (q.task_graph_lock ≡ p.task_graph_lock)
unfolding with_writer
with_writer_lem (some w) (some e) p h = ground arith
with_writer_lem none e p h = cc
with_writer_lem (some w) none p h = cc

pub acquire-Acquired :
    (selector : Project → Bool) (m : Metadata) (p : Project) {q : Project}
    → acquire_selector selector m.reservation_id p ≡ true
    → acquire_modifier m p ≡ some q
    → Acquired m p q
unfolding acquire_selector acquire_modifier
acquire-Acquired selector m p s e =
    let (ew, ee, lock, task_lock) =
      with_writer_lem (add_to_set (held m.reservation_id) p.lifecycle_writers)
        (push (exact_writer_metadata m) p.lifecycle_writer_metadata) p e in
    let fresh : contains (held m.reservation_id) (elements p.lifecycle_writers) ≡ false =
      ground arith in
    record {
      unlocked = exists-missing p.lifecycle_lock (ground arith);
      no_task_lock = exists-missing p.task_graph_lock (ground arith);
      fresh = fresh;
      room = ground arith;
      writers = elements-add_to_set (held m.reservation_id) p.lifecycle_writers fresh ew;
      entries = elements-push (exact_writer_metadata m) p.lifecycle_writer_metadata ee;
      same_lock = lock;
      same_task_lock = task_lock;
    }

pub acquire-holds_writer :
    (m : Metadata) (p : Project) {q : Project} → Acquired m p q → holds_writer m q ≡ true
unfolding holds_writer
acquire-holds_writer m p a = rw (
  a.writers,
  a.entries,
  contains-append_self (held m.reservation_id) (elements p.lifecycle_writers),
  contains-append_self (exact_writer_metadata m) (elements p.lifecycle_writer_metadata),
)

pub holds_writer_lem :
    (n : Metadata) (p : Project)
    → holds_writer n p ≡ true
    → (contains (held n.reservation_id) (elements p.lifecycle_writers) ≡ true)
      × (contains (exact_writer_metadata n) (elements p.lifecycle_writer_metadata) ≡ true)
unfolding holds_writer
holds_writer_lem n p h = ground arith

pub acquire-keeps :
    (m n : Metadata) (p : Project) {q : Project}
    → Acquired m p q
    → holds_writer n p ≡ true
    → holds_writer n q ≡ true
unfolding holds_writer
acquire-keeps m n p a h =
    let (hw, he) = holds_writer_lem n p h in
    rw (
      a.writers,
      a.entries,
      contains-append_left (held n.reservation_id) (elements p.lifecycle_writers)
          (held m.reservation_id ∷ []) hw,
      contains-append_left (exact_writer_metadata n) (elements p.lifecycle_writer_metadata)
          (exact_writer_metadata m ∷ []) he,
    )

elements-pull_writer :
    (a : Stored Text) (field : Stored (List (Stored Text)))
    → elements (pull_writer a field) ≡ without a (elements field)
unfolding pull_writer
elements-pull_writer a missing = unfold keep in refl
elements-pull_writer a (held xs) = refl
elements-pull_writer a (junk m) = unfold keep in refl

elements-pull_entry :
    (a : Entry) (field : Stored (List Entry))
    → elements (pull_entry a field) ≡ without a (elements field)
unfolding pull_entry
elements-pull_entry a missing = unfold keep in refl
elements-pull_entry a (held xs) = refl
elements-pull_entry a (junk m) = unfold keep in refl

entries_differ :
    (m n : Metadata)
    → m.reservation_id ≢ n.reservation_id
    → exact_writer_metadata m ≢ exact_writer_metadata n
entries_differ m n ne e = ne (held-injective (ap (λ (x : Entry). x.reservation_id) e))

-- A release takes away no reservation but its own.
pub release-keeps :
    (m n : Metadata) (p : Project)
    → m.reservation_id ≢ n.reservation_id
    → holds_writer n p ≡ true
    → holds_writer n (release_modifier m p) ≡ true
unfolding holds_writer release_modifier
release-keeps m n p ne h =
    let (hw, he) = holds_writer_lem n p h in
    rw (
      elements-pull_writer (held m.reservation_id) p.lifecycle_writers,
      elements-pull_entry (exact_writer_metadata m) p.lifecycle_writer_metadata,
      contains-without (held m.reservation_id) (held n.reservation_id)
          (elements p.lifecycle_writers) (λ e. ne (held-injective e)) hw,
      contains-without (exact_writer_metadata m) (exact_writer_metadata n)
          (elements p.lifecycle_writer_metadata) (entries_differ m n ne) he,
    )

-- Releasing a reservation right after it was acquired gives back the writers and the metadata as
-- they were, for an identifier that no entry had.
pub release-acquire :
    (selector : Project → Bool) (m : Metadata) (p q : Project)
    → acquire_selector selector m.reservation_id p ≡ true
    → contains (exact_writer_metadata m) (elements p.lifecycle_writer_metadata) ≡ false
    → acquire_modifier m p ≡ some q
    → (holds_writer m q ≡ true)
      × (elements (release_modifier m q).lifecycle_writers ≡ elements p.lifecycle_writers)
      × (elements (release_modifier m q).lifecycle_writer_metadata
          ≡ elements p.lifecycle_writer_metadata)
      × ((release_modifier m q).lifecycle_lock ≡ p.lifecycle_lock)
unfolding release_modifier
release-acquire selector m p q s fresh e =
    let a = acquire-Acquired selector m p s e in
    (
      acquire-holds_writer m p a,
      rw (elements-pull_writer (held m.reservation_id) q.lifecycle_writers, a.writers)
          (without-append_self (held m.reservation_id) (elements p.lifecycle_writers) a.fresh),
      rw (elements-pull_entry (exact_writer_metadata m) q.lifecycle_writer_metadata, a.entries)
          (without-append_self (exact_writer_metadata m) (elements p.lifecycle_writer_metadata)
            fresh),
      a.same_lock,
    )

pub elements_of_absent {ℓ} :
    {A : Type ℓ} (field : Stored (List A)) → is_absent_or_empty field ≡ true → elements field ≡ []
elements_of_absent missing h = refl
elements_of_absent (held []) h = refl
elements_of_absent (held (x ∷ xs)) h = cc
elements_of_absent (junk m) h = cc

-- A project without writers holds no reservation.
pub absent_or_empty-holds_writer :
    (m : Metadata) (p : Project)
    → is_absent_or_empty p.lifecycle_writers ≡ true
    → holds_writer m p ≡ false
unfolding holds_writer contains
absent_or_empty-holds_writer m p h = rw (elements_of_absent p.lifecycle_writers h)
