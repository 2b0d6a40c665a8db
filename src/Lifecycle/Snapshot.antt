-- ===== src/Lifecycle/Snapshot.antt =====
-- Writes that compare a snapshot of the project: what the checks before them say of the document that
-- they find.
use titra.Common.{
  ℕ, ◌≡◌, refl, sym, ap, subst, ◌∙◌, Bool, true, false, not, ◌||◌, Option, none, some, List, [],
  ◌∷◌, Text, codes, List_eq, ℕ_eq, Bool_eq, Option_eq, ◌==◌, ==→≡, contains, every, beq_list, arith,
  inl, inr, Bool-cases, Option-cases, if◌then◌else◌, Result, ok, throw,
}
use titra.Common.Collection.{Reply, matched, rejected}
use mathlib.Core.Option.{some-injective}
use titra.Revision.{project, etag_of, resource_revision_etag, matches_resource_revision}
use titra.Lifecycle.{
  project_write_conflict, Value, Project, Value_eq, LifecycleError, not_authorized, is_truthy,
  is_project_administrator, is_project_owner, includes, project_snapshot_selector, snapshot_fields,
  with_field, next_revision, revision_plus_one, number, inc_revision, may_write, revision_after,
  resource_of, conflict_unless_one, stored_number,
}

every-contains :
    (g : Text → Bool) (f : Text) (fields : List Text)
    → every g fields ≡ true
    → contains f fields ≡ true
    → g f ≡ true
unfolding every contains
every-contains g f [] h k = absurd (ground (arith, k))
every-contains g f (x ∷ xs) h k = elim (Bool-cases (x == f)) [
  | inl same ↦ subst (λ y. g y ≡ true) (==→≡ x f same) (ground (arith, h))
  | inr other ↦ every-contains g f xs (ground (arith, h)) (ground (arith, k, other))
]

-- A document that the snapshot selector finds agrees with the snapshot on its fields.
pub project_snapshot_selector-agrees :
    (p stored : Project) (f : Text)
    → project_snapshot_selector p stored ≡ true
    → contains f snapshot_fields ≡ true
    → stored f ≡ p f
unfolding project_snapshot_selector
project_snapshot_selector-agrees p stored f h k =
    ==→≡ (stored f) (p f)
      (every-contains (λ g. stored g == p g) f snapshot_fields (ground (arith, h)) k)

-- The checks that an administrator's write has passed.
pub record MayWrite (user_id : Text) (expected : Option ℕ) (p : Project) : Type 0 where
  pub administrator : is_project_administrator p user_id ≡ true
  pub unlocked : is_truthy (p (codes "lifecycleLock")) ≡ false
  pub current : matches_resource_revision project (some (resource_of p)) expected ≡ true

refused_if-eq-ok :
    (b : Bool) (q p : Project)
    → (if b then throw not_authorized else ok q) ≡ ok p
    → (b ≡ false) × (q ≡ p)
refused_if-eq-ok true q p h = cc
refused_if-eq-ok false q p h = (refl, ground (arith, h))

pub may_write-eq-ok :
    (role : Project → Text → Bool) (user_id : Text) (stored : Option Project) (p : Project)
    → may_write role user_id stored ≡ ok p
    → (stored ≡ some p) × (role p user_id ≡ true) × (is_truthy (p (codes "lifecycleLock")) ≡ false)
may_write-eq-ok role user_id none p h = cc
may_write-eq-ok role user_id (some q) p h =
    let (free, same) =
      refused_if-eq-ok (is_truthy (q (codes "lifecycleLock")) || not (role q user_id)) q p h in
    (
      ap some same,
      subst (λ x. role x user_id ≡ true) same
          (allowed (is_truthy (q (codes "lifecycleLock"))) (role q user_id) free),
      subst (λ x. is_truthy (x (codes "lifecycleLock")) ≡ false) same
          (open_lock (is_truthy (q (codes "lifecycleLock"))) (role q user_id) free),
    )
  where
    allowed : (a b : Bool) → (a || not b) ≡ false → b ≡ true
    allowed a b h = ground (arith, h)

    open_lock : (a b : Bool) → (a || not b) ≡ false → a ≡ false
    open_lock a b h = ground (arith, h)

-- What is checked of the snapshot holds of every document that it finds.
pub MayWrite-snapshot :
    (user_id : Text) (expected : Option ℕ) (p stored : Project)
    → project_snapshot_selector p stored ≡ true
    → MayWrite user_id expected p
    → MayWrite user_id expected stored
unfolding is_project_administrator is_project_owner includes matches_resource_revision contains
    beq_list
MayWrite-snapshot user_id expected p stored h m = record {
  administrator =
      rw
        (
          project_snapshot_selector-agrees p stored (codes "userId") h refl,
          project_snapshot_selector-agrees p stored (codes "admins") h refl,
        )
        m.administrator;
  unlocked =
      rw (project_snapshot_selector-agrees p stored (codes "lifecycleLock") h refl) m.unlocked;
  current =
      rw (project_snapshot_selector-agrees p stored (codes "projectRevision") h refl) m.current;
}

pub ok-injective : {E A : Type 0} (d : A) (x y : A) → ◌≡◌ {A = Result E A} (ok x) (ok y) → x ≡ y
ok-injective {E = E} {A = A} d x y h = ap value h
  where
    value : Result E A → A
    value (ok a) = a
    value (throw _) = d

pub conflict_unless_one-eq-ok :
    {A : Type 0} (reply : Reply) (answer : Result LifecycleError A) (a : A)
    → conflict_unless_one reply answer ≡ ok a
    → (reply ≡ matched 1) × (answer ≡ ok a)
conflict_unless_one-eq-ok rejected answer a h = cc
conflict_unless_one-eq-ok (matched n) answer a h = elim (Bool-cases (n == 1)) [
  | inl one ↦ (
    ap matched (==→≡ n 1 one),
    subst (λ b. (if b then answer else throw project_write_conflict) ≡ ok a) one h,
  )
  | inr other ↦
      absurd
        (failed (subst (λ b. (if b then answer else throw project_write_conflict) ≡ ok a) other h))
]
  where
    failed : throw project_write_conflict ≡ ok a → ⊥
    failed k = cc

inc_revision-field :
    (changed after : Project)
    → inc_revision changed ≡ some after
    → after (codes "projectRevision") ≡ next_revision (changed (codes "projectRevision"))
unfolding inc_revision with_field beq_list
inc_revision-field changed after written =
    from (next_revision (changed (codes "projectRevision"))) refl written
  where
    incremented : Option Value → Option Project
    incremented n = elim n [
      | none ↦ none
      | some v ↦ some (with_field (codes "projectRevision") (some v) changed)
    ]

    from :
        (n : Option Value)
        → next_revision (changed (codes "projectRevision")) ≡ n
        → incremented n ≡ some after
        → after (codes "projectRevision") ≡ next_revision (changed (codes "projectRevision"))
    from none e w = cc
    from (some v) e w =
        ap (λ q. q (codes "projectRevision"))
          (sym (some-injective (with_field (codes "projectRevision") (some v) changed) after w))
        ∙ sym e

next_revision-some :
    (changed after : Project)
    → inc_revision changed ≡ some after
    → (v : Value) × (next_revision (changed (codes "projectRevision")) ≡ some v)
unfolding inc_revision
next_revision-some changed after written =
    elim (Option-cases (next_revision (changed (codes "projectRevision")))) [
      | inl refused ↦ absurd (ground (arith, refused, written))
      | inr (v, e) ↦ (v, e)
    ]

-- Where the server increments a revision, the code's sum is the same.
next_revision-revision_plus_one :
    (o : Option Value) {v : Value}
    → next_revision o ≡ some v
    → stored_number (next_revision o) ≡ revision_plus_one o
unfolding next_revision revision_plus_one
next_revision-revision_plus_one none e = refl
next_revision-revision_plus_one (some (number n)) e = refl
next_revision-revision_plus_one (some v) e = absurd (ground arith)

-- The tag of the revision that the write leaves.
pub revision_after-tag :
    (p stored after changed : Project)
    → project_snapshot_selector p stored ≡ true
    → changed (codes "projectRevision") ≡ stored (codes "projectRevision")
    → inc_revision changed ≡ some after
    → resource_revision_etag project (some (resource_of after))
      ≡ resource_revision_etag project (some (revision_after p))
unfolding resource_revision_etag contains beq_list
revision_after-tag p stored after changed h same written =
    let (_, some_revision) = next_revision-some changed after written in
    ap (λ v. etag_of project (stored_number v)) (inc_revision-field changed after written)
    ∙ ap (etag_of project) (
        next_revision-revision_plus_one (changed (codes "projectRevision")) some_revision
        ∙ ap revision_plus_one
            (same ∙ project_snapshot_selector-agrees p stored (codes "projectRevision") h refl))
