-- ===== src/Lifecycle/Archive/Writes.antt =====
-- What a change of `setProjectArchived` has done.
use titra.Common.{
  ℕ, ◌≡◌, refl, sym, ap, subst, ◌∙◌, Bool, true, false, not, ◌&&◌, ◌||◌, Option, none, some, Text,
  codes, List_eq, ℕ_eq, Bool_eq, Option_eq, ◌==◌, beq_list, arith, Result, ok, throw, throw_if,
  ◌>>◌, >>=-eq-ok,
}
use titra.Common.Collection.{Collection, Updated-one}
use titra.Revision.{project, resource_revision_etag, matches_resource_revision}
use titra.Lifecycle.{
  project_write_conflict, boolean, Project, Value_eq, LifecycleError, is_true,
  is_project_administrator, with_field, inc_revision, found, may_write, is_last_revision,
  resource_of,
}
use titra.Lifecycle.Archive.{
  Archived, archive_update, archive_answer, archive_checks, archive_checked, set_project_archived,
}
use titra.Lifecycle.Snapshot.{
  MayWrite, MayWrite-snapshot, may_write-eq-ok, ok-injective, conflict_unless_one-eq-ok,
  revision_after-tag,
}

two_guards-eq-ok :
    {A : Type 0} (a b : Bool) (e e' : LifecycleError) (x y : A)
    → ((throw_if a e >> throw_if b e') >> ok x) ≡ ok y
    → (a ≡ false) × (b ≡ false) × (x ≡ y)
two_guards-eq-ok true b e e' x y h = cc
two_guards-eq-ok false true e e' x y h = cc
two_guards-eq-ok false false e e' x y h = (refl, refl, ok-injective x x y h)

archive_checks-eq-ok :
    (project_id user_id : Text) (archived expected_archived : Bool) (expected : Option ℕ)
    (stored : Option Project) (p : Project) (c : Bool)
    → archive_checks project_id user_id archived expected_archived expected stored ≡ ok (p, c)
    → MayWrite user_id expected p
unfolding archive_checks
archive_checks-eq-ok project_id user_id archived expected_archived expected stored p c h =
    let (q, allowed, rest) =
      >>=-eq-ok (may_write is_project_administrator user_id (found project_id stored)) _ h in
    let (matching, room, same) =
      two_guards-eq-ok
        (not (matches_resource_revision project (some (resource_of q)) expected)
          || not (is_true (q (codes "archived")) == expected_archived))
        (not (archived == expected_archived) && is_last_revision q) project_write_conflict
        project_write_conflict (q, not (archived == expected_archived)) (p, c) rest in
    let (found_it, admin, unlocked) =
      may_write-eq-ok is_project_administrator user_id (found project_id stored) q allowed in
    subst (MayWrite user_id expected) (ap (λ x. x.0) same) (record {
      administrator = admin;
      unlocked = unlocked;
      current =
          left (matches_resource_revision project (some (resource_of q)) expected)
            (is_true (q (codes "archived")) == expected_archived) matching;
    })
  where
    left : (a b : Bool) → (not a || not b) ≡ false → a ≡ true
    left a b h = ground (arith, h)

-- A changed project: `before` was stored when the write came, `after` is stored since.
pub record ArchiveWrite (user_id : Text) (expected : Option ℕ) (answer : Archived)
    (before after : Project) : Type 0 where
  pub allowed : MayWrite user_id expected before
  pub written :
      inc_revision (with_field (codes "archived") (some (boolean answer.archived)) before)
      ≡ some after
  pub tagged : resource_revision_etag project (some (resource_of after)) ≡ some answer.etag

archive_answer-eq-ok :
    (archived changed : Bool) (tag : Option Text) (answer : Archived)
    → archive_answer archived changed tag ≡ ok answer
    → (tag ≡ some answer.etag) × (answer.archived ≡ archived) × (answer.changed ≡ changed)
archive_answer-eq-ok archived changed none answer h = cc
archive_answer-eq-ok archived changed (some tag) answer h =
    let same =
      ok-injective answer (record { archived = archived; changed = changed; etag = tag }) answer
        h in
    (
      ap (λ a. some (Archived.etag a)) same,
      sym (ap Archived.archived same),
      sym (ap Archived.changed same),
    )

module _ (projects : Collection Project) where
  open projects use {Db, find, update_one, update_one_lem}

  archive_checked-changed :
      (user_id : Text) (expected : Option ℕ) (archived : Bool)
      (checks : Result LifecycleError (Project × Bool)) (others : ℕ → Db → Db) (db : Db)
      (answer : Archived)
      → ((p : Project) (c : Bool) → checks ≡ ok (p, c) → MayWrite user_id expected p)
      → (archive_checked projects archived checks others db).0 ≡ ok answer
      → answer.changed ≡ true
      → (before : Project) × (after : Project) × (find (others 1 db) ≡ some before)
        × (find (archive_checked projects archived checks others db).1 ≡ some after)
        × (answer.archived ≡ archived)
        × ArchiveWrite user_id expected answer before after
  unfolding archive_checked archive_update
  archive_checked-changed user_id expected archived (throw e) others db answer may h k = cc
  archive_checked-changed user_id expected archived (ok (p, false)) others db answer may h k =
      let (tag, flag, changed) = archive_answer-eq-ok archived false _ answer h in
      absurd (ground (arith, changed, k))
  archive_checked-changed user_id expected archived (ok (p, true)) others db answer may h k =
      let (one, answered) =
        conflict_unless_one-eq-ok (update_one (archive_update p archived) (others 1 db)).0 _ answer
          h in
      let (tag, flag, changed) = archive_answer-eq-ok archived true _ answer answered in
      let (before, after, stored, selected, modified, now) =
        Updated-one (archive_update p archived) (find (others 1 db))
          (find (update_one (archive_update p archived) (others 1 db)).1) _
          (update_one_lem (archive_update p archived) (others 1 db)) one in
      (
        before,
        after,
        stored,
        now,
        flag,
        record {
          allowed = MayWrite-snapshot user_id expected p before selected (may p true refl);
          written =
              subst
                (λ a.
                  inc_revision (with_field (codes "archived") (some (boolean a)) before)
                  ≡ some after)
                (sym flag) modified;
          tagged =
              revision_after-tag p before after
                (with_field (codes "archived") (some (boolean archived)) before) selected
                (untouched archived before) modified
              ∙ tag;
        },
      )
    where
      untouched :
          (a : Bool) (before : Project)
          → with_field (codes "archived") (some (boolean a)) before (codes "projectRevision")
            ≡ before (codes "projectRevision")
      untouched a before = unfold with_field beq_list in refl

  -- Where `setProjectArchived` answers that it changed a project, the project that was stored when
  -- its one write came was unlocked, at the revision that the caller expected and administered by the
  -- caller. It has been given the flag and the next revision and is otherwise as it was, and the
  -- answer's tag is the tag of what is stored.
  pub set_project_archived-changed :
      (project_id user_id : Text) (archived expected_archived : Bool) (expected : Option ℕ)
      (others : ℕ → Db → Db) (db : Db) (answer : Archived)
      → (set_project_archived projects project_id user_id
          (some archived)
          (some expected_archived)
          expected
          others
          db).0
        ≡ ok answer
      → answer.changed ≡ true
      → (before : Project) × (after : Project) × (find (others 1 (others 0 db)) ≡ some before)
        × (find
              (set_project_archived projects project_id user_id
                (some archived)
                (some expected_archived)
                expected
                others
                db).1
            ≡ some after)
        × (answer.archived ≡ archived)
        × ArchiveWrite user_id expected answer before after
  unfolding set_project_archived
  set_project_archived-changed project_id user_id archived expected_archived expected others db
        answer h k =
      archive_checked-changed user_id expected archived
        (archive_checks project_id user_id archived expected_archived expected (find (others 0 db)))
        others (others 0 db) answer
        (λ p c.
          archive_checks-eq-ok project_id user_id archived expected_archived expected
            (find (others 0 db)) p c)
        h k
