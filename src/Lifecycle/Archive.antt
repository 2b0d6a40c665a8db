-- ===== src/Lifecycle/Archive.antt =====
-- `setProjectArchived` and `deleteEmptyOwnedProject`.
pub mod Writes
use titra.Common.{
  ℕ, Bool, true, false, not, ◌&&◌, ◌||◌, Option, none, some, Text, codes, List_eq, ℕ_eq, Bool_eq,
  Option_eq, ◌==◌, if◌then◌else◌, Result, ok, throw, throw_if, ◌>>=◌, ◌>>◌,
}
use titra.Common.Collection.{Collection, Update, Reply, matched, rejected}
use titra.Revision.{project, resource_revision_etag, matches_resource_revision}
use titra.Lifecycle.{
  Value, boolean, Project, Value_eq, LifecycleError, project_invalid, not_authorized,
  project_write_conflict, project_not_empty, driver_error, is_text, is_true, is_project_owner,
  is_project_administrator, project_snapshot_selector, with_field, inc_revision, found, may_write,
  is_last_revision, revision_after, resource_of, conflict_unless_one,
}
use titra.Fence.Deletion.{Deletion, conflict, deleted, not_empty}

pub record Archived : Type 0 where
  pub archived : Bool
  pub changed : Bool
  pub etag : Text

unfoldable pub archive_update : Project → Bool → Update Project
unfolding project_snapshot_selector with_field inc_revision
archive_update p archived = record {
  selector = project_snapshot_selector p;
  modifier =
      λ stored. inc_revision (with_field (codes "archived") (some (boolean archived)) stored);
}

-- The answer, whose tag throws where a revision has none.
abbrev pub archive_answer : Bool → Bool → Option Text → Result LifecycleError Archived
archive_answer archived changed none = throw driver_error
archive_answer archived changed (some tag) =
    ok (record { archived = archived; changed = changed; etag = tag })

-- The checks of `setProjectArchived` before the write, which give the project that was read and
-- whether it is to be changed.
unfoldable pub archive_checks :
    Text → Text → Bool → Bool → Option ℕ → Option Project → Result LifecycleError (Project × Bool)
unfolding is_project_administrator found matches_resource_revision
archive_checks project_id user_id archived expected_archived expected_revision stored =
    may_write is_project_administrator user_id (found project_id stored) >>= λ p.
    throw_if
      (not (matches_resource_revision project (some (resource_of p)) expected_revision)
        || not (is_true (p (codes "archived")) == expected_archived))
      project_write_conflict
    >> throw_if (not (archived == expected_archived) && is_last_revision p) project_write_conflict
    >> ok (p, not (archived == expected_archived))

module _ (projects : Collection Project) where
  open projects use {Db, find, update_one}

  unfoldable pub archive_checked :
      Bool
      → Result LifecycleError (Project × Bool)
      → (ℕ → Db → Db)
      → Db
      → Result LifecycleError Archived × Db
  unfolding archive_update resource_revision_etag
  archive_checked archived (throw e) others db = (throw e, db)
  archive_checked archived (ok (p, false)) others db =
      (archive_answer archived false (resource_revision_etag project (some (resource_of p))), db)
  archive_checked archived (ok (p, true)) others db =
      let (reply, after) = update_one (archive_update p archived) (others 1 db) in
      (
        conflict_unless_one reply (
            archive_answer archived true
              (resource_revision_etag project (some (revision_after p)))),
        after,
      )

  -- `setProjectArchived`; `none` where a flag is no boolean.
  unfoldable pub set_project_archived :
      Text
      → Text
      → Option Bool
      → Option Bool
      → Option ℕ
      → (ℕ → Db → Db)
      → Db
      → Result LifecycleError Archived × Db
  unfolding archive_checks archive_checked
  set_project_archived project_id user_id (some archived) (some expected_archived) expected_revision
        others db =
      let db' = others 0 db in
      archive_checked archived
        (archive_checks project_id user_id archived expected_archived expected_revision (find db'))
        others db'
  set_project_archived project_id user_id _ _ expected_revision others db =
      (throw project_invalid, db)

  abbrev deletion_answer : Result LifecycleError Deletion → Result LifecycleError (Unit {0})
  deletion_answer (ok deleted) = ok tt
  deletion_answer (ok (not_empty timecards tasks)) = throw project_not_empty
  deletion_answer (ok conflict) = throw project_write_conflict
  deletion_answer (throw e) = throw e

  -- `deleteEmptyOwnedProject`; `delete_empty_project selector` is the fenced deletion, and `none` a
  -- name that is no string.
  unfoldable pub delete_empty_owned_project :
      ((Project → Bool) → Db → Result LifecycleError Deletion × Db)
      → Text
      → Text
      → Option Text
      → Option ℕ
      → (ℕ → Db → Db)
      → Db
      → Result LifecycleError (Unit {0}) × Db
  unfolding is_project_owner found matches_resource_revision project_snapshot_selector
  delete_empty_owned_project delete_empty_project project_id user_id none expected_revision others
        db =
      (throw project_invalid, db)
  delete_empty_owned_project delete_empty_project project_id user_id (some name) expected_revision
        others db =
      let db' = others 0 db in
      let checked = may_write is_project_owner user_id (found project_id (find db')) >>= λ p.
      throw_if
        (not (matches_resource_revision project (some (resource_of p)) expected_revision)
          || not (is_text name (p (codes "name"))))
        project_write_conflict
      >> ok p in
      elim checked [
        | throw e ↦ (throw e, db')
        | ok p ↦
            let (result, after) =
              delete_empty_project (project_snapshot_selector p) (others 1 db') in
            (deletion_answer result, after)
      ]
