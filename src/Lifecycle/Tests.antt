-- ===== src/Lifecycle/Tests.antt =====
-- A project of one owner and one administrator, and the theorems at changes of it.
use titra.Common.{
  ◌≡◌, refl, true, false, Option, none, some, List, [], ◌∷◌, Text, codes, List_eq, ℕ_eq, beq_list,
  beq_option, decided, contains, ok, beq_bool,
}
use native.Mathlib.Decide.{ℕ_discrete}
use titra.Common.Collection.{single}
use titra.Revision.{etag_of}
use titra.Revision.Decimal.{decimal}
use titra.Lifecycle.{
  revision_plus_one, Value, null, text, number, boolean, texts, Project, Value_discrete,
  is_project_member, is_truthy, with_field,
}
use titra.Lifecycle.Details.{entry, Body, body}
use titra.Lifecycle.View.{serialize_project_for_caller}
use titra.Lifecycle.View.Privacy.{Agree, public_fields, serialize_project_for_caller-Agree}
use titra.Lifecycle.Archive.{Archived, set_project_archived}
use titra.Lifecycle.Archive.Writes.{ArchiveWrite, set_project_archived-changed}
use titra.Lifecycle.Edit.{Edited, edit_project_details, changes_of}
use titra.Lifecycle.Edit.Edits.{EditWrite, edit_project_details-changed}

abbrev members : List (Text × Value)
members =
    (codes "_id", text (codes "p1"))
    ∷ (codes "userId", text (codes "ann"))
    ∷ (codes "admins", texts (codes "bob" ∷ []))
    ∷ (codes "name", text (codes "Tower"))
    ∷ (codes "projectRevision", number 3)
    ∷ (codes "public", boolean true)
    ∷ (codes "rate", number 90)
    ∷ []

abbrev tower : Project
tower = λ f. entry f members

-- The same project with other private fields.
abbrev cheap_tower : Project
cheap_tower = with_field (codes "rate") (some (number 10)) (with_field (codes "admins") none tower)

abbrev archived_answer : Archived
archived_answer = record {
  archived = true;
  changed = true;
  etag = codes "\"titra-project-revision-4\"";
}

archives :
    (set_project_archived
      (single Project)
      (codes "p1")
      (codes "bob")
      (some true)
      (some false)
      (some 3)
      (λ _ db. db)
      (some tower)).0
    ≡ ok archived_answer
unfolding set_project_archived entry beq_list beq_option beq_bool decided Value_discrete etag_of
    decimal ℕ_discrete is_truthy revision_plus_one
archives = refl

set_project_archived-changed_example :
    (before : Project) × (after : Project) × (◌≡◌ {A = Option Project} (some tower) (some before))
    × ((set_project_archived
          (single Project)
          (codes "p1")
          (codes "bob")
          (some true)
          (some false)
          (some 3)
          (λ _ db. db)
          (some tower)).1
        ≡ some after)
    × (true ≡ true)
    × ArchiveWrite (codes "bob") (some 3) archived_answer before after
set_project_archived-changed_example =
    set_project_archived-changed (single Project) (codes "p1") (codes "bob") true false (some 3)
      (λ _ db. db) (some tower) archived_answer archives refl

abbrev renaming : Body
renaming =
    body ((codes "name", text (codes "Tower")) ∷ (codes "rate", number 90) ∷ [])
      ((codes "rate", null) ∷ (codes "name", text (codes "Spire")) ∷ [])

abbrev edited_answer : Edited
edited_answer = record {
  changed_fields = codes "name" ∷ codes "rate" ∷ [];
  current =
      (codes "name", text (codes "Spire"))
      ∷ (codes "description", null)
      ∷ (codes "color", null)
      ∷ (codes "customer", null)
      ∷ (codes "rate", null)
      ∷ (codes "budget", null)
      ∷ (codes "startDate", null)
      ∷ (codes "endDate", null)
      ∷ (codes "public", boolean true)
      ∷ (codes "notbillable", boolean false)
      ∷ [];
  etag = codes "\"titra-project-revision-4\"";
}

edits :
    (edit_project_details
      (single Project)
      (codes "p1")
      (codes "ann")
      renaming
      (some 3)
      (λ _ db. db)
      (some tower)).0
    ≡ ok edited_answer
unfolding edit_project_details entry beq_list beq_option beq_bool decided Value_discrete etag_of
    decimal ℕ_discrete is_truthy revision_plus_one
edits = refl

edit_project_details-changed_example :
    (before : Project) × (after : Project) × (◌≡◌ {A = Option Project} (some tower) (some before))
    × ((edit_project_details
          (single Project)
          (codes "p1")
          (codes "ann")
          renaming
          (some 3)
          (λ _ db. db)
          (some tower)).1
        ≡ some after)
    × EditWrite (codes "ann") (some 3) (changes_of renaming) edited_answer before after
edit_project_details-changed_example =
    edit_project_details-changed (single Project) (codes "p1") (codes "ann") renaming (some 3)
      (λ _ db. db) (some tower) edited_answer edits refl

outsider :
    (is_project_member tower (codes "eve") ≡ false)
    × (is_project_member cheap_tower (codes "eve") ≡ false)
unfolding is_project_member with_field entry beq_list contains
outsider = (refl, refl)

agree : Agree public_fields tower cheap_tower
unfolding with_field entry beq_list
agree = (refl, (refl, (refl, (refl, (refl, (refl, (refl, (refl, (refl, (refl, tt))))))))))

serialize_project_for_caller-Agree_example :
    serialize_project_for_caller (some tower) (codes "eve")
    ≡ serialize_project_for_caller (some cheap_tower) (codes "eve")
serialize_project_for_caller-Agree_example =
    serialize_project_for_caller-Agree tower cheap_tower (codes "eve") agree outsider.0 outsider.1
