-- ===== src/Lifecycle/Edit.antt =====
-- `editProjectDetails`.
pub mod Fields
pub mod Edits
use titra.Common.{
  ℕ, ◌+◌, Bool, true, false, not, ◌&&◌, ◌||◌, Option, none, some, List, [], ◌∷◌, map, Text, codes,
  List_eq, ℕ_eq, Option_eq, ◌==◌, contains, any, keep, is_before, ltb, eqb, if◌then◌else◌, length,
  Result, ok, throw, throw_if, ◌>>=◌, ◌>>◌,
}
use titra.Common.Collection.{Collection, Update, Reply, matched, rejected}
use titra.Revision.{project, resource_revision_etag, matches_resource_revision}
use titra.Calendar.DateOnly.{date_only_to_utc}
use titra.Lifecycle.{
  Value, null, text, date, number, boolean, Project, Value_eq, LifecycleError, project_invalid,
  project_write_conflict, driver_error, is_project_administrator, project_snapshot_selector,
  with_field, inc_revision, found, may_write, is_last_revision, revision_after, resource_of,
  conflict_unless_one,
}
use titra.Lifecycle.Details.{
  project_detail_fields, normalize_detail, or_null, Body, malformed, body, entry,
  validate_project_details_body,
}

-- What an edit is about to do: the project that was read, the fields of the body and their changes.
pub record Plan : Type 0 where
  pub snapshot : Project
  pub fields : List Text
  pub expected : List (Text × Value)
  pub changes : List (Text × Value)

abbrev pub expected_of : Body → List (Text × Value)
expected_of malformed = []
expected_of (body expected changes) = expected

abbrev pub changes_of : Body → List (Text × Value)
changes_of malformed = []
changes_of (body expected changes) = changes

-- `candidate`
unfoldable pub candidate : Plan → Text → Value
unfolding contains entry normalize_detail
candidate plan field =
    if contains field plan.fields
    then or_null (entry field plan.changes)
    else normalize_detail plan.snapshot field

-- What `>` makes of a number and of `true`.
abbrev numeric : Value → Option ℕ
numeric (number n) = some n
numeric (boolean true) = some 1
numeric _ = none

abbrev is_greater : Option ℕ → Option ℕ → Bool
is_greater (some a) (some b) = not (eqb a 0) && not (eqb b 0) && ltb b a
is_greater _ _ = false

-- `start && end && start > end` of two strings, or of numbers. A date is a string in a candidate; for
-- any other stored value, which no edit writes, `>` is taken as false.
abbrev pub is_reversed : Value → Value → Bool
is_reversed (text start) (text end) =
    not (length start == 0) && not (length end == 0) && is_before end start
is_reversed start end = is_greater (numeric start) (numeric end)

unfoldable pub changed_fields : Plan → List Text
unfolding keep entry
changed_fields plan = keep (λ f. not (entry f plan.expected == entry f plan.changes)) plan.fields

-- `null` unsets a field.
abbrev pub present : Value → Option Value
present null = none
present v = some v

abbrev pub date_value : Value → Option Value
date_value (text s) = elim (date_only_to_utc s) [ none ↦ none | some t ↦ some (date t) ]
date_value _ = none

-- The part of `$set` and `$unset` that one changed field makes up.
unfoldable pub write_detail : Text → Value → Project → Project
unfolding with_field date_only_to_utc
write_detail field value p =
    if field == codes "description"
    then with_field (codes "desc") (present value)
        (with_field (codes "description") (present value) p)
    else if field == codes "startDate" || field == codes "endDate"
    then with_field field (date_value value) p
    else with_field field (present value) p

unfoldable pub write_details : List Text → List (Text × Value) → Project → Project
unfolding write_detail entry
write_details [] changes p = p
write_details (field ∷ fields) changes p =
    write_details fields changes (write_detail field (or_null (entry field changes)) p)

unfoldable pub edit_update : Plan → Update Project
unfolding project_snapshot_selector write_details inc_revision changed_fields
edit_update plan = record {
  selector = project_snapshot_selector plan.snapshot;
  modifier = λ stored. inc_revision (write_details (changed_fields plan) plan.changes stored);
}

pub record Edited : Type 0 where
  pub changed_fields : List Text
  pub current : List (Text × Value)
  pub etag : Text

abbrev pub current_details : Plan → List (Text × Value)
current_details plan = map (λ f. (f, candidate plan f)) project_detail_fields

abbrev pub edit_answer : Plan → Option Text → Result LifecycleError Edited
edit_answer plan none = throw driver_error
edit_answer plan (some tag) =
    ok (record { changed_fields = changed_fields plan; current = current_details plan; etag = tag })

unfoldable pub edit_checks :
    Text → Text → Body → Option ℕ → Option Project → Result LifecycleError Plan
unfolding validate_project_details_body found is_project_administrator matches_resource_revision any
    normalize_detail candidate changed_fields entry
edit_checks project_id user_id edit expected_revision stored =
    validate_project_details_body edit >>= λ fields.
    may_write is_project_administrator user_id (found project_id stored) >>= λ p.
    let plan : Plan = record {
      snapshot = p;
      fields = fields;
      expected = expected_of edit;
      changes = changes_of edit;
    } in
    throw_if
      (not (matches_resource_revision project (some (resource_of p)) expected_revision)
        || any (λ f. not (some (normalize_detail p f) == entry f plan.expected)) fields)
      project_write_conflict
    >> throw_if
        (is_reversed (candidate plan (codes "startDate")) (candidate plan (codes "endDate")))
        project_invalid
    >> throw_if (not (length (changed_fields plan) == 0) && is_last_revision p)
        project_write_conflict
    >> ok plan

-- Without a change the snapshot is only looked up again.
abbrev pub looked_up : Plan → Option Project → Result LifecycleError Edited
looked_up plan none = throw project_write_conflict
looked_up plan (some stored) =
    if project_snapshot_selector plan.snapshot stored
    then edit_answer plan (resource_revision_etag project (some (resource_of plan.snapshot)))
    else throw project_write_conflict

module _ (projects : Collection Project) where
  open projects use {Db, find, update_one}

  -- The write, where a field is changed.
  unfoldable pub edit_write : Bool → Plan → Db → Result LifecycleError Edited × Db
  unfolding edit_update project_snapshot_selector resource_revision_etag
  edit_write true plan db =
      let (reply, after) = update_one (edit_update plan) db in
      (
        conflict_unless_one reply (
            edit_answer plan
              (resource_revision_etag project (some (revision_after plan.snapshot)))),
        after,
      )
  edit_write false plan db = (looked_up plan (find db), db)

  unfoldable pub edit_checked :
      Result LifecycleError Plan → (ℕ → Db → Db) → Db → Result LifecycleError Edited × Db
  unfolding edit_write changed_fields
  edit_checked (throw e) others db = (throw e, db)
  edit_checked (ok plan) others db =
      edit_write (not (length (changed_fields plan) == 0)) plan (others 1 db)

  unfoldable pub edit_project_details :
      Text → Text → Body → Option ℕ → (ℕ → Db → Db) → Db → Result LifecycleError Edited × Db
  unfolding edit_checks edit_checked
  edit_project_details project_id user_id edit expected_revision others db =
      let db' = others 0 db in
      edit_checked (edit_checks project_id user_id edit expected_revision (find db')) others db'
