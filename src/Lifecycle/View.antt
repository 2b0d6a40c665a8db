-- ===== src/Lifecycle/View.antt =====
-- `serializeProjectForCaller` and `getProjectLifecyclePreview`.
pub mod Privacy
use titra.Common.{
  ℕ, Bool, true, false, not, ◌&&◌, ◌||◌, Option, none, some, List, [], ◌∷◌, ◌++◌, map, Text, codes,
  List_eq, ℕ_eq, ◌==◌, contains, keep, ltb, if◌then◌else◌, length, Result, ok, throw, throw_if,
  ◌>>=◌, ◌>>◌,
}
use titra.Revision.{project, resource_revision_etag}
use titra.Lifecycle.{
  Value, null, text, boolean, texts, Project, LifecycleError, project_invalid, not_authorized,
  driver_error, is_true, includes, is_project_owner, is_project_member, can_view_project,
  resource_of,
}
use titra.Lifecycle.Details.{project_detail_fields, normalize_detail, or_null}

-- The payload by its members, in the order of the source.
abbrev pub Payload : Type 0
Payload = List (Text × Value)

-- `[...new Set(ids)]`, each id at its first place.
unfoldable pub unique_from : List Text → List Text → List Text
unfolding contains
unique_from seen [] = []
unique_from seen (id ∷ ids) = elim (contains id seen) [
  | true ↦ unique_from seen ids
  | false ↦ id ∷ unique_from (id ∷ seen) ids
]

abbrev pub unique_ids : Option Value → Value
unique_ids (some (texts ids)) = texts (unique_from [] ids)
unique_ids _ = texts []

unfoldable pub role_of : Project → Text → Text
unfolding is_project_owner includes
role_of p user_id =
    if is_project_owner p user_id
    then codes "owner"
    else if includes (p (codes "admins")) user_id
    then codes "admin"
    else if includes (p (codes "team")) user_id
    then codes "member"
    else codes "public"

abbrev pub detail_entry : Project → Text → Text × Value
detail_entry p field = (field, normalize_detail p field)

abbrev pub archived_entry : Project → Text × Value
archived_entry p = (codes "archived", boolean (is_true (p (codes "archived"))))

abbrev pub id_entry : Project → Text × Value
id_entry p = (codes "_id", or_null (p (codes "_id")))

unfoldable pub member_payload : Project → Text → Payload
unfolding normalize_detail role_of unique_from
member_payload p user_id =
    (id_entry p ∷ map (detail_entry p) project_detail_fields)
    ++ (archived_entry p
        ∷ (codes "role", text (role_of p user_id))
        ∷ (codes "userId", or_null (p (codes "userId")))
        ∷ (codes "team", unique_ids (p (codes "team")))
        ∷ (codes "admins", unique_ids (p (codes "admins")))
        ∷ (codes "defaultTask", or_null (p (codes "defaultTask")))
        ∷ (codes "priority", or_null (p (codes "priority")))
        ∷ [])

unfoldable pub public_payload : Project → Payload
unfolding normalize_detail
public_payload p =
    id_entry p
    ∷ detail_entry p (codes "name")
    ∷ detail_entry p (codes "description")
    ∷ detail_entry p (codes "color")
    ∷ archived_entry p
    ∷ detail_entry p (codes "public")
    ∷ detail_entry p (codes "notbillable")
    ∷ detail_entry p (codes "startDate")
    ∷ detail_entry p (codes "endDate")
    ∷ []

unfoldable pub serialize_project_for_caller : Option Project → Text → Option Payload
unfolding can_view_project is_project_member member_payload public_payload
serialize_project_for_caller none user_id = none
serialize_project_for_caller (some p) user_id =
    if not (can_view_project p user_id)
    then none
    else if is_project_member p user_id
    then some (member_payload p user_id)
    else some (public_payload p)

pub record Preview : Type 0 where
  pub payload : Payload
  pub etag : Text

abbrev previewed : Project → Option Payload → Result LifecycleError Preview
previewed p none = throw not_authorized
previewed p (some payload) = elim (resource_revision_etag project (some (resource_of p))) [
  | none ↦ throw driver_error
  | some tag ↦ ok (record { payload = payload; etag = tag })
]

abbrev preview_of : Option Project → Text → Result LifecycleError Preview
preview_of none user_id = throw not_authorized
preview_of (some p) user_id = previewed p (serialize_project_for_caller (some p) user_id)

-- `getProjectLifecyclePreview`; `find_project` is the callback. A revision that has no tag is a
-- TypeError, here `driver_error`.
unfoldable pub get_project_lifecycle_preview :
    Text → Text → (Text → Option Project) → Result LifecycleError Preview
unfolding serialize_project_for_caller resource_revision_etag
get_project_lifecycle_preview project_id user_id find_project =
    throw_if (length project_id == 0 || ltb 128 (length project_id) || length user_id == 0)
      project_invalid
    >> preview_of (find_project project_id) user_id
