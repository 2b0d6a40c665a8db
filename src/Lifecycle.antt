-- ===== src/Lifecycle.antt =====
-- imports/api/projects/server/projectLifecycle.js: who may see, edit, archive and delete a project.
-- Other code that writes the same project shows as arguments of the operations: `others k` is what it
-- does before their k-th call of the database.
pub mod Details
pub mod View
pub mod Snapshot
pub mod Archive
pub mod Edit
mod Tests
use titra.Common.{
  ℕ, ◌+◌, Bool, true, false, not, ◌&&◌, ◌||◌, Option, none, some, List, [], ◌∷◌, Text, codes,
  List_eq, ℕ_eq, ◌==◌, Eq, decided, decided_iff, contains, every, eqb, if◌then◌else◌, Stored,
  missing, held, junk, Option_eq, arith, Result, ok, throw, ◌^◌, ◌-◌,
}
use titra.Common.Collection.{Reply, matched, rejected}
use mathlib.Core.HLevel.{Discrete}
use native.Mathlib.Decide.{ℕ_discrete}
use titra.Revision.{Resource}

-- A value of a project's field. `fraction` is a non-negative finite number that is no integer, `delta`
-- an object with `ops` by their `insert`s (`none` where that is no string), `other` anything else.
pub data Value : Type 0 where
  null : Value
  text : Text → Value
  number : ℕ → Value
  fraction : ℕ → Value
  boolean : Bool → Value
  date : ℕ → Value
  texts : List Text → Value
  delta : List (Option Text) → Value
  other : ℕ → Value

unfoldable pub Value_discrete : Discrete Value
Value_discrete = hlevel (ℕ_discrete)

instance abbrev pub Value_eq : Eq Value
Value_eq = record {
  beq = λ a b. decided (Value_discrete a b);
  beq_iff = λ a b. decided_iff (Value_discrete a b);
}

-- A project by its fields; `none` where it has no such field.
abbrev pub Project : Type 0
Project = Text → Option Value

pub data LifecycleError : Type 0 where
  project_invalid : LifecycleError
  not_authorized : LifecycleError
  project_write_conflict : LifecycleError
  project_not_empty : LifecycleError
  driver_error : LifecycleError

abbrev pub is_text : Text → Option Value → Bool
is_text s (some (text t)) = t == s
is_text s _ = false

abbrev pub is_true : Option Value → Bool
is_true (some (boolean true)) = true
is_true _ = false

-- `?.includes` of a list.
unfoldable pub includes : Option Value → Text → Bool
unfolding contains
includes (some (texts ids)) id = contains id ids
includes _ id = false

-- `Boolean(value)`
unfoldable pub is_truthy : Option Value → Bool
is_truthy none = false
is_truthy (some null) = false
is_truthy (some (text [])) = false
is_truthy (some (number n)) = not (eqb n 0)
is_truthy (some (boolean b)) = b
is_truthy (some _) = true

unfoldable pub is_project_owner : Project → Text → Bool
is_project_owner p user_id = is_text user_id (p (codes "userId"))

unfoldable pub is_project_administrator : Project → Text → Bool
unfolding is_project_owner includes
is_project_administrator p user_id =
    is_project_owner p user_id || includes (p (codes "admins")) user_id

unfoldable pub is_project_member : Project → Text → Bool
unfolding is_project_administrator includes
is_project_member p user_id =
    is_project_administrator p user_id || includes (p (codes "team")) user_id

unfoldable pub can_view_project : Project → Text → Bool
unfolding is_project_member
can_view_project p user_id = is_project_member p user_id || is_true (p (codes "public"))

-- The revision field as the entity tags read it.
abbrev pub stored_number : Option Value → Stored ℕ
stored_number none = missing
stored_number (some (number n)) = held n
stored_number (some _) = junk 0

abbrev pub resource_of : Project → Resource
resource_of p = λ field. stored_number (p field)

abbrev pub snapshot_fields : List Text
snapshot_fields =
    codes "userId"
    ∷ codes "admins"
    ∷ codes "team"
    ∷ codes "projectRevision"
    ∷ codes "name"
    ∷ codes "description"
    ∷ codes "desc"
    ∷ codes "color"
    ∷ codes "customer"
    ∷ codes "rate"
    ∷ codes "budget"
    ∷ codes "startDate"
    ∷ codes "endDate"
    ∷ codes "public"
    ∷ codes "notbillable"
    ∷ codes "archived"
    ∷ codes "defaultTask"
    ∷ codes "rates"
    ∷ codes "priority"
    ∷ codes "lifecycleLock"
    ∷ []

-- `projectSnapshotSelector`; whole values are compared.
unfoldable pub project_snapshot_selector : Project → Project → Bool
unfolding every
project_snapshot_selector p stored =
    stored (codes "_id") == p (codes "_id")
    && every (λ field. stored field == p field) snapshot_fields

unfoldable pub with_field : Text → Option Value → Project → Project
with_field field value p = λ g. if g == field then value else p g

-- `$inc: { projectRevision: 1 }`, which the server refuses where the field is no number.
unfoldable pub next_revision : Option Value → Option Value
next_revision none = some (number 1)
next_revision (some (number n)) = some (number (n + 1))
next_revision (some _) = none

unfoldable pub inc_revision : Project → Option Project
unfolding next_revision with_field
inc_revision p = elim (next_revision (p (codes "projectRevision"))) [
  | none ↦ none
  | some n ↦ some (with_field (codes "projectRevision") (some n) p)
]

-- `findProject({ _id })`, where the store has one project.
unfoldable pub found : Text → Option Project → Option Project
found id none = none
found id (some p) = if is_text id (p (codes "_id")) then some p else none

-- The checks before an administrator's write.
abbrev pub may_write :
    (Project → Text → Bool) → Text → Option Project → Result LifecycleError Project
may_write role user_id none = throw not_authorized
may_write role user_id (some p) =
    if is_truthy (p (codes "lifecycleLock")) || not (role p user_id)
    then throw not_authorized
    else ok p

abbrev pub max_revision : ℕ
max_revision = 2 ^ 53 - 1

-- `project.projectRevision === Number.MAX_SAFE_INTEGER`
abbrev pub is_last_revision : Project → Bool
is_last_revision p = p (codes "projectRevision") == some (number max_revision)

-- `(project.projectRevision ?? 0) + 1`, where `true` is 1. Of any other value it makes no
-- integer.
unfoldable pub revision_plus_one : Option Value → Stored ℕ
revision_plus_one none = held (0 + 1)
revision_plus_one (some null) = held (0 + 1)
revision_plus_one (some (number n)) = held (n + 1)
revision_plus_one (some (boolean b)) = held (if b then 2 else 1)
revision_plus_one (some _) = junk 0

-- The same as the field of a resource.
abbrev pub revision_after : Project → Resource
revision_after p = λ field. revision_plus_one (p (codes "projectRevision"))

-- `if (result?.matchedCount !== 1) throw …`
abbrev pub conflict_unless_one :
    {A : Type 0} → Reply → Result LifecycleError A → Result LifecycleError A
conflict_unless_one (matched n) answer = if n == 1 then answer else throw project_write_conflict
conflict_unless_one rejected answer = throw driver_error
