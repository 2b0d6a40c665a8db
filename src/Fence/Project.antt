-- ===== src/Fence/Project.antt =====
-- The fence fields of a project document, and the queries and modifiers of projectChildFence.js.
use titra.Common.{
  ℕ, ◌*◌, ◌≡◌, ◌↔◌, Bool, true, false, not, ◌&&◌, Option, none, some, List, [], ◌∷◌, arith, Text,
  codes, ℕ_eq, List_eq, Eq, ◌==◌, if◌then◌else◌, Stored, Stored_eq, beq_stored_iff, missing, held,
  Result, ok, throw, throw_if, ◌>>=◌, ◌>>◌, is_safe_id,
}

pub data FenceError : Type 0 where
  project_child_fence_invalid project_child_write_blocked : FenceError
  project_child_write_outcome_unknown driver_error : FenceError
  -- An error that a callback threw.
  cause : ℕ → FenceError

abbrev pub max_project_child_writers : ℕ
max_project_child_writers = 64

abbrev pub minimum_fence_recovery_age_ms : ℕ
minimum_fence_recovery_age_ms = 15 * 60 * 1000

pub data ResourceType : Type 0 where
  task timecard : ResourceType

abbrev pub project_child_resource_kinds : List (Text × ResourceType)
project_child_resource_kinds =
    (codes "project-default-task", task)
    ∷ (codes "project-task-create", task)
    ∷ (codes "project-task-recover", task)
    ∷ (codes "project-task-update", task)
    ∷ (codes "timecard-create", timecard)
    ∷ (codes "timecard-details-move", timecard)
    ∷ (codes "timecard-recover", timecard)
    ∷ (codes "timecard-task-edit", timecard)
    ∷ (codes "timecard-update", timecard)
    ∷ (codes "timecard-week-upsert", timecard)
    ∷ []

-- What a property access on the table gives, `undefined` included.
unfoldable pub kind_in : Text → List (Text × ResourceType) → Option ResourceType
kind_in kind [] = none
kind_in kind ((name, type) ∷ rest) = if name == kind then some type else kind_in kind rest

unfoldable pub resource_type_of : Text → Option ResourceType
unfolding kind_in
resource_type_of kind = kind_in kind project_child_resource_kinds

unfoldable pub is_kind : Text → Bool
unfolding resource_type_of
is_kind kind = elim (resource_type_of kind) [ none ↦ false | some _ ↦ true ]

pub record Metadata : Type 0 where
  pub reservation_id : Text
  pub kind : Text
  pub resource_id : Text
  pub acquired_at : ℕ
  pub boot_id : Text

-- An entry of `lifecycleWriterMetadata` as it is stored; a value that is no object has no fields.
-- Further fields, which the code never writes and which `$pull` and `$elemMatch` would ignore, are
-- left out.
pub record Entry : Type 0 where
  pub reservation_id : Stored Text
  pub kind : Stored Text
  pub resource_id : Stored Text
  pub acquired_at : Stored ℕ
  pub boot_id : Stored Text

unfoldable pub beq_entry : Entry → Entry → Bool
beq_entry a b =
    a.reservation_id == b.reservation_id
    && a.kind == b.kind
    && a.resource_id == b.resource_id
    && a.acquired_at == b.acquired_at
    && a.boot_id == b.boot_id

pub beq_entry_iff : (a b : Entry) → (beq_entry a b ≡ true) ↔ (a ≡ b)
unfolding beq_entry
beq_entry_iff a b = ground (
  arith,
  beq_stored_iff a.reservation_id b.reservation_id,
  beq_stored_iff a.kind b.kind,
  beq_stored_iff a.resource_id b.resource_id,
  beq_stored_iff a.acquired_at b.acquired_at,
  beq_stored_iff a.boot_id b.boot_id,
)

instance abbrev pub Entry_eq : Eq Entry
Entry_eq = record { beq = beq_entry; beq_iff = beq_entry_iff }

-- `exactWriterMetadata`
abbrev pub exact_writer_metadata : Metadata → Entry
exact_writer_metadata m = record {
  reservation_id = held m.reservation_id;
  kind = held m.kind;
  resource_id = held m.resource_id;
  acquired_at = held m.acquired_at;
  boot_id = held m.boot_id;
}

pub record Lock : Type 0 where
  pub lock_id : Text
  pub acquired_at : ℕ

-- The `taskGraphLock` of a project as it is stored (tasks/server/taskGraphFence.js).
pub record TaskGraphLock : Type 0 where
  pub kind : Stored Text
  pub lock_id : Stored Text
  pub task_id : Stored Text
  pub task_name : Stored Text
  pub task_fingerprint : Stored Text
  pub acquired_at : Stored ℕ
  pub boot_id : Stored Text

-- A lifecycle lock of the kind `delete` is held; any other value is `junk`.
pub record Project : Type 0 where
  pub id : Text
  pub lifecycle_lock : Stored Lock
  pub task_graph_lock : Stored TaskGraphLock
  pub lifecycle_writers : Stored (List (Stored Text))
  pub lifecycle_writer_metadata : Stored (List Entry)

unfoldable pub validate_fence_id : Text → Bool
unfolding is_safe_id
validate_fence_id s = is_safe_id 8 s

unfoldable pub validate_resource_id : Text → Bool
unfolding is_safe_id
validate_resource_id s = is_safe_id 1 s

-- `currentDate`: an invalid clock is refused.
unfoldable pub current_date : Option ℕ → Result FenceError ℕ
current_date none = throw project_child_fence_invalid
current_date (some now) = ok now

-- `writerMetadata`, whose checks all throw the same error.
unfoldable pub writer_metadata : Text → Text → Text → Option ℕ → Text → Result FenceError Metadata
unfolding validate_fence_id validate_resource_id is_kind current_date
writer_metadata reservation_id kind resource_id now boot_id = do
  throw_if (not (validate_fence_id reservation_id)) project_child_fence_invalid
  throw_if (not (is_kind kind)) project_child_fence_invalid
  throw_if (not (validate_resource_id resource_id)) project_child_fence_invalid
  acquired_at ← current_date now
  throw_if (not (validate_fence_id boot_id)) project_child_fence_invalid
  ok (record {
    reservation_id = reservation_id;
    kind = kind;
    resource_id = resource_id;
    acquired_at = acquired_at;
    boot_id = boot_id;
  })

unfoldable pub valid_stored : Metadata → Bool
unfolding validate_fence_id validate_resource_id is_kind
valid_stored m =
    validate_fence_id m.reservation_id
    && is_kind m.kind
    && validate_resource_id m.resource_id
    && validate_fence_id m.boot_id

-- The typed metadata of a stored entry, if each field has its type.
unfoldable pub typed_metadata :
    Stored Text → Stored Text → Stored Text → Stored ℕ → Stored Text → Option Metadata
typed_metadata (held r) (held k) (held i) (held t) (held b) =
    some (record { reservation_id = r; kind = k; resource_id = i; acquired_at = t; boot_id = b })
typed_metadata _ _ _ _ _ = none

unfoldable pub metadata_of : Entry → Option Metadata
unfolding typed_metadata
metadata_of e = typed_metadata e.reservation_id e.kind e.resource_id e.acquired_at e.boot_id

-- `validStoredWriterMetadata`
unfoldable pub valid_stored_writer_metadata : Entry → Bool
unfolding metadata_of valid_stored
valid_stored_writer_metadata e = elim (metadata_of e) [ none ↦ false | some m ↦ valid_stored m ]

-- The elements of an array field; a field of another type has none.
abbrev pub elements {ℓ} : {A : Type ℓ} → Stored (List A) → List A
elements (held xs) = xs
elements _ = []

-- The query `$size: 0`, or the field does not exist.
abbrev pub is_absent_or_empty {ℓ} : {A : Type ℓ} → Stored (List A) → Bool
is_absent_or_empty missing = true
is_absent_or_empty (held []) = true
is_absent_or_empty _ = false
