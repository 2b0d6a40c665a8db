-- ===== src/TaskGraph/Lock.antt =====
-- The task graph lock: its checks, queries and modifiers.
use titra.Common.{
  ℕ, Bool, false, not, ◌&&◌, ◌||◌, Option, none, some, Text, codes, ℕ_eq, List_eq, Stored_eq, ◌==◌,
  leb, eqb, length, every, Stored, missing, held, Result, ok, throw, throw_if, ◌>>=◌, ◌>>◌,
  is_safe_id,
}
use titra.Common.Collection.{Update}
use titra.Fence.Project.{Project, TaskGraphLock}
use titra.Fence.Deletion.{lock_selector}

pub data TaskGraphError : Type 0 where
  project_task_invalid driver_error : TaskGraphError
  -- An error that a callback threw.
  cause : ℕ → TaskGraphError

-- A lock that passed its checks.
pub record TaskLock : Type 0 where
  pub lock_id : Text
  pub task_id : Text
  pub task_name : Text
  pub task_fingerprint : Text
  pub acquired_at : ℕ
  pub boot_id : Text

abbrev pub delete_task_kind : Text
delete_task_kind = codes "delete-task"

unfoldable pub validate_task_graph_lock_id : Text → Bool
unfolding is_safe_id
validate_task_graph_lock_id s = is_safe_id 8 s

unfoldable pub validate_task_resource_id : Text → Bool
unfolding is_safe_id
validate_task_resource_id s = is_safe_id 1 s

unfoldable pub is_hex_digit : ℕ → Bool
is_hex_digit c = (leb b'a' c && leb c b'f') || (leb b'0' c && leb c b'9')

-- `/^[a-f0-9]{64}$/`
unfoldable pub valid_fingerprint : Text → Bool
unfolding every is_hex_digit
valid_fingerprint s = eqb (length s) 64 && every is_hex_digit s

unfoldable pub valid_task_name : Text → Bool
valid_task_name s = leb 1 (length s) && leb (length s) 1000

unfoldable pub current_date : Option ℕ → Result TaskGraphError ℕ
current_date none = throw project_task_invalid
current_date (some now) = ok now

-- The checks at the start of `deleteProjectTaskWithFence`, which all throw the same error.
unfoldable pub new_lock :
    Text → Text → Text → Text → Option ℕ → Text → Result TaskGraphError TaskLock
unfolding validate_task_graph_lock_id validate_task_resource_id valid_task_name valid_fingerprint
    current_date
new_lock lock_id task_id task_name task_fingerprint now boot_id = do
  throw_if (not (validate_task_graph_lock_id lock_id)) project_task_invalid
  throw_if (not (validate_task_resource_id task_id)) project_task_invalid
  throw_if (not (valid_task_name task_name)) project_task_invalid
  throw_if (not (valid_fingerprint task_fingerprint)) project_task_invalid
  acquired_at ← current_date now
  throw_if (not (validate_task_graph_lock_id boot_id)) project_task_invalid
  ok (record {
    lock_id = lock_id;
    task_id = task_id;
    task_name = task_name;
    task_fingerprint = task_fingerprint;
    acquired_at = acquired_at;
    boot_id = boot_id;
  })

abbrev pub stored_lock : TaskLock → TaskGraphLock
stored_lock l = record {
  kind = held delete_task_kind;
  lock_id = held l.lock_id;
  task_id = held l.task_id;
  task_name = held l.task_name;
  task_fingerprint = held l.task_fingerprint;
  acquired_at = held l.acquired_at;
  boot_id = held l.boot_id;
}

unfoldable pub graph_lock_modifier : TaskLock → Project → Project
graph_lock_modifier l p = record p { task_graph_lock = held (stored_lock l) }

-- The query is that of an empty project's deletion: no lock of either kind, no writers.
unfoldable pub graph_lock_update : (Project → Bool) → TaskLock → Update Project
unfolding lock_selector graph_lock_modifier
graph_lock_update selector l = record {
  selector = lock_selector selector;
  modifier = λ p. some (graph_lock_modifier l p);
}

unfoldable pub has_graph_lock_id : Text → Stored TaskGraphLock → Bool
has_graph_lock_id lock_id (held l) = l.lock_id == held lock_id
has_graph_lock_id lock_id _ = false

-- `lockSelector`, without the identifier of the project.
unfoldable pub has_exact_lock : TaskLock → Stored TaskGraphLock → Bool
has_exact_lock l (held s) =
    s.kind == held delete_task_kind
    && s.lock_id == held l.lock_id
    && s.task_id == held l.task_id
    && s.task_name == held l.task_name
    && s.task_fingerprint == held l.task_fingerprint
    && s.acquired_at == held l.acquired_at
    && s.boot_id == held l.boot_id
has_exact_lock l _ = false

unfoldable pub graph_unlock_modifier : Project → Project
graph_unlock_modifier p = record p { task_graph_lock = missing }

unfoldable pub graph_unlock_update : Text → TaskLock → Update Project
unfolding has_exact_lock graph_unlock_modifier
graph_unlock_update project_id l = record {
  selector = λ p. p.id == project_id && has_exact_lock l p.task_graph_lock;
  modifier = λ p. some (graph_unlock_modifier p);
}
