-- ===== src/Tasks/Create.antt =====
-- `create_task_record`: a checked payload becomes a queued row.
use mathlib.Core.Option
use context_lattice.Prelude.{
  Bool, Option, Reply, Text, [], codes, false, http_error, if◌then◌else◌, is_empty, max, min, none,
  occurs, reply, some, text_eq, ℕ, ℤ, ◌++◌, ◌==◌, ◌>>=◌, ◌||◌, ◌∷◌,
}
use context_lattice.Clock.{task_parse_datetime}
use context_lattice.Json.{Fields, Json, get, obj, truthy}
use context_lattice.Tasks.{Event, Task, TaskConfig, TaskDb, created, ids, log_event, queued}
use context_lattice.Tasks.Contract.{
  Contract, detect_action_type, detect_risk_level, normalize_task_action, or_option,
  requires_approval, validate_task_payload,
}

-- `max(1, min(int(max_attempts or TASK_DEFAULT_MAX_ATTEMPTS), 50))`; a zero is false. The API gives
-- no negative number.
unfoldable pub cap_attempts : TaskConfig → Option ℕ → ℕ
cap_attempts config none = max 1 (min config.default_max_attempts 50)
cap_attempts config (some n) = max 1 (min (if n == 0 then config.default_max_attempts else n) 50)

-- `bool(payload.get(k))`
abbrev pub flag : Text → Fields → Bool
flag k fs = elim (get k fs) [ none ↦ false | some v ↦ truthy v ]

-- The caller's arguments, and what the body draws from outside: a new `uuid4().hex` and the time.
pub record NewTask : Type 0 where
  pub id : Text
  pub title : Text
  pub project : Option Text
  pub agent : Option Text
  pub priority : ℤ
  pub payload : Option Json
  pub run_after : Option Text
  pub max_attempts : Option ℕ

abbrev creation_event : ℕ → Text → ℕ → Event
creation_event now i due = record {
  task_id = i;
  timestamp = now;
  status = queued;
  message = created due;
  metadata = none;
}

-- `INSERT INTO tasks`. An id that is there already breaks the primary key: the exception rolls the
-- transaction back, and the request ends as a server error.
unfoldable pub insert_task : ℕ → ℕ → Task → TaskDb → Reply Task × TaskDb
insert_task now due row db =
    if occurs text_eq row.id (ids db.tasks) then (http_error 500, db) else (
      reply row,
      log_event (creation_event now row.id due) (record db { tasks = db.tasks ++ row ∷ [] }),
    )

module _ (config : TaskConfig) (contract : Contract) (from_iso : Text → Option ℕ) where
  -- The moment from which the task is due; a text that is given must be a timestamp.
  unfoldable pub due_at : ℕ → Option Text → Reply ℕ
  due_at now none = reply now
  due_at now (some s) =
      if is_empty s then reply now else elim (task_parse_datetime from_iso (some s)) [
        | none ↦ http_error 422
        | some at ↦ reply at
      ]

  unfoldable pub approval_needed : Option Fields → Bool
  approval_needed none = requires_approval contract none
  approval_needed (some fs) =
      flag (codes "approval_required") fs || requires_approval contract (some fs)

  unfoldable pub approved_at_creation : Option Fields → Bool
  approved_at_creation none = false
  approved_at_creation (some fs) = flag (codes "approved") fs || flag (codes "approval") fs

  unfoldable pub recorded_action : Option Fields → Option Text
  recorded_action none = none
  recorded_action (some fs) =
      or_option (normalize_task_action contract (get (codes "action") fs)) (detect_action_type fs)

  unfoldable pub new_row : ℕ → NewTask → Option Fields → ℕ → Task
  new_row now args payload due = record {
    id = args.id;
    title = args.title;
    status = queued;
    project = args.project;
    agent = args.agent;
    priority = args.priority;
    payload = Option.map obj payload;
    run_after = some due;
    attempts = 0;
    max_attempts = cap_attempts config args.max_attempts;
    lease_expires_at = none;
    claimed_by = none;
    last_error = none;
    result = none;
    completed_at = none;
    created_at = now;
    updated_at = now;
    approval_required = approval_needed payload;
    approved = approved_at_creation payload;
    risk_level = detect_risk_level contract payload;
    action_type = recorded_action payload;
  }

  unfoldable pub insert_checked :
      ℕ → NewTask → Reply (Option Fields × ℕ) → TaskDb → Reply Task × TaskDb
  insert_checked now args (http_error code) db = (http_error code, db)
  insert_checked now args (reply (payload, due)) db =
      insert_task now due (new_row now args payload due) db

  -- The checks, the payload's first.
  unfoldable pub check_new_task : ℕ → NewTask → Reply (Option Fields × ℕ)
  check_new_task now args = do
    payload ← validate_task_payload contract args.payload
    due ← due_at now args.run_after
    reply (payload, due)

  unfoldable pub create_task_record : ℕ → NewTask → TaskDb → Reply Task × TaskDb
  unfolding insert_checked check_new_task
  create_task_record now args db = insert_checked now args (check_new_task now args) db
