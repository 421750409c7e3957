-- ===== src/Tasks.antt =====
-- The agent task queue of services/orchestrator/app.py: the rows of the tables `tasks` and
-- `task_events` (`_init_task_db`), `_task_row_to_dict`, and the statements that all operations share.
pub mod Contract
pub mod Invariant
pub mod Leases
pub mod Create
pub mod Claim
pub mod Update
pub mod Approval
pub mod Retry
pub mod Replay
pub mod Preservation
pub mod Recovering
pub mod Parts
pub mod Choosing
pub mod Claiming
pub mod Operations
pub mod Keys
pub mod Framing
pub mod Holding
pub mod Exclusion
pub mod Budget
pub mod Retrying
pub mod Stuck
pub mod Reopening
pub mod Racing
pub mod Listing
pub mod Watching
pub mod Creating
use context_lattice.Prelude.{
  ℕ, Bool, true, false, Option, List, [], ◌∷◌, ◌++◌, map, Text, text_eq, update_where, find,
  has_key, ℤ,
}
use context_lattice.Json.{Json}

pub data Status : Type 0 where
  queued approved running blocked succeeded failed canceled : Status

-- The messages of `task_events`, one constructor for each f-string, with what it prints.
pub data Message : Type 0 where
  created : (due : ℕ) → Message
  claimed : (worker : Text) → Message
  lease_expired task_approved task_replayed : Message
  failed_permanently requeued_after_failure : (attempts max_attempts : ℕ) → Message
  given : Option Text → Message

pub record Task : Type 0 where
  pub id : Text
  pub title : Text
  pub status : Status
  pub project : Option Text
  pub agent : Option Text
  pub priority : ℤ
  pub payload : Option Json
  pub run_after : Option ℕ
  pub attempts : ℕ
  pub max_attempts : ℕ
  pub lease_expires_at : Option ℕ
  pub claimed_by : Option Text
  pub last_error : Option Text
  pub result : Option Json
  pub completed_at : Option ℕ
  pub created_at : ℕ
  pub updated_at : ℕ
  pub approval_required : Bool
  pub approved : Bool
  pub risk_level : Text
  pub action_type : Option Text

pub record Event : Type 0 where
  pub task_id : Text
  pub timestamp : ℕ
  pub status : Status
  pub message : Message
  pub metadata : Option Json

-- `events` stands in the order of the autoincremented id.
pub record TaskDb : Type 0 where
  pub tasks : List Task
  pub events : List Event

-- The environment's settings, in microseconds where the source has seconds.
pub record TaskConfig : Type 0 where
  pub lease : ℕ
  pub default_max_attempts : ℕ
  pub retry_base : ℕ
  pub retry_max : ℕ

abbrev pub empty_db : TaskDb
empty_db = record { tasks = []; events = [] }

-- `WHERE id = ?`
abbrev pub has_id : Text → Task → Bool
has_id i t = has_key (λ (r : Task). r.id) text_eq i t

-- `SELECT * FROM tasks WHERE id = ?`
unfoldable pub find_task : Text → TaskDb → Option Task
find_task i db = find (has_id i) db.tasks

-- `UPDATE tasks SET … WHERE id = ?`
unfoldable pub set_task : Text → (Task → Task) → TaskDb → TaskDb
set_task i f db = record db { tasks = update_where (has_id i) f db.tasks }

-- `INSERT INTO task_events`
unfoldable pub log_event : Event → TaskDb → TaskDb
log_event e db = record db { events = db.events ++ e ∷ [] }

abbrev pub is_terminal : Status → Bool
is_terminal succeeded = true
is_terminal failed = true
is_terminal canceled = true
is_terminal _ = false

abbrev pub is_running : Status → Bool
is_running running = true
is_running _ = false

-- `status IN ('queued', 'approved')`
abbrev pub is_waiting : Status → Bool
is_waiting queued = true
is_waiting approved = true
is_waiting _ = false

abbrev pub ids : List Task → List Text
ids ts = map (λ t. t.id) ts
