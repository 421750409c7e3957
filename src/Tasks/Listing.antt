-- ===== src/Tasks/Listing.antt =====
-- The queries that read the task tables: `list_task_records`, `get_task_events`,
-- `list_deadletter_task_records` and `get_task_runtime_snapshot`.
use mathlib.Core.Option
use mathlib.Core.List.{reverse}
use context_lattice.Prelude.{
  Bool, List, Option, Text, [], codes, compare, compare_int, count, false, head?, if◌then◌else◌,
  is_empty, leb, lower, ltb, max, min, none, not, or_else, order_by, select, some, sql_trim, strip,
  take, text_eq, then_le, true, ℕ, ◌&&◌, ◌||◌,
}
use context_lattice.Clock.{iso_rank}
use context_lattice.Tasks.{
  Event, Status, Task, TaskDb, approved, blocked, canceled, failed, is_running, is_waiting, queued,
  running, succeeded,
}
use context_lattice.Tasks.Claim.{due_rank, is_due}

abbrev pub status_name : Status → Text
status_name queued = codes "queued"
status_name approved = codes "approved"
status_name running = codes "running"
status_name blocked = codes "blocked"
status_name succeeded = codes "succeeded"
status_name failed = codes "failed"
status_name canceled = codes "canceled"

-- `if status: … status = ?`
unfoldable pub status_passes : Option Text → Status → Bool
status_passes none s = true
status_passes (some wanted) s = is_empty wanted || text_eq (status_name s) (lower wanted)

abbrev project_is : Text → Option Text → Bool
project_is wanted none = false
project_is wanted (some p) = text_eq p wanted

unfoldable pub project_passes : Option Text → Option Text → Bool
project_passes none p = true
project_passes (some wanted) p = is_empty wanted || project_is wanted p

-- `lower(trim(coalesce(agent, '')))`
abbrev agent_key : Option Text → Text
agent_key agent = lower (sql_trim (or_else agent []))

unfoldable pub agent_passes : Option Text → Option Text → Bool
agent_passes none a = true
agent_passes (some wanted) a =
    let name = lower (strip wanted) in
    is_empty wanted
    || (if text_eq name (codes "unassigned")
        then is_empty (sql_trim (or_else a []))
        else text_eq (agent_key a) name)

-- The `WHERE` clause of the list.
unfoldable pub is_listed : Option Text → Option Text → Option Text → Task → Bool
is_listed status project agent t =
    status_passes status t.status && project_passes project t.project && agent_passes agent t.agent

-- `ORDER BY priority DESC, run_after ASC, created_at DESC`
unfoldable pub listed_le : Task → Task → Bool
listed_le a b = then_le (compare_int b.priority a.priority) (
    then_le (compare (due_rank a.run_after) (due_rank b.run_after))
      (leb (iso_rank b.created_at) (iso_rank a.created_at)))

unfoldable pub list_task_records : Option Text → Option Text → Option Text → ℕ → TaskDb → List Task
list_task_records status project agent limit db =
    take (max 1 (min limit 200))
      (order_by listed_le (select (is_listed status project agent) db.tasks))

-- `ORDER BY id DESC`: the events stand in the order of their ids.
unfoldable pub get_task_events : Text → TaskDb → List Event
get_task_events i db = reverse (select (λ e. text_eq e.task_id i) db.events)

abbrev pub is_failed : Status → Bool
is_failed failed = true
is_failed _ = false

unfoldable pub is_dead : Option Text → Task → Bool
is_dead project t = is_failed t.status && project_passes project t.project

unfoldable pub newest_first : Task → Task → Bool
newest_first a b = leb (iso_rank b.updated_at) (iso_rank a.updated_at)

unfoldable pub list_deadletter_task_records : Option Text → ℕ → TaskDb → List Task
list_deadletter_task_records project limit db =
    take (max 1 (min limit 500)) (order_by newest_first (select (is_dead project) db.tasks))

-- The counts of the snapshot.
pub record Snapshot : Type 0 where
  pub queue_ready : ℕ
  pub running_total : ℕ
  pub deadletter : ℕ
  pub oldest_pending : Option (Option ℕ)
  pub by_status : Status → ℕ

abbrev same_status : Status → Status → Bool
same_status s t = text_eq (status_name s) (status_name t)

unfoldable pub is_ready : ℕ → Task → Bool
is_ready now t =
    is_waiting t.status
    && (not t.approval_required || t.approved)
    && ltb t.attempts t.max_attempts
    && is_due now t.run_after

-- `ORDER BY run_after ASC, created_at ASC`
unfoldable pub oldest_le : Task → Task → Bool
oldest_le a b =
    then_le (compare (due_rank a.run_after) (due_rank b.run_after))
      (leb (iso_rank a.created_at) (iso_rank b.created_at))

unfoldable pub get_task_runtime_snapshot : ℕ → TaskDb → Snapshot
get_task_runtime_snapshot now db = record {
  queue_ready = count (is_ready now) db.tasks;
  running_total = count (λ t. is_running t.status) db.tasks;
  deadletter = count (λ t. is_failed t.status) db.tasks;
  oldest_pending =
      Option.map (λ t. t.run_after)
        (head? (order_by oldest_le (select (λ t. is_waiting t.status) db.tasks)));
  by_status = λ s. count (λ t. same_status t.status s) db.tasks;
}
