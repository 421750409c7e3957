-- ===== src/Tasks/Claim.antt =====
-- `claim_next_task`: the queue's read side. A worker is given the best row that it may run.
use context_lattice.Prelude.{
  Bool, Option, Text, codes, compare, compare_int, head?, if◌then◌else◌, is_empty, leb, lower, ltb,
  none, not, order_by, select, some, sql_trim, starts_with, strip, suc, text_eq, then_le, true, ℕ,
  ◌&&◌, ◌+◌, ◌||◌,
}
use context_lattice.Clock.{iso_leb, iso_rank}
use context_lattice.Json.{end, field, obj, str}
use context_lattice.Tasks.{
  Task, TaskConfig, TaskDb, claimed, find_task, is_waiting, log_event, running, set_task,
}
use context_lattice.Tasks.Leases.{recover_expired_task_leases}

abbrev external : Text
external = codes "external"

-- `str(worker or "external").strip() or "external"`
unfoldable pub worker_name_of : Option Text → Text
worker_name_of none = external
worker_name_of (some w) = let name = strip w in if is_empty name then external else name

unfoldable pub is_internal : Text → Bool
is_internal key = starts_with key (codes "internal-worker")

-- The condition on the column `agent`, for the lower-case name of the worker.
unfoldable pub agent_accepts : Text → Option Text → Bool
agent_accepts key none = true
agent_accepts key (some agent) =
    let name = lower (sql_trim agent) in
    is_empty (sql_trim agent)
    || text_eq name (codes "any")
    || text_eq name key
    || is_internal key && text_eq name (codes "internal")
    || not (is_internal key) && text_eq name external

abbrev pub is_due : ℕ → Option ℕ → Bool
is_due now none = true
is_due now (some at) = iso_leb at now

-- The `WHERE` clause of the claim.
unfoldable pub can_claim : ℕ → Text → Task → Bool
can_claim now key t =
    is_waiting t.status
    && (not t.approval_required || t.approved)
    && ltb t.attempts t.max_attempts
    && is_due now t.run_after
    && agent_accepts key t.agent

abbrev pub due_rank : Option ℕ → ℕ
due_rank none = 0
due_rank (some at) = suc (iso_rank at)

-- `ORDER BY priority DESC, run_after ASC, created_at ASC`, where NULL stands first.
unfoldable pub claim_le : Task → Task → Bool
claim_le a b = then_le (compare_int b.priority a.priority) (
    then_le (compare (due_rank a.run_after) (due_rank b.run_after))
      (leb (iso_rank a.created_at) (iso_rank b.created_at)))

unfoldable pub claim_row : ℕ → ℕ → Text → Task → Task
claim_row now lease worker t = record t {
  status = running;
  updated_at = now;
  lease_expires_at = some (now + lease);
  claimed_by = some worker;
  attempts = t.attempts + 1;
}

unfoldable pub choose : ℕ → Text → TaskDb → Option Task
choose now key db = head? (order_by claim_le (select (can_claim now key) db.tasks))

unfoldable pub claim_chosen : ℕ → ℕ → Text → Option Task → TaskDb → Option Task × TaskDb
claim_chosen now lease worker none db = (none, db)
claim_chosen now lease worker (some row) db =
    let db' =
      log_event
        (record {
          task_id = row.id;
          timestamp = now;
          status = running;
          message = claimed worker;
          metadata = some (obj (field (codes "worker") (str worker) end));
        })
        (set_task row.id (claim_row now lease worker) db) in
    (find_task row.id db', db')

-- The transaction of the claim.
unfoldable pub claim_transaction : TaskConfig → ℕ → Option Text → TaskDb → Option Task × TaskDb
claim_transaction config now worker db =
    let name = worker_name_of worker in
    claim_chosen now config.lease name (choose now (lower name) db) db

-- The lease recovery runs first, in a transaction of its own, at its own moment.
unfoldable pub claim_next_task : TaskConfig → ℕ → ℕ → Option Text → TaskDb → Option Task × TaskDb
unfolding claim_transaction
claim_next_task config recovery_now now worker db =
    claim_transaction config now worker (recover_expired_task_leases recovery_now 25 db).1
