-- ===== src/Tasks/Leases.antt =====
-- `recover_expired_task_leases`: running rows whose lease has run out go back to the queue.
use context_lattice.Prelude.{
  Bool, List, Option, Text, [], codes, false, leb, none, or_else, order_by, select, some, suc, take,
  ℕ, ◌&&◌, ◌+◌, ◌∷◌,
}
use context_lattice.Clock.{iso_leb, iso_rank}
use context_lattice.Tasks.{
  Task, TaskDb, ids, is_running, lease_expired, log_event, queued, set_task,
}

abbrev pub lease_due : ℕ → Option ℕ → Bool
lease_due now none = false
lease_due now (some at) = iso_leb at now

-- The rows that the first statement selects.
unfoldable pub lease_expired_by : ℕ → Task → Bool
lease_expired_by now t = is_running t.status && lease_due now t.lease_expires_at

-- `ORDER BY lease_expires_at ASC`, where NULL stands first.
abbrev pub lease_rank : Option ℕ → ℕ
lease_rank none = 0
lease_rank (some at) = suc (iso_rank at)

abbrev pub lease_le : Task → Task → Bool
lease_le a b = leb (lease_rank a.lease_expires_at) (lease_rank b.lease_expires_at)

unfoldable pub expired_rows : ℕ → ℕ → List Task → List Task
expired_rows now limit ts = take limit (order_by lease_le (select (lease_expired_by now) ts))

unfoldable pub requeue_expired : ℕ → Task → Task
requeue_expired now t = record t {
  status = queued;
  run_after = some now;
  lease_expires_at = none;
  claimed_by = none;
  updated_at = now;
  last_error = some (or_else t.last_error (codes "lease expired; requeued"));
}

-- The body of the loop, for the id of one selected row.
unfoldable pub recover_one : ℕ → Text → TaskDb → TaskDb
recover_one now i db =
    log_event
      (record {
        task_id = i;
        timestamp = now;
        status = queued;
        message = lease_expired;
        metadata = none;
      })
      (set_task i (requeue_expired now) db)

unfoldable pub recover_rows : ℕ → List Text → ℕ → TaskDb → ℕ × TaskDb
recover_rows now [] recovered db = (recovered, db)
recover_rows now (i ∷ is) recovered db = recover_rows now is (recovered + 1) (recover_one now i db)

-- At a limit of zero, or below, nothing is read; `take` gives no row there.
unfoldable pub recover_expired_task_leases : ℕ → ℕ → TaskDb → ℕ × TaskDb
recover_expired_task_leases now limit db =
    recover_rows now (ids (expired_rows now limit db.tasks)) 0 db
