-- ===== src/Tasks/Replay.antt =====
-- `replay_task_record`: an operator puts a task back into the queue.
use context_lattice.Prelude.{Bool, Option, Text, codes, if◌then◌else◌, none, some, ℕ}
use context_lattice.Json.{bool, end, field, obj, text_value}
use context_lattice.Tasks.{
  Event, Task, TaskDb, find_task, log_event, queued, set_task, task_replayed,
}

unfoldable pub replay_row : ℕ → Bool → Task → Task → Task
replay_row now reset_attempts row t = record t {
  status = queued;
  run_after = some now;
  lease_expires_at = none;
  claimed_by = none;
  completed_at = none;
  attempts = if reset_attempts then 0 else row.attempts;
  last_error = none;
  updated_at = now;
}

unfoldable pub replay_event : ℕ → Text → Option Text → Option Text → Bool → Event
replay_event now i actor note_text reset_attempts = record {
  task_id = i;
  timestamp = now;
  status = queued;
  message = task_replayed;
  metadata = some (
      obj (
        field (codes "actor") (text_value actor) (
          field (codes "note") (text_value note_text)
            (field (codes "reset_attempts") (bool reset_attempts) end))));
}

unfoldable pub replay_found :
    ℕ → Text → Option Text → Option Text → Bool → Option Task → TaskDb → Option Task × TaskDb
replay_found now i actor note_text reset_attempts none db = (none, db)
replay_found now i actor note_text reset_attempts (some row) db =
    let db' =
      log_event (replay_event now i actor note_text reset_attempts)
        (set_task i (replay_row now reset_attempts row) db) in
    (find_task i db', db')

-- `read` is the database at the SELECT, which comes before the transaction on `db`.
unfoldable pub replay_task_record :
    ℕ → Text → Option Text → Option Text → Bool → (read db : TaskDb) → Option Task × TaskDb
replay_task_record now i actor note_text reset_attempts read db =
    replay_found now i actor note_text reset_attempts (find_task i read) db
