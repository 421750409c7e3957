-- ===== src/Tasks/Retry.antt =====
-- `_task_retry_delay_secs` and `requeue_task_for_retry`: a failed run goes back to the queue with a
-- growing delay, or to the dead letters once its attempts are used up.
use context_lattice.Prelude.{
  Bool, Option, Text, codes, if◌then◌else◌, is_empty, leb, min, none, some, take, ℕ, ◌*◌, ◌+◌, ◌-◌,
  ◌==◌, ◌^◌,
}
use context_lattice.Json.{end, field, obj, str, text_value}
use context_lattice.Tasks.{
  Event, Task, TaskConfig, TaskDb, failed, failed_permanently, find_task, log_event, queued,
  requeued_after_failure, set_task,
}

unfoldable pub task_retry_delay : TaskConfig → ℕ → ℕ
task_retry_delay config attempt = min (config.retry_base * 2 ^ (attempt - 1)) config.retry_max

-- `int(row["max_attempts"] or TASK_DEFAULT_MAX_ATTEMPTS)`
unfoldable pub allowed_attempts : TaskConfig → Task → ℕ
allowed_attempts config row =
    if row.max_attempts == 0 then config.default_max_attempts else row.max_attempts

-- `str(error or "task execution failed")[:2000]`
unfoldable pub error_text_of : Text → Text
error_text_of error = take 2000 (if is_empty error then codes "task execution failed" else error)

unfoldable pub is_exhausted : TaskConfig → Task → Bool
unfolding allowed_attempts
is_exhausted config row = leb (allowed_attempts config row) row.attempts

-- `later` is the moment at which the delay is added.
unfoldable pub retry_row : TaskConfig → ℕ → ℕ → Text → Task → Task → Task
retry_row config now later error row t = record t {
  status = if is_exhausted config row then failed else queued;
  run_after =
      if is_exhausted config row
      then row.run_after
      else some (later + task_retry_delay config row.attempts);
  lease_expires_at = none;
  claimed_by = none;
  updated_at = now;
  completed_at = if is_exhausted config row then some now else none;
  last_error = some (error_text_of error);
}

unfoldable pub retry_event : TaskConfig → ℕ → Text → Text → Option Text → Task → Event
retry_event config now i error worker row = record {
  task_id = i;
  timestamp = now;
  status = if is_exhausted config row then failed else queued;
  message =
      if is_exhausted config row
      then failed_permanently row.attempts (allowed_attempts config row)
      else requeued_after_failure row.attempts (allowed_attempts config row);
  metadata = some (
      obj (
        field (codes "worker") (text_value worker)
          (field (codes "error") (str (error_text_of error)) end)));
}

unfoldable pub requeue_found :
    TaskConfig → ℕ → ℕ → Text → Text → Option Text → Option Task → TaskDb → Option Task × TaskDb
requeue_found config now later i error worker none db = (none, db)
requeue_found config now later i error worker (some row) db =
    let db' =
      log_event (retry_event config now i error worker row)
        (set_task i (retry_row config now later error row) db) in
    (find_task i db', db')

-- `read` is the database at the SELECT, which comes before the transaction on `db`.
unfoldable pub requeue_task_for_retry :
    TaskConfig → ℕ → ℕ → Text → Text → Option Text → (read db : TaskDb) → Option Task × TaskDb
requeue_task_for_retry config now later i error worker read db =
    requeue_found config now later i error worker (find_task i read) db
