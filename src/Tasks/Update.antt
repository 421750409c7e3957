-- ===== src/Tasks/Update.antt =====
-- `update_task_status`: a worker or an operator sets the status of a task.
use mathlib.Core.Option
use context_lattice.Prelude.{
  Bool, Option, Reply, Text, [], codes, http_error, if◌then◌else◌, is_empty, lower, none, or_else,
  reply, some, strip, take, text_eq, true, ℕ,
}
use context_lattice.Clock.{task_parse_datetime}
use context_lattice.Json.{Fields, Json, get, null, obj, str_of, truthy}
use context_lattice.Tasks.{
  Status, Task, TaskDb, approved, blocked, canceled, failed, find_task, given, is_terminal,
  is_waiting, log_event, queued, running, set_task, succeeded,
}

-- `TASK_TERMINAL_STATUSES.union(TASK_MUTABLE_STATUSES)`
unfoldable pub status_of : Text → Option Status
status_of s =
    if text_eq s (codes "succeeded")
    then some succeeded
    else if text_eq s (codes "failed")
    then some failed
    else if text_eq s (codes "canceled")
    then some canceled
    else if text_eq s (codes "queued")
    then some queued
    else if text_eq s (codes "approved")
    then some approved
    else if text_eq s (codes "running")
    then some running
    else if text_eq s (codes "blocked")
    then some blocked
    else none

abbrev releases : Status → Bool
releases queued = true
releases approved = true
releases blocked = true
releases s = is_terminal s

abbrev not_null : Option Json → Option Json
not_null none = none
not_null (some null) = none
not_null (some v) = some v

-- `metadata.get("result") if "result" in metadata else metadata`, and `None` where it is null
unfoldable pub result_payload : Option Fields → Option Json
result_payload none = none
result_payload (some metadata) = elim (get (codes "result") metadata) [
  | none ↦ some (obj metadata)
  | some v ↦ not_null (some v)
]

-- `str(message or row["last_error"] or "")[:2000]`
unfoldable pub failure_text : Option Text → Option Text → Text
failure_text none old = take 2000 (or_else old [])
failure_text (some m) old = take 2000 (if is_empty m then or_else old [] else m)

module _ (from_iso : Text → Option ℕ) (repr : Json → Text) where
  -- The metadata's `run_after`, where it is given, true and a timestamp.
  unfoldable pub run_after_override : Option Fields → Option ℕ
  run_after_override none = none
  run_after_override (some metadata) = elim (get (codes "run_after") metadata) [
    | none ↦ none
    | some v ↦ if truthy v then task_parse_datetime from_iso (some (str_of repr v)) else none
  ]

  -- The values that the `UPDATE` writes, computed from the row that was read.
  unfoldable pub status_row : ℕ → Status → Option Text → Option Fields → Task → Task → Task
  status_row now s message metadata row t = record t {
    status = s;
    updated_at = now;
    run_after = elim (run_after_override metadata) [
      | some at ↦ some at
      | none ↦ if is_waiting s then some now else row.run_after
    ];
    lease_expires_at = if releases s then none else row.lease_expires_at;
    claimed_by = if releases s then none else row.claimed_by;
    completed_at = if is_terminal s then some now else row.completed_at;
    last_error = elim s [
      | failed ↦ some (failure_text message row.last_error)
      | other ↦ row.last_error
    ];
    result = elim (result_payload metadata) [ some v ↦ some v | none ↦ row.result ];
  }

  unfoldable pub update_found :
      ℕ → Text → Status → Option Text → Option Fields → Option Task → TaskDb → Option Task × TaskDb
  update_found now i s message metadata none db = (none, db)
  update_found now i s message metadata (some row) db =
      let db' =
        log_event
          (record {
            task_id = i;
            timestamp = now;
            status = s;
            message = given message;
            metadata = Option.map obj metadata;
          })
          (set_task i (status_row now s message metadata row) db) in
      (find_task i db', db')

  -- A text that names no status is refused before the table is read; `read` is the database at the
  -- SELECT, which comes before the transaction on `db`.
  unfoldable pub update_parsed :
      ℕ
      → Text
      → Option Status
      → Option Text
      → Option Fields
      → (read db : TaskDb) → Reply (Option Task) × TaskDb
  update_parsed now i none message metadata read db = (http_error 422, db)
  update_parsed now i (some s) message metadata read db =
      let (task, db') = update_found now i s message metadata (find_task i read) db in
      (reply task, db')

  unfoldable pub update_task_status :
      ℕ
      → Text
      → Text
      → Option Text
      → Option Fields
      → (read db : TaskDb) → Reply (Option Task) × TaskDb
  update_task_status now i status message metadata read db =
      update_parsed now i (status_of (lower (strip status))) message metadata read db
