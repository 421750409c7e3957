-- ===== src/Tasks/Approval.antt =====
-- `approve_task_record`: an operator lifts the approval gate.
use context_lattice.Prelude.{
  Bool, Option, Text, codes, false, if◌then◌else◌, is_empty, none, not, or_else, some, true, ℕ,
  ◌||◌,
}
use context_lattice.Json.{Json, end, field, obj, text_value}
use context_lattice.Tasks.{
  Status, Task, TaskDb, approved, blocked, find_task, log_event, queued, set_task, task_approved,
}

abbrev pub approved_status : Status → Status
approved_status blocked = approved
approved_status queued = approved
approved_status s = s

unfoldable pub approve_row : ℕ → Task → Task → Task
approve_row now row t = record t {
  approved = true;
  status = approved_status row.status;
  updated_at = now;
  run_after = some (or_else t.run_after now);
}

abbrev has_text : Option Text → Bool
has_text none = false
has_text (some s) = not (is_empty s)

unfoldable pub approval_metadata : Option Text → Option Text → Option Json
approval_metadata approver note_text =
    if has_text approver || has_text note_text
    then some (
        obj (
          field (codes "approver") (text_value approver)
            (field (codes "note") (text_value note_text) end)))
    else none

unfoldable pub approve_found :
    ℕ → Text → Option Text → Option Text → Option Task → TaskDb → Option Task × TaskDb
approve_found now i approver note_text none db = (none, db)
approve_found now i approver note_text (some row) db =
    let db' =
      log_event
        (record {
          task_id = i;
          timestamp = now;
          status = approved;
          message = task_approved;
          metadata = approval_metadata approver note_text;
        })
        (set_task i (approve_row now row) db) in
    (find_task i db', db')

-- `read` is the database at the SELECT, which comes before the transaction on `db`.
unfoldable pub approve_task_record :
    ℕ → Text → Option Text → Option Text → (read db : TaskDb) → Option Task × TaskDb
approve_task_record now i approver note_text read db =
    approve_found now i approver note_text (find_task i read) db
