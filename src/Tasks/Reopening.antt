-- ===== src/Tasks/Reopening.antt =====
-- What an operator's replay and approval make of a task: who may claim it afterwards.
use context_lattice.Prelude.{
  Bool, Option, Text, arith, false, ltb, not, or_else, refl, some, true, ℕ, ◌&&◌, ◌+◌, ◌||◌, ◌∙◌,
  ◌≡◌, ◌≤◌,
}
use context_lattice.Clock.{iso_leb, iso_leb-late}
use context_lattice.Tasks.{
  Status, Task, TaskDb, approved, blocked, canceled, failed, find_task, is_waiting, queued, running,
  succeeded,
}
use context_lattice.Tasks.Invariant.{
  IsValid, IsValidTask, find_task-IsValid, find_task-log_event, find_task-set_task,
}
use context_lattice.Tasks.Claim.{agent_accepts, can_claim}
use context_lattice.Tasks.Approval.{
  approve_found, approve_row, approve_task_record, approved_status,
}
use context_lattice.Tasks.Replay.{replay_found, replay_row, replay_task_record}

replay_found_lem :
    (now : ℕ) (i : Text) (actor note_text : Option Text) (reset : Bool) (row : Task) (db : TaskDb)
    → find_task i db ≡ some row
    → find_task i (replay_found now i actor note_text reset (some row) db).1
      ≡ some (replay_row now reset row row)
unfolding replay_found replay_row
replay_found_lem now i actor note_text reset row db e =
    find_task-log_event i _ _ ∙ find_task-set_task i (replay_row now reset row) db row e (λ t. refl)

replay_row-can_claim :
    (now at : ℕ) (key : Text) (reset : Bool) (row : Task)
    → IsValidTask row
    → now + 1_000_000 ≤ at
    → can_claim at key (replay_row now reset row row) ≡ (
        (not row.approval_required || row.approved)
        && (reset || ltb row.attempts row.max_attempts)
        && agent_accepts key row.agent)
unfolding replay_row can_claim
replay_row-can_claim now at key true row v late =
    let has_budget : ltb 0 row.max_attempts ≡ true = ground (arith, v.positive) in
    rw (has_budget, iso_leb-late now at late) (ground arith)
replay_row-can_claim now at key false row v late = rw (iso_leb-late now at late) (ground arith)

-- A second after the replay of a task, whatever its status was, a worker may claim it exactly where the
-- approval gate is open, the task is addressed to the worker, and its attempts were reset or are not
-- used up. The transaction has to meet the row that the replay has read.
pub replay_reopens :
    (now at : ℕ) (i key : Text) (actor note_text : Option Text) (reset : Bool) (read db : TaskDb)
    (row : Task)
    → IsValid db
    → find_task i read ≡ some row
    → find_task i db ≡ some row
    → now + 1_000_000 ≤ at
    → (u : Task) × (find_task i (replay_task_record now i actor note_text reset read db).1 ≡ some u)
      × (can_claim at key u ≡ (
          (not row.approval_required || row.approved)
          && (reset || ltb row.attempts row.max_attempts)
          && agent_accepts key row.agent))
unfolding replay_task_record
replay_reopens now at i key actor note_text reset read db row v r e late = (
  replay_row now reset row row,
  rw r (replay_found_lem now i actor note_text reset row db e),
  replay_row-can_claim now at key reset row (find_task-IsValid i db row e v) late,
)

approve_found_lem :
    (now : ℕ) (i : Text) (approver note_text : Option Text) (row : Task) (db : TaskDb)
    → find_task i db ≡ some row
    → find_task i (approve_found now i approver note_text (some row) db).1
      ≡ some (approve_row now row row)
unfolding approve_found approve_row
approve_found_lem now i approver note_text row db e =
    find_task-log_event i _ _ ∙ find_task-set_task i (approve_row now row) db row e (λ t. refl)

-- The statuses that an approval puts into the queue, or leaves there.
abbrev pub is_approvable : Status → Bool
is_approvable blocked = true
is_approvable s = is_waiting s

approved_status-waiting : (s : Status) → is_waiting (approved_status s) ≡ is_approvable s
approved_status-waiting queued = refl
approved_status-waiting approved = refl
approved_status-waiting running = refl
approved_status-waiting blocked = refl
approved_status-waiting succeeded = refl
approved_status-waiting failed = refl
approved_status-waiting canceled = refl

-- After its approval a task may be claimed exactly where it was waiting or blocked, has attempts left, is
-- due (at once, where it had no time) and is addressed to the worker: the gate is open. The transaction
-- has to meet the row that the approval has read.
pub approve_opens :
    (now at : ℕ) (i key : Text) (approver note_text : Option Text) (read db : TaskDb) (row : Task)
    → find_task i read ≡ some row
    → find_task i db ≡ some row
    → (u : Task) × (find_task i (approve_task_record now i approver note_text read db).1 ≡ some u)
      × (can_claim at key u ≡ (
          is_approvable row.status
          && ltb row.attempts row.max_attempts
          && iso_leb (or_else row.run_after now) at
          && agent_accepts key row.agent))
unfolding approve_task_record approve_row can_claim
approve_opens now at i key approver note_text read db row r e = (
  approve_row now row row,
  rw r (approve_found_lem now i approver note_text row db e),
  rw (approved_status-waiting row.status) (ground arith),
)
