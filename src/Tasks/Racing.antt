-- ===== src/Tasks/Racing.antt =====
-- An approval whose SELECT comes before a claim of the task, and whose transaction comes after it.
use mathlib.Core.Path.{subst}
use context_lattice.Prelude.{
  Option, Text, arith, ltb, or_else, refl, some, sym, true, ℕ, ◌&&◌, ◌∙◌, ◌≡◌,
}
use context_lattice.Clock.{iso_leb}
use context_lattice.Tasks.{
  Status, Task, TaskConfig, TaskDb, approved, blocked, canceled, failed, find_task, queued, running,
  succeeded,
}
use context_lattice.Tasks.Invariant.{IsValid, find_task-log_event, find_task-set_task}
use context_lattice.Tasks.Claim.{agent_accepts, can_claim, claim_next_task, worker_name_of}
use context_lattice.Tasks.Approval.{
  approve_found, approve_row, approve_task_record, approved_status,
}
use context_lattice.Tasks.Claiming.{claim_sound}
use context_lattice.Tasks.Reopening.{is_approvable}

approved_status-approvable : (s : Status) → is_approvable s ≡ true → approved_status s ≡ approved
approved_status-approvable queued h = refl
approved_status-approvable approved h = refl
approved_status-approvable blocked h = refl
approved_status-approvable running h = cc
approved_status-approvable succeeded h = cc
approved_status-approvable failed h = cc
approved_status-approvable canceled h = cc

approve_row-open :
    (now at : ℕ) (key : Text) (old t : Task)
    → is_approvable old.status ≡ true
    → can_claim at key (approve_row now old t) ≡ (
        ltb t.attempts t.max_attempts
        && iso_leb (or_else t.run_after now) at
        && agent_accepts key t.agent)
unfolding approve_row can_claim
approve_row-open now at key old t h = rw (approved_status-approvable old.status h) (ground arith)

-- An approval reads a task that waits or is blocked, the task is given to a worker, and then the
-- transaction of the approval runs: the task is `approved` while it has its worker still, and any worker
-- that it is addressed to may claim it a second time, if it has attempts left and is due.
pub approval_race :
    (config : TaskConfig) (recovery_now now later at : ℕ) (worker approver note_text : Option Text)
    (key : Text) (read db : TaskDb) (task old : Task)
    → IsValid db
    → (claim_next_task config recovery_now now worker db).0 ≡ some task
    → find_task task.id read ≡ some old
    → is_approvable old.status ≡ true
    → let after = (claim_next_task config recovery_now now worker db).1 in
      (u : Task) × (find_task task.id
          (approve_task_record later task.id approver note_text read after).1
        ≡ some u)
      × (u.status ≡ approved)
      × (u.claimed_by ≡ some (worker_name_of worker))
      × (can_claim at key u ≡ (
          ltb task.attempts task.max_attempts
          && iso_leb (or_else task.run_after later) at
          && agent_accepts key task.agent))
unfolding approve_task_record approve_found approve_row
approval_race config recovery_now now later at worker approver note_text key read db task old v e r
      h =
    let c = claim_sound config recovery_now now worker db task v e in
    let after = (claim_next_task config recovery_now now worker db).1 in
    let name = worker_name_of worker in
    let i : task.id ≡ c.row.id = c.same_id in
    let by : task.claimed_by ≡ some name = c.held in
    let found : find_task task.id after ≡ some task =
      subst (λ j. find_task j after ≡ some task) (sym i) c.stored in
    (
      approve_row later old task,
      rw r (
          find_task-log_event task.id _ _
          ∙ find_task-set_task task.id (approve_row later old) after task found (λ t. refl)),
      approved_status-approvable old.status h,
      by,
      approve_row-open later at key old task h,
    )
