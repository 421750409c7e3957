-- ===== src/Tasks/Retrying.antt =====
-- Retries: the delay between attempts, and where a failed task goes.
use native.Mathlib.Nat.{pow-suc}
use context_lattice.Prelude.{
  Option, Text, ap, arith, false, leb, le→leb, min, mul_mono, not, pow_mono, refl, some, suc, true,
  ℕ, ◌*◌, ◌+◌, ◌-◌, ◌<◌, ◌^◌, ◌||◌, ◌∙◌, ◌≡◌, ◌≤◌,
}
use context_lattice.Clock.{iso_leb-late}
use context_lattice.Tasks.{Task, TaskConfig, TaskDb, failed, find_task, queued}
use context_lattice.Tasks.Invariant.{
  IsValid, IsValidTask, find_task-IsValid, find_task-log_event, find_task-set_task,
}
use context_lattice.Tasks.Claim.{agent_accepts, can_claim}
use context_lattice.Tasks.Retry.{
  is_exhausted, requeue_found, requeue_task_for_retry, retry_row, task_retry_delay,
}

-- The delay before a retry never passes the maximum, never shrinks with the number of the attempt,
-- and doubles from one attempt to the next until it meets the maximum.
pub task_retry_delay_lem :
    (config : TaskConfig) (m n : ℕ)
    → 1 ≤ m
    → m ≤ n
    → (task_retry_delay config n ≤ config.retry_max)
      × (task_retry_delay config m ≤ task_retry_delay config n)
      × (task_retry_delay config (m + 1)
          ≡ min (2 * (config.retry_base * 2 ^ (m - 1))) config.retry_max)
unfolding task_retry_delay
task_retry_delay_lem config m n h k = (
  omega arith,
  omega (
    arith,
    mul_mono config.retry_base (2 ^ (m - 1)) (2 ^ (n - 1)) (pow_mono (m - 1) (n - 1) (omega arith)),
  ),
  (let e : m + 1 - 1 ≡ suc (m - 1) = omega arith in
      rw (e, pow-suc 2 (m - 1)) (ap (λ z. min z config.retry_max) (grind arith))),
)

requeue_found_lem :
    (config : TaskConfig) (now later : ℕ) (i error : Text) (worker : Option Text) (row : Task)
    (db : TaskDb)
    → find_task i db ≡ some row
    → (requeue_found config now later i error worker (some row) db).0
      ≡ some (retry_row config now later error row row)
unfolding requeue_found retry_row
requeue_found_lem config now later i error worker row db e =
    find_task-log_event i _ _
    ∙ find_task-set_task i (retry_row config now later error row) db row e (λ t. refl)

requeue_found_stored :
    (config : TaskConfig) (now later : ℕ) (i error : Text) (worker : Option Text) (row : Task)
    (db : TaskDb)
    → find_task i (requeue_found config now later i error worker (some row) db).1
      ≡ (requeue_found config now later i error worker (some row) db).0
unfolding requeue_found
requeue_found_stored config now later i error worker row db = refl

retry_row-claimable :
    (config : TaskConfig) (now later at : ℕ) (error key : Text) (row : Task)
    → IsValidTask row
    → is_exhausted config row ≡ false
    → not row.approval_required || row.approved ≡ true
    → agent_accepts key row.agent ≡ true
    → later + task_retry_delay config row.attempts + 1_000_000 ≤ at
    → can_claim at key (retry_row config now later error row row) ≡ true
unfolding retry_row can_claim is_exhausted
retry_row-claimable config now later at error key row v more cleared named late = ground (
  arith,
  iso_leb-late (later + task_retry_delay config row.attempts) at late,
  v.within,
  v.positive,
)

-- The row is cleared by the approval gate.
abbrev pub IsCleared : Task → Type 0
IsCleared t = (not t.approval_required || t.approved) ≡ true

exhausted-max :
    (config : TaskConfig) (row : Task)
    → IsValidTask row
    → is_exhausted config row ≡ leb row.max_attempts row.attempts
unfolding is_exhausted
exhausted-max config row v = ground (arith, v.positive)

retry_row-failed :
    (config : TaskConfig) (now later : ℕ) (error : Text) (row : Task)
    → is_exhausted config row ≡ true
    → ((retry_row config now later error row row).status ≡ failed)
      × ((retry_row config now later error row row).completed_at ≡ some now)
unfolding retry_row
retry_row-failed config now later error row e = (rw e, rw e)

retry_row-queued :
    (config : TaskConfig) (now later : ℕ) (error : Text) (row : Task)
    → is_exhausted config row ≡ false
    → (retry_row config now later error row row).status ≡ queued
unfolding retry_row
retry_row-queued config now later error row e = rw e

-- A failed run whose attempts are used up ends the task as failed, with the time of its end. Any
-- other goes back to the queue, and a worker that the task is addressed to may claim it, if the
-- approval gate is open, from one second after the delay on. The transaction has to meet the row that
-- was read before it.
pub requeue-result :
    (config : TaskConfig) (now later : ℕ) (i error : Text) (worker : Option Text) (read db : TaskDb)
    (row : Task)
    → IsValid db
    → find_task i read ≡ some row
    → find_task i db ≡ some row
    → (u : Task) × ((requeue_task_for_retry config now later i error worker read db).0 ≡ some u)
      × (find_task i (requeue_task_for_retry config now later i error worker read db).1 ≡ some u)
      × (row.max_attempts ≤ row.attempts → (u.status ≡ failed) × (u.completed_at ≡ some now))
      × (row.attempts < row.max_attempts
          → (u.status ≡ queued)
            × ((at : ℕ) (key : Text)
                → IsCleared row
                → agent_accepts key row.agent ≡ true
                → later + task_retry_delay config row.attempts + 1_000_000 ≤ at
                → can_claim at key u ≡ true))
unfolding requeue_task_for_retry
requeue-result config now later i error worker read db row v r e =
    let w = find_task-IsValid i db row e v in
    let m = exhausted-max config row w in
    (
      retry_row config now later error row row,
      rw r (requeue_found_lem config now later i error worker row db e),
      rw r (
          requeue_found_stored config now later i error worker row db
          ∙ requeue_found_lem config now later i error worker row db e),
      λ h. retry_row-failed config now later error row (m ∙ le→leb _ _ h),
      λ h.
          let more : is_exhausted config row ≡ false = m ∙ ground arith in
          (
            retry_row-queued config now later error row more,
            λ at key cleared named late.
                retry_row-claimable config now later at error key row w more cleared named late,
          ),
    )
