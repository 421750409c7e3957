-- ===== src/Tasks/Claiming.antt =====
-- What a worker gets from `claim_next_task`: a row that it may run, the best of them, and no row that
-- another worker holds.
use mathlib.Core.Path.{subst}
use context_lattice.Prelude.{
  Has, Option, Ordering, Text, ap, compare_int, false, lower, none, refl, some, sym, true, ℕ, ◌+◌,
  ◌<◌, ◌∙◌, ◌≡◌, ◌≢◌, ◌≤◌, ◌⊎◌,
}
use context_lattice.Clock.{iso_leb}
use context_lattice.Tasks.{Task, TaskConfig, TaskDb, approved, find_task, queued, running}
use context_lattice.Tasks.Invariant.{
  IsValid, find_task-Has, find_task-log_event, find_task-set_task,
}
use context_lattice.Tasks.Leases.{recover_expired_task_leases}
use context_lattice.Tasks.Claim.{
  agent_accepts, can_claim, choose, claim_chosen, claim_next_task, claim_row, due_rank,
  worker_name_of,
}
use context_lattice.Tasks.Preservation.{choose_lem, recover-IsValid}
use context_lattice.Tasks.Parts.{can_claim-parts, claim_row-fields}
use context_lattice.Tasks.Choosing.{before_claimed, choose-least, choose-none, due_rank-early}

-- The row that a claim takes, the condition under which it may, and what the worker is given.
pub record IsClaimed (config : TaskConfig) (recovery_now now : ℕ) (worker : Option Text)
    (db : TaskDb) (task : Task) : Type 0 where
  pub row : Task
  pub present : Has row (recover_expired_task_leases recovery_now 25 db).1.tasks
  pub fit : can_claim now (lower (worker_name_of worker)) row ≡ true
  -- The condition, part by part.
  pub waited : (row.status ≡ queued) ⊎ (row.status ≡ approved)
  pub gated : (row.approval_required ≡ false) ⊎ (row.approved ≡ true)
  pub allowed : row.attempts < row.max_attempts
  pub due :
      (row.run_after ≡ none) ⊎ ((at : ℕ) × (row.run_after ≡ some at) × (iso_leb at now ≡ true))
  pub addressed : agent_accepts (lower (worker_name_of worker)) row.agent ≡ true
  -- What the worker is given.
  pub same_id : task.id ≡ row.id
  pub runs : task.status ≡ running
  pub held : task.claimed_by ≡ some (worker_name_of worker)
  pub leased : task.lease_expires_at ≡ some (now + config.lease)
  pub counted : task.attempts ≡ row.attempts + 1
  pub taken : task ≡ claim_row now config.lease (worker_name_of worker) row
  pub stored : find_task row.id (claim_next_task config recovery_now now worker db).1 ≡ some task

pub claim_chosen_lem :
    (now lease : ℕ) (worker : Text) (row : Task) (db : TaskDb)
    → find_task row.id db ≡ some row
    → (claim_chosen now lease worker (some row) db).0 ≡ some (claim_row now lease worker row)
unfolding claim_chosen claim_row
claim_chosen_lem now lease worker row db e =
    find_task-log_event row.id _ _
    ∙ find_task-set_task row.id (claim_row now lease worker) db row e (λ t. refl)

claim_chosen_stored :
    (now lease : ℕ) (worker : Text) (row : Task) (db : TaskDb)
    → find_task row.id (claim_chosen now lease worker (some row) db).1
      ≡ (claim_chosen now lease worker (some row) db).0
unfolding claim_chosen
claim_chosen_stored now lease worker row db = refl

pub claim_chosen-none :
    (now lease : ℕ) (worker : Text) (db : TaskDb)
    → ((claim_chosen now lease worker none db).0 ≡ none)
      × ((claim_chosen now lease worker none db).1 ≡ db)
unfolding claim_chosen
claim_chosen-none now lease worker db = (refl, refl)

-- A claim gives a row that was waiting, approved where that is required, due, within its attempts
-- and addressed to the worker; it is returned and stored as running, leased and counted.
pub claim_sound :
    (config : TaskConfig) (recovery_now now : ℕ) (worker : Option Text) (db : TaskDb) (task : Task)
    → IsValid db
    → (claim_next_task config recovery_now now worker db).0 ≡ some task
    → IsClaimed config recovery_now now worker db task
unfolding claim_next_task
claim_sound config recovery_now now worker db task v e =
    go
      (choose now (lower (worker_name_of worker))
        (recover_expired_task_leases recovery_now 25 db).1)
      refl e
  where
    after : TaskDb
    after = (recover_expired_task_leases recovery_now 25 db).1

    go :
        (o : Option Task)
        → choose now (lower (worker_name_of worker)) after ≡ o
        → (claim_chosen now config.lease (worker_name_of worker) o after).0 ≡ some task
        → IsClaimed config recovery_now now worker db task
    go none c h = cc ((claim_chosen-none now config.lease (worker_name_of worker) after).0)
    go (some row) c h =
        let m = choose_lem now (lower (worker_name_of worker)) after row c in
        let f = find_task-Has row after (recover-IsValid recovery_now 25 db v) m.0 in
        let k = can_claim-parts now (lower (worker_name_of worker)) row m.1 in
        let q : task ≡ claim_row now config.lease (worker_name_of worker) row =
          cc (claim_chosen_lem now config.lease (worker_name_of worker) row after f) in
        let g = claim_row-fields now config.lease (worker_name_of worker) row in
        record {
          row = row;
          present = m.0;
          fit = m.1;
          waited = k.0;
          gated = k.1;
          allowed = k.2;
          due = k.3;
          addressed = k.4;
          same_id = ap (λ t. t.id) q ∙ g.0;
          runs = ap (λ t. t.status) q ∙ g.1;
          held = ap (λ t. t.claimed_by) q ∙ g.2;
          leased = ap (λ t. t.lease_expires_at) q ∙ g.3;
          counted = ap (λ t. t.attempts) q ∙ g.4;
          taken = q;
          stored =
              rw c (claim_chosen_stored now config.lease (worker_name_of worker) row after ∙ h);
        }

claimed_first :
    (config : TaskConfig) (recovery_now now : ℕ) (worker : Option Text) (db : TaskDb)
    (task u : Task)
    → IsValid db
    → (claim_next_task config recovery_now now worker db).0 ≡ some task
    → Has u (recover_expired_task_leases recovery_now 25 db).1.tasks
    → can_claim now (lower (worker_name_of worker)) u ≡ true
    → (compare_int u.priority task.priority ≢ Ordering.gt)
      × (u.priority ≡ task.priority → due_rank task.run_after ≤ due_rank u.run_after)
unfolding claim_next_task
claimed_first config recovery_now now worker db task u v e h' fit =
    go (choose now (lower (worker_name_of worker)) after) refl e
  where
    after : TaskDb
    after = (recover_expired_task_leases recovery_now 25 db).1

    go :
        (o : Option Task)
        → choose now (lower (worker_name_of worker)) after ≡ o
        → (claim_chosen now config.lease (worker_name_of worker) o after).0 ≡ some task
        → (compare_int u.priority task.priority ≢ Ordering.gt)
          × (u.priority ≡ task.priority → due_rank task.run_after ≤ due_rank u.run_after)
    go none c h = cc ((claim_chosen-none now config.lease (worker_name_of worker) after).0)
    go (some row) c h =
        let m = choose_lem now (lower (worker_name_of worker)) after row c in
        let f = find_task-Has row after (recover-IsValid recovery_now 25 db v) m.0 in
        let q : task ≡ claim_row now config.lease (worker_name_of worker) row =
          cc (claim_chosen_lem now config.lease (worker_name_of worker) row after f) in
        subst
          (λ t.
            (compare_int u.priority t.priority ≢ Ordering.gt)
            × (u.priority ≡ t.priority → due_rank t.run_after ≤ due_rank u.run_after))
          (sym q)
          (before_claimed now config.lease (worker_name_of worker) row u
            (choose-least now (lower (worker_name_of worker)) after row u c h' fit))

-- No row that the worker may claim stands before the row that a claim gives: none has a higher priority,
-- and at the same priority none stands earlier by the order of the stored texts of `run_after` (NULL
-- first), nor was any due a second earlier or more.
pub claim-first :
    (config : TaskConfig) (recovery_now now : ℕ) (worker : Option Text) (db : TaskDb)
    (task u : Task)
    → IsValid db
    → (claim_next_task config recovery_now now worker db).0 ≡ some task
    → Has u (recover_expired_task_leases recovery_now 25 db).1.tasks
    → can_claim now (lower (worker_name_of worker)) u ≡ true
    → (compare_int u.priority task.priority ≢ Ordering.gt)
      × (u.priority ≡ task.priority → due_rank task.run_after ≤ due_rank u.run_after)
      × (u.priority ≡ task.priority
          → (a b : ℕ) → task.run_after ≡ some a
          → u.run_after ≡ some b
          → a < b + 1_000_000)
claim-first config recovery_now now worker db task u v e h fit =
    let c = claimed_first config recovery_now now worker db task u v e h fit in
    (c.0, c.1, λ p. due_rank-early task.run_after u.run_after (c.1 p))

-- A claim that gives nothing has only recovered leases, and no row of the table fits the worker.
pub claim-none :
    (config : TaskConfig) (recovery_now now : ℕ) (worker : Option Text) (db : TaskDb)
    → IsValid db
    → (claim_next_task config recovery_now now worker db).0 ≡ none
    → ((claim_next_task config recovery_now now worker db).1
        ≡ (recover_expired_task_leases recovery_now 25 db).1)
      × ((u : Task)
          → Has u (recover_expired_task_leases recovery_now 25 db).1.tasks
          → can_claim now (lower (worker_name_of worker)) u ≡ false)
unfolding claim_next_task
claim-none config recovery_now now worker db v e =
    go (choose now (lower (worker_name_of worker)) after) refl e
  where
    after : TaskDb
    after = (recover_expired_task_leases recovery_now 25 db).1

    go :
        (o : Option Task)
        → choose now (lower (worker_name_of worker)) after ≡ o
        → (claim_chosen now config.lease (worker_name_of worker) o after).0 ≡ none
        → ((claim_chosen now config.lease
              (worker_name_of worker)
              (choose now (lower (worker_name_of worker)) after)
              after).1
            ≡ after)
          × ((u : Task)
              → Has u after.tasks
              → can_claim now (lower (worker_name_of worker)) u ≡ false)
    go none c h = (
      rw c (claim_chosen-none now config.lease (worker_name_of worker) after).1,
      choose-none now (lower (worker_name_of worker)) after c,
    )
    go (some row) c h =
        let m = choose_lem now (lower (worker_name_of worker)) after row c in
        let f = find_task-Has row after (recover-IsValid recovery_now 25 db v) m.0 in
        cc (claim_chosen_lem now config.lease (worker_name_of worker) row after f)
