-- ===== src/Tests/QueueRuns.antt =====
-- The task queue's theorems at work.
use mathlib.Core.Option
use context_lattice.Prelude.{
  All, List, Ordering, Text, [], arith, codes, compare_int, contains, count, find, has_key, inl,
  inr, lower, min, none, occurs, order_by, pos, refl, select, some, sql_trim, starts_with, strip,
  text_eq, true, update_where, ℕ, ◌*◌, ◌+◌, ◌-◌, ◌<◌, ◌^◌, ◌∷◌, ◌≡◌, ◌≢◌, ◌≤◌,
}
use context_lattice.Clock.{iso_leb, iso_rank}
use context_lattice.Tasks.{
  Task, TaskDb, approved, empty_db, failed, find_task, log_event, queued, running, set_task,
}
use context_lattice.Tasks.Contract.{detect_risk_level, requires_approval, validate_task_payload}
use context_lattice.Tasks.Invariant.{IsValid}
use context_lattice.Tasks.Leases.{
  expired_rows, lease_expired_by, recover_expired_task_leases, recover_one, recover_rows,
  requeue_expired,
}
use context_lattice.Tasks.Claim.{
  agent_accepts, can_claim, choose, claim_chosen, claim_le, claim_next_task, claim_row, due_rank,
  is_internal, worker_name_of,
}
use context_lattice.Tasks.Update.{update_task_status}
use context_lattice.Tasks.Approval.{approve_task_record}
use context_lattice.Tasks.Retry.{
  is_exhausted, requeue_found, requeue_task_for_retry, retry_row, task_retry_delay,
}
use context_lattice.Tasks.Create.{
  NewTask, approval_needed, cap_attempts, create_task_record, due_at, insert_task, new_row,
}
use context_lattice.Tasks.Recovering.{Recovered, recover_lem}
use context_lattice.Tasks.Claiming.{IsClaimed, claim-first, claim_sound}
use context_lattice.Tasks.Operations.{
  Operation, approval, claiming, creation, here, next, reachable-IsValid, recovery, retry,
  run_operation, run_operations,
}
use context_lattice.Tasks.Holding.{IsNot}
use context_lattice.Tasks.Exclusion.{claim-exclusive, gate-closed}
use context_lattice.Tasks.Budget.{claims-within_budget, total_handed}
use context_lattice.Tasks.Retrying.{IsCleared, requeue-result, task_retry_delay_lem}
use context_lattice.Tasks.Stuck.{recovered_exhausted-stuck, running_by_hand-stuck}
use context_lattice.Tasks.Racing.{approval_race}
use context_lattice.Tests.Queue.{
  busy, config, contract, fresh, from_iso, gated, spent, table, table-IsValid,
}

abbrev claimed_fresh : Task
claimed_fresh = record fresh {
  status = running;
  updated_at = 100;
  lease_expires_at = some 120_000_100;
  claimed_by = some (codes "w1");
  attempts = 1;
}

program : Unit {0}
unfolding claim_next_task recover_expired_task_leases recover_rows recover_one expired_rows
    lease_expired_by requeue_expired iso_leb iso_rank choose can_claim agent_accepts claim_le
    claim_chosen claim_row worker_name_of is_internal find_task set_task log_event find update_where
    select order_by text_eq strip lower sql_trim starts_with has_key count contains
program = tt

claim_fresh : (claim_next_task config 20 100 (some (codes " w1 ")) table).0 ≡ some claimed_fresh
unfolding program
claim_fresh = refl

claim_sound_example : IsClaimed config 20 100 (some (codes " w1 ")) table claimed_fresh
claim_sound_example =
    claim_sound config 20 100 (some (codes " w1 ")) table claimed_fresh table-IsValid claim_fresh

claim-first_example :
    (compare_int fresh.priority claimed_fresh.priority ≢ Ordering.gt)
    × (fresh.priority ≡ claimed_fresh.priority
        → due_rank claimed_fresh.run_after ≤ due_rank fresh.run_after)
    × (fresh.priority ≡ claimed_fresh.priority
        → (a b : ℕ) → claimed_fresh.run_after ≡ some a
        → fresh.run_after ≡ some b
        → a < b + 1_000_000)
unfolding program
claim-first_example =
    claim-first config 20 100 (some (codes " w1 ")) table claimed_fresh fresh table-IsValid
      claim_fresh (inl refl) refl

later_operations : List Operation
later_operations =
    recovery 200 25
    ∷ claiming 200 none
    ∷ approval 300 (codes "c") (some (codes "op")) none table
    ∷ claiming 400 (some (codes "w2"))
    ∷ []

claim-exclusive_example :
    All
      (IsNot (codes "a"))
      (run_operations config contract from_iso later_operations
        (claim_next_task config 20 100 (some (codes " w1 ")) table).1).0
unfolding program later_operations
claim-exclusive_example =
    claim-exclusive config contract from_iso 20 100 (some (codes " w1 ")) later_operations table
      claimed_fresh table-IsValid claim_fresh (refl, (tt, (refl, (tt, tt))))

gate-closed_example :
    All
      (IsNot (codes "c"))
      (run_operations config contract from_iso (claiming 200 none ∷ recovery 900 5 ∷ []) table).0
gate-closed_example =
    gate-closed config contract from_iso (claiming 200 none ∷ recovery 900 5 ∷ []) table gated
      table-IsValid (inr (inr (inl refl))) refl refl refl (tt, (tt, tt))

claims-within_budget_example :
    1
      + total_handed
          (codes "d")
          (run_operations config contract from_iso
            (recovery 900 5 ∷ claiming 2_000_000 none ∷ [])
            table).0
    ≤ 3
claims-within_budget_example =
    claims-within_budget config contract from_iso (recovery 900 5 ∷ claiming 2_000_000 none ∷ [])
      table busy table-IsValid (inr (inr (inr (inl refl)))) (tt, (tt, tt))

abbrev new_task : NewTask
new_task = record {
  id = codes "n";
  title = codes "t";
  project = none;
  agent = none;
  priority = pos 1;
  payload = none;
  run_after = none;
  max_attempts = none;
}

-- A task is created, given to a worker, and put back for a retry.
abbrev made : TaskDb
made = (run_operation config contract from_iso (creation 5 new_task) empty_db).1

abbrev given : TaskDb
given = (run_operation config contract from_iso (claiming 8 none) made).1

abbrev retried : Operation
retried = retry 9 10 (codes "n") (codes "boom") none given

abbrev put_back : TaskDb
put_back = (run_operation config contract from_iso retried given).1

put_back_status : Option.map (λ t. t.status) (find_task (codes "n") put_back) ≡ some queued
unfolding program run_operation requeue_task_for_retry requeue_found create_task_record
    validate_task_payload due_at insert_task occurs new_row approval_needed requires_approval
    detect_risk_level cap_attempts retry_row is_exhausted
put_back_status = refl

reachable-IsValid_example : IsValid put_back
reachable-IsValid_example = reachable-IsValid config contract from_iso put_back (
    next {before = given} retried refl (
      next {before = made} (claiming 8 none) tt
        (next {before = empty_db} (creation 5 new_task) tt here)))

no_worker :
    (claim_next_task config 20 30 none (record { tasks = gated ∷ []; events = [] })).0 ≡ none
unfolding program
no_worker = refl

gated-IsValid : IsValid (record { tasks = gated ∷ []; events = [] })
unfolding occurs
gated-IsValid = record { rows = (table-IsValid.rows.1.1.0, tt); keys = (refl, tt) }

recover_example :
    (u : Task) × (find_task (codes "b") (recover_expired_task_leases 60 25 table).1 ≡ some u)
    × Recovered 60 true spent u
unfolding program
recover_example = recover_lem 60 25 table spent table-IsValid (omega arith) (inr (inl refl))

-- The approval has read the table before the claim.
approval_race_example :
    (u : Task) × (find_task
        (codes "a")
        (approve_task_record 110
          (codes "a")
          (some (codes "op"))
          none
          table
          (claim_next_task config 20 100 (some (codes " w1 ")) table).1).1
      ≡ some u)
    × (u.status ≡ approved)
    × (u.claimed_by ≡ some (codes "w1"))
    × (can_claim 200 [] u ≡ true)
unfolding program
approval_race_example =
    approval_race config 20 100 110 200 (some (codes " w1 ")) (some (codes "op")) none [] table
      table claimed_fresh fresh table-IsValid claim_fresh refl refl

requeue-result_example :
    (u : Task) × ((requeue_task_for_retry config 70 71
        (codes "d")
        (codes "boom")
        none
        table
        table).0
      ≡ some u)
    × (find_task
          (codes "d")
          (requeue_task_for_retry config 70 71 (codes "d") (codes "boom") none table table).1
        ≡ some u)
    × (3 ≤ 1 → (u.status ≡ failed) × (u.completed_at ≡ some 70))
    × (1 < 3
        → (u.status ≡ queued)
          × ((at : ℕ) (key : Text)
              → IsCleared busy
              → agent_accepts key none ≡ true
              → 71 + task_retry_delay config 1 + 1_000_000 ≤ at
              → can_claim at key u ≡ true))
unfolding program
requeue-result_example =
    requeue-result config 70 71 (codes "d") (codes "boom") none table table busy table-IsValid refl
      refl

task_retry_delay_example :
    (task_retry_delay config 5 ≤ 300_000_000)
    × (task_retry_delay config 2 ≤ task_retry_delay config 5)
    × (task_retry_delay config (2 + 1) ≡ min (2 * (2_000_000 * 2 ^ (2 - 1))) 300_000_000)
task_retry_delay_example = task_retry_delay_lem config 2 5 (omega arith) (omega arith)

recovered_exhausted-stuck_example :
    let after =
      run_operations config contract from_iso
        (claiming 2_000_000 none ∷ [])
        (recover_expired_task_leases 60 25 table).1 in
    All (IsNot (codes "b")) after.0
    × (find_task (codes "b") after.1 ≡ some (requeue_expired 60 spent))
unfolding program
recovered_exhausted-stuck_example =
    recovered_exhausted-stuck config contract from_iso 60 25 (claiming 2_000_000 none ∷ []) table
      spent table-IsValid (inr (inl refl)) (omega arith) refl (omega arith) (tt, tt)

running_by_hand-stuck_example :
    let after =
      run_operations config contract from_iso
        (recovery 9_000_000 25 ∷ claiming 9_000_000 none ∷ [])
        (update_task_status from_iso contract.repr 60
          (codes "a")
          (codes "running")
          none
          none
          table
          table).1 in
    All (IsNot (codes "a")) after.0
    × ((u : Task) × (find_task (codes "a") after.1 ≡ some u)
        × (u.status ≡ running)
        × (u.lease_expires_at ≡ none))
unfolding program
running_by_hand-stuck_example =
    running_by_hand-stuck config contract from_iso 60 (codes "a") none none
      (recovery 9_000_000 25 ∷ claiming 9_000_000 none ∷ []) table table fresh table-IsValid refl
      refl refl (tt, (tt, tt))
