-- ===== src/Tasks/Stuck.antt =====
-- Tasks that stay in the table for good: rows in the queue whose attempts are used up, and running rows
-- without a lease.
use mathlib.Core.Path.{subst}
use context_lattice.Prelude.{
  All, Has, List, Option, Text, [], ap, arith, codes, count, false, is_some, lower, none, refl,
  some, strip, sym, text_eq, true, ℕ, ◌∙◌, ◌∷◌, ◌≡◌, ◌≤◌,
}
use context_lattice.Json.{Fields, Json}
use context_lattice.Tasks.{Task, TaskConfig, TaskDb, find_task, is_running, running}
use context_lattice.Tasks.Contract.{Contract}
use context_lattice.Tasks.Invariant.{
  IsValid, find_task-IsValid, find_task-found, find_task-id, find_task-log_event,
  find_task-set_task,
}
use context_lattice.Tasks.Leases.{lease_expired_by, recover_expired_task_leases, requeue_expired}
use context_lattice.Tasks.Claim.{can_claim}
use context_lattice.Tasks.Update.{
  status_of, status_row, update_found, update_parsed, update_task_status,
}
use context_lattice.Tasks.Preservation.{recover-IsValid, update-IsValid}
use context_lattice.Tasks.Recovering.{recover-exact}
use context_lattice.Tasks.Operations.{Operation, recovery, run_operations}
use context_lattice.Tasks.Holding.{IsNot, IsUnfit, Spares, running-IsUnfit}
use context_lattice.Tasks.Exclusion.{
  All-idle-spared, LeavesAlone, operations-IsNot, operations-kept,
}

exhausted-IsUnfit : (t : Task) → t.max_attempts ≤ t.attempts → IsUnfit t
unfolding can_claim
exhausted-IsUnfit t h now key = ground arith

unleased_spared : (now : ℕ) (t : Task) → t.lease_expires_at ≡ none → lease_expired_by now t ≡ false
unfolding lease_expired_by
unleased_spared now t h = ground arith

requeue_expired-idle :
    (now : ℕ) (t : Task)
    → (is_running (requeue_expired now t).status ≡ false)
      × ((requeue_expired now t).attempts ≡ t.attempts)
      × ((requeue_expired now t).max_attempts ≡ t.max_attempts)
      × ((requeue_expired now t).id ≡ t.id)
unfolding requeue_expired
requeue_expired-idle now t = (refl, refl, refl, refl)

is_some-none : (o : Option ℕ) → is_some o ≡ false → o ≡ none
is_some-none none h = refl
is_some-none (some n) h = cc

unleased-All_spared :
    (t : Task) (xs : List Operation)
    → t.lease_expires_at ≡ none
    → All (LeavesAlone t.id) xs
    → All (Spares t) xs
unleased-All_spared t [] e k = tt
unleased-All_spared t (x ∷ xs) e k = (one x k.0, unleased-All_spared t xs e k.1)
  where
    one : (x : Operation) → LeavesAlone t.id x → Spares t x
    one (recovery now limit) k = unleased_spared now t e
    one y k = k

running_parsed : status_of (lower (strip (codes "running"))) ≡ some running
unfolding status_of lower strip text_eq
running_parsed = refl

module _ (from_iso : Text → Option ℕ) (repr : Json → Text) where
  running_row :
      (now : ℕ) (message : Option Text) (metadata : Option Fields) (t : Task)
      → ((status_row from_iso repr now running message metadata t t).status ≡ running)
        × ((status_row from_iso repr now running message metadata t t).lease_expires_at
            ≡ t.lease_expires_at)
        × ((status_row from_iso repr now running message metadata t t).id ≡ t.id)
  unfolding status_row
  running_row now message metadata t = (refl, refl, refl)

  by_hand :
      (now : ℕ) (i : Text) (message : Option Text) (metadata : Option Fields) (read db : TaskDb)
      (t : Task)
      → find_task i read ≡ some t
      → find_task i db ≡ some t
      → find_task i
          (update_task_status from_iso repr now i (codes "running") message metadata read db).1
        ≡ some (status_row from_iso repr now running message metadata t t)
  unfolding update_task_status update_parsed update_found status_row
  by_hand now i message metadata read db t r e = rw running_parsed (
      rw r (
        find_task-log_event i _ _
        ∙ find_task-set_task i (status_row from_iso repr now running message metadata t) db t e
            (λ u. refl)))

module _ (config : TaskConfig) (contract : Contract) (from_iso : Text → Option ℕ) where
  -- A worker that dies on the last attempt leaves its task behind: the recovery puts the row into the
  -- queue although its attempts are used up. From then on no operation gives the task to a worker or
  -- ends it, until an update, approval, retry or replay names it.
  pub recovered_exhausted-stuck :
      (now limit : ℕ) (xs : List Operation) (db : TaskDb) (t : Task)
      → IsValid db
      → Has t db.tasks
      → count (lease_expired_by now) db.tasks ≤ limit
      → lease_expired_by now t ≡ true
      → t.max_attempts ≤ t.attempts
      → All (LeavesAlone t.id) xs
      → let after =
          run_operations config contract from_iso xs (recover_expired_task_leases now limit db).1 in
        All (IsNot t.id) after.0 × (find_task t.id after.1 ≡ some (requeue_expired now t))
  recovered_exhausted-stuck now limit xs db t v h fits expired used k =
      let db' = (recover_expired_task_leases now limit db).1 in
      let u = requeue_expired now t in
      let w = recover-IsValid now limit db v in
      let r = requeue_expired-idle now t in
      let found : find_task t.id db' ≡ some u =
        recover-exact now limit db t v.keys fits h ∙ rw expired in
      let hu = find_task-found t.id u db' found in
      let unfit = exhausted-IsUnfit u (omega (arith, r.1, r.2)) in
      let spared = All-idle-spared u xs r.0 (subst (λ i. All (LeavesAlone i) xs) (sym r.3) k) in
      (
        subst (λ i. All (IsNot i) (run_operations config contract from_iso xs db').0) r.3
            (operations-IsNot config contract from_iso xs db' u w.keys hu unfit spared),
        subst (λ i. find_task i (run_operations config contract from_iso xs db').1 ≡ some u) r.3
            (operations-kept config contract from_iso xs db' u w.keys hu unfit spared),
      )

  -- A status update may set a task to running that no worker has claimed: the row then has no lease, so
  -- no recovery ever puts it back, and no worker is given it, until an update, approval, retry or
  -- replay names it. The transaction has to meet the row that the update has read.
  pub running_by_hand-stuck :
      (now : ℕ) (i : Text) (message : Option Text) (metadata : Option Fields) (xs : List Operation)
      (read db : TaskDb) (t : Task)
      → IsValid db
      → find_task i read ≡ some t
      → find_task i db ≡ some t
      → is_running t.status ≡ false
      → All (LeavesAlone i) xs
      → let after =
          run_operations config contract from_iso xs
            (update_task_status from_iso contract.repr now i
              (codes "running")
              message
              metadata
              read
              db).1 in
        All (IsNot i) after.0
        × ((u : Task) × (find_task i after.1 ≡ some u)
            × (u.status ≡ running)
            × (u.lease_expires_at ≡ none))
  running_by_hand-stuck now i message metadata xs read db t v r e idle k =
      let db' =
        (update_task_status from_iso contract.repr now i (codes "running") message metadata read
          db).1 in
      let u = status_row from_iso contract.repr now running message metadata t t in
      let w =
        update-IsValid from_iso contract.repr now i (codes "running") message metadata read db
          (r ∙ sym e) v in
      let found = by_hand from_iso contract.repr now i message metadata read db t r e in
      let fields = running_row from_iso contract.repr now message metadata t in
      let same : u.id ≡ i = fields.2 ∙ find_task-id i db t e in
      let lease : u.lease_expires_at ≡ none =
        fields.1 ∙ is_some-none t.lease_expires_at ((find_task-IsValid i db t e v).unleased idle) in
      let hu = find_task-found i u db' found in
      let unfit = running-IsUnfit u (ap is_running fields.0) in
      let spared =
        unleased-All_spared u xs lease (subst (λ j. All (LeavesAlone j) xs) (sym same) k) in
      (
        subst (λ j. All (IsNot j) (run_operations config contract from_iso xs db').0) same
            (operations-IsNot config contract from_iso xs db' u w.keys hu unfit spared),
        (
          u,
          subst (λ j. find_task j (run_operations config contract from_iso xs db').1 ≡ some u) same
              (operations-kept config contract from_iso xs db' u w.keys hu unfit spared),
          fields.0,
          lease,
        ),
      )
