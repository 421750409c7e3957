-- ===== src/Tasks/Exclusion.antt =====
-- Tasks that no operation gives out: a task that is leased to a worker, and one that waits for its
-- approval. Workers, scheduler and operators interleave as they like.
use mathlib.Core.Path.{subst}
use context_lattice.Prelude.{
  All, Has, List, Option, Text, [], ap, false, refl, some, text_eq, true, ℕ, ◌+◌, ◌∙◌, ◌∷◌, ◌≡◌,
}
use context_lattice.Clock.{iso_leb}
use context_lattice.Tasks.{Task, TaskConfig, TaskDb, find_task, is_running}
use context_lattice.Tasks.Contract.{Contract}
use context_lattice.Tasks.Invariant.{IsKeyed, IsValid, find_task-Has_keyed, find_task-found}
use context_lattice.Tasks.Leases.{lease_expired_by}
use context_lattice.Tasks.Claim.{claim_next_task, claim_row, worker_name_of}
use context_lattice.Tasks.Preservation.{claim-IsValid}
use context_lattice.Tasks.Claiming.{claim_sound}
use context_lattice.Tasks.Operations.{
  Operation, approval, claiming, creation, recovery, replay, retry, run_operation, run_operations,
  update,
}
use context_lattice.Tasks.Keys.{operation-IsKeyed}
use context_lattice.Tasks.Holding.{
  IsNot, IsUnfit, Spares, gated-IsUnfit, operation-keeps, running-IsUnfit, waiting_spared,
}

-- The operation leaves the task with this id to the worker that holds it: no recovery runs at a
-- moment at which the lease has run out, and no status update, approval, retry or replay names it.
abbrev pub InLease : Text → ℕ → Operation → Type 0
InLease i lease (recovery now limit) = iso_leb lease now ≡ false
InLease i lease (claiming now worker) = Unit
InLease i lease (creation now args) = Unit
InLease i lease (update now j status message metadata read) = text_eq j i ≡ false
InLease i lease (approval now j approver note_text read) = text_eq j i ≡ false
InLease i lease (retry now later j error worker read) = text_eq j i ≡ false
InLease i lease (replay now j actor note_text reset read) = text_eq j i ≡ false

-- Everything but a status update, an approval, a retry or a replay of the task.
abbrev pub LeavesAlone : Text → Operation → Type 0
LeavesAlone i (update now j status message metadata read) = text_eq j i ≡ false
LeavesAlone i (approval now j approver note_text read) = text_eq j i ≡ false
LeavesAlone i (retry now later j error worker read) = text_eq j i ≡ false
LeavesAlone i (replay now j actor note_text reset read) = text_eq j i ≡ false
LeavesAlone i x = Unit

claimed-spared :
    (now lease : ℕ) (worker : Text) (t : Task) (x : Operation)
    → InLease t.id (now + lease) x
    → Spares (claim_row now lease worker t) x
unfolding claim_row lease_expired_by
claimed-spared now lease worker t (recovery at limit) h = h
claimed-spared now lease worker t x h = h

All-claimed-spared :
    (now lease : ℕ) (worker : Text) (t : Task) (xs : List Operation)
    → All (InLease t.id (now + lease)) xs
    → All (Spares (claim_row now lease worker t)) xs
All-claimed-spared now lease worker t [] h = tt
All-claimed-spared now lease worker t (x ∷ xs) h =
    (claimed-spared now lease worker t x h.0, All-claimed-spared now lease worker t xs h.1)

claimed-IsUnfit :
    (now lease : ℕ) (worker : Text) (t : Task) → IsUnfit (claim_row now lease worker t)
unfolding claim_row
claimed-IsUnfit now lease worker t = running-IsUnfit (claim_row now lease worker t) refl

claimed-id : (now lease : ℕ) (worker : Text) (t : Task) → (claim_row now lease worker t).id ≡ t.id
unfolding claim_row
claimed-id now lease worker t = refl

idle-spared :
    (t : Task) (x : Operation) → is_running t.status ≡ false → LeavesAlone t.id x → Spares t x
idle-spared t (recovery now limit) h k = waiting_spared now t h
idle-spared t x h k = k

pub All-idle-spared :
    (t : Task) (xs : List Operation)
    → is_running t.status ≡ false
    → All (LeavesAlone t.id) xs
    → All (Spares t) xs
All-idle-spared t [] h k = tt
All-idle-spared t (x ∷ xs) h k = (idle-spared t x h k.0, All-idle-spared t xs h k.1)

module _ (config : TaskConfig) (contract : Contract) (from_iso : Text → Option ℕ) where
  pub operations-IsNot :
      (xs : List Operation) (db : TaskDb) (t : Task)
      → IsKeyed db
      → Has t db.tasks
      → IsUnfit t
      → All (Spares t) xs
      → All (IsNot t.id) (run_operations config contract from_iso xs db).0
  unfolding run_operations
  operations-IsNot [] db t v h unfit k = tt
  operations-IsNot (x ∷ xs) db t v h unfit k =
      let one = operation-keeps db t v h config contract from_iso x unfit k.0 in
      (
        one.1,
        operations-IsNot xs (run_operation config contract from_iso x db).1 t
            (operation-IsKeyed config contract from_iso x db v) (find_task-found t.id t _ one.0)
            unfit k.1,
      )

  pub operations-kept :
      (xs : List Operation) (db : TaskDb) (t : Task)
      → IsKeyed db
      → Has t db.tasks
      → IsUnfit t
      → All (Spares t) xs
      → find_task t.id (run_operations config contract from_iso xs db).1 ≡ some t
  unfolding run_operations
  operations-kept [] db t v h unfit k = find_task-Has_keyed t db v h
  operations-kept (x ∷ xs) db t v h unfit k =
      let one = operation-keeps db t v h config contract from_iso x unfit k.0 in
      operations-kept xs (run_operation config contract from_iso x db).1 t
        (operation-IsKeyed config contract from_iso x db v) (find_task-found t.id t _ one.0) unfit
        k.1

  -- After a claim has given a task out, no operation that follows gives out that task, however workers,
  -- scheduler and operators interleave, as long as no recovery among them runs at a moment at which the
  -- lease has run out, and none of them is an update, approval, retry or replay of the task.
  pub claim-exclusive :
      (recovery_now now : ℕ) (worker : Option Text) (xs : List Operation) (db : TaskDb)
      (task : Task)
      → IsValid db
      → (claim_next_task config recovery_now now worker db).0 ≡ some task
      → All (InLease task.id (now + config.lease)) xs
      → All
          (IsNot task.id)
          (run_operations config contract from_iso xs
            (claim_next_task config recovery_now now worker db).1).0
  claim-exclusive recovery_now now worker xs db task v e live =
      let c = claim_sound config recovery_now now worker db task v e in
      let w = claim-IsValid config recovery_now now worker db v in
      let name = worker_name_of worker in
      let i : task.id ≡ c.row.id =
        ap (λ r. r.id) c.taken ∙ claimed-id now config.lease name c.row in
      let live' = subst (λ j. All (InLease j (now + config.lease)) xs) i live in
      operations-IsNot xs _ task w.keys (find_task-found c.row.id task _ c.stored)
        (rw c.taken (claimed-IsUnfit now config.lease name c.row))
        (rw c.taken (All-claimed-spared now config.lease name c.row xs live'))

  -- A task that wants an approval, has none and is not running is given to no worker, whatever
  -- operations follow, until one of them is an update, approval, retry or replay of that task.
  pub gate-closed :
      (xs : List Operation) (db : TaskDb) (t : Task)
      → IsValid db
      → Has t db.tasks
      → t.approval_required ≡ true
      → t.approved ≡ false
      → is_running t.status ≡ false
      → All (LeavesAlone t.id) xs
      → All (IsNot t.id) (run_operations config contract from_iso xs db).0
  gate-closed xs db t v h needed missing idle k =
      operations-IsNot xs db t v.keys h (gated-IsUnfit t needed missing)
        (All-idle-spared t xs idle k)
