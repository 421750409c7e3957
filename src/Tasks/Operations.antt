-- ===== src/Tasks/Operations.antt =====
-- The operations on the task queue as one type, run in the order in which the database lets their
-- transactions through: workers, the scheduler and operators interleave as they like. A claim of one
-- worker may come between the two transactions of another's `claim_next_task`.
use context_lattice.Prelude.{Bool, List, Option, Text, [], none, some, ℕ, ◌∷◌, ◌≡◌}
use context_lattice.Json.{Fields}
use context_lattice.Tasks.{Task, TaskConfig, TaskDb, empty_db, find_task}
use context_lattice.Tasks.Contract.{Contract}
use context_lattice.Tasks.Invariant.{IsValid}
use context_lattice.Tasks.Leases.{recover_expired_task_leases}
use context_lattice.Tasks.Claim.{claim_transaction}
use context_lattice.Tasks.Update.{update_task_status}
use context_lattice.Tasks.Approval.{approve_task_record}
use context_lattice.Tasks.Retry.{requeue_task_for_retry}
use context_lattice.Tasks.Replay.{replay_task_record}
use context_lattice.Tasks.Create.{NewTask, create_task_record}
use context_lattice.Tasks.Preservation.{
  approve-IsValid, claim_transaction-IsValid, recover-IsValid, replay-IsValid, requeue-IsValid,
  update-IsValid,
}
use context_lattice.Tasks.Creating.{create-IsValid}

-- `read` is the database at the operation's SELECT, where that comes before the transaction: any one.
pub data Operation : Type 0 where
  recovery : (now limit : ℕ) → Operation
  claiming : (now : ℕ) (worker : Option Text) → Operation
  creation : (now : ℕ) (args : NewTask) → Operation
  update :
      (now : ℕ) (i status : Text) (message : Option Text) (metadata : Option Fields) (read : TaskDb)
      → Operation
  approval : (now : ℕ) (i : Text) (approver note_text : Option Text) (read : TaskDb) → Operation
  retry : (now later : ℕ) (i error : Text) (worker : Option Text) (read : TaskDb) → Operation
  replay :
      (now : ℕ) (i : Text) (actor note_text : Option Text) (reset : Bool) (read : TaskDb)
      → Operation

module _ (config : TaskConfig) (contract : Contract) (from_iso : Text → Option ℕ) where
  -- The table after an operation, beside the task that it gave to a worker.
  unfoldable pub run_operation : Operation → TaskDb → Option Task × TaskDb
  run_operation (recovery now limit) db = (none, (recover_expired_task_leases now limit db).1)
  run_operation (claiming now worker) db = claim_transaction config now worker db
  run_operation (creation now args) db =
      (none, (create_task_record config contract from_iso now args db).1)
  run_operation (update now i status message metadata read) db =
      (none, (update_task_status from_iso contract.repr now i status message metadata read db).1)
  run_operation (approval now i approver note_text read) db =
      (none, (approve_task_record now i approver note_text read db).1)
  run_operation (retry now later i error worker read) db =
      (none, (requeue_task_for_retry config now later i error worker read db).1)
  run_operation (replay now i actor note_text reset read) db =
      (none, (replay_task_record now i actor note_text reset read db).1)

  unfoldable pub run_operations : List Operation → TaskDb → List (Option Task) × TaskDb
  run_operations [] db = ([], db)
  run_operations (x ∷ xs) db =
      let (task, db') = run_operation x db in
      let (tasks, last) = run_operations xs db' in (task ∷ tasks, last)

  -- The row that the operation has read is the row that its transaction meets.
  abbrev pub IsCurrent : Operation → TaskDb → Type 0
  IsCurrent (update now i status message metadata read) db = find_task i read ≡ find_task i db
  IsCurrent (approval now i approver note_text read) db = find_task i read ≡ find_task i db
  IsCurrent (retry now later i error worker read) db = find_task i read ≡ find_task i db
  IsCurrent (replay now i actor note_text reset read) db = find_task i read ≡ find_task i db
  IsCurrent x db = Unit

  -- The tables that operations reach from `db`, where each meets the row that it has read.
  pub data Reach (db : TaskDb) : TaskDb → Type 0 where
    here : Reach db db
    next :
        {before : TaskDb} (x : Operation)
        → IsCurrent x before
        → Reach db before
        → Reach db (run_operation x before).1

  pub operation-IsValid :
      (x : Operation) (db : TaskDb) → IsCurrent x db → IsValid db → IsValid (run_operation x db).1
  unfolding run_operation
  operation-IsValid (recovery now limit) db e v = recover-IsValid now limit db v
  operation-IsValid (claiming now worker) db e v = claim_transaction-IsValid config now worker db v
  operation-IsValid (creation now args) db e v =
      create-IsValid config contract from_iso now args db v
  operation-IsValid (update now i status message metadata read) db e v =
      update-IsValid from_iso contract.repr now i status message metadata read db e v
  operation-IsValid (approval now i approver note_text read) db e v =
      approve-IsValid now i approver note_text read db e v
  operation-IsValid (retry now later i error worker read) db e v =
      requeue-IsValid config now later i error worker read db e v
  operation-IsValid (replay now i actor note_text reset read) db e v =
      replay-IsValid now i actor note_text reset read db e v

  Reach-IsValid : (from to : TaskDb) → IsValid from → Reach from to → IsValid to
  Reach-IsValid from to v here = v
  Reach-IsValid from to v (next {before = b} x c r) =
      operation-IsValid x b c (Reach-IsValid from b v r)

  -- Where no update, approval, retry or replay meets another row of its task than the one that it read
  -- before its transaction, every table that operations reach from the empty one is well formed: ids are
  -- distinct, no task has more attempts than it is allowed (at least one, at most fifty), only running
  -- tasks have a worker or a lease, and tasks that ended have the time of their end.
  pub reachable-IsValid : (db : TaskDb) → Reach empty_db db → IsValid db
  reachable-IsValid db r = Reach-IsValid empty_db db (record { rows = tt; keys = tt }) r

  -- An operation that names a task by its id.
  abbrev pub names : Operation → Option Text
  names (update now i status message metadata read) = some i
  names (approval now i approver note_text read) = some i
  names (retry now later i error worker read) = some i
  names (replay now i actor note_text reset read) = some i
  names _ = none
