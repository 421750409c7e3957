-- ===== src/Tasks/Keys.antt =====
-- Every operation on the task queue keeps the ids distinct, whatever happened between the SELECT of an
-- operation and its transaction.
use context_lattice.Prelude.{
  Bool, Bool-cases, Distinct-append, List, Option, Reply, Text, [], http_error, inl, inr,
  keys-append, lower, none, occurs, refl, reply, some, strip, text_eq, text_eq_comm, ℕ, ◌+◌, ◌∷◌,
}
use context_lattice.Json.{Fields}
use context_lattice.Tasks.{Status, Task, TaskConfig, TaskDb, find_task, ids, log_event}
use context_lattice.Tasks.Contract.{Contract}
use context_lattice.Tasks.Invariant.{IsKeyed, set_task-IsKeyed}
use context_lattice.Tasks.Leases.{
  recover_expired_task_leases, recover_one, recover_rows, requeue_expired,
}
use context_lattice.Tasks.Claim.{claim_chosen, claim_row, claim_transaction, worker_name_of}
use context_lattice.Tasks.Update.{
  status_of, status_row, update_found, update_parsed, update_task_status,
}
use context_lattice.Tasks.Approval.{approve_found, approve_row, approve_task_record}
use context_lattice.Tasks.Retry.{requeue_found, requeue_task_for_retry, retry_row}
use context_lattice.Tasks.Replay.{replay_found, replay_row, replay_task_record}
use context_lattice.Tasks.Create.{
  NewTask, check_new_task, create_task_record, insert_checked, insert_task,
}
use context_lattice.Tasks.Operations.{
  Operation, approval, claiming, creation, recovery, replay, retry, run_operation, update,
}

recover_rows-IsKeyed :
    (now : ℕ) (is : List Text) (n : ℕ) (db : TaskDb)
    → IsKeyed db
    → IsKeyed (recover_rows now is n db).1
unfolding recover_rows recover_one requeue_expired log_event
recover_rows-IsKeyed now [] n db v = v
recover_rows-IsKeyed now (i ∷ is) n db v =
    recover_rows-IsKeyed now is (n + 1) _
      (set_task-IsKeyed i (requeue_expired now) db (λ t. refl) v)

pub recover-IsKeyed :
    (now limit : ℕ) (db : TaskDb)
    → IsKeyed db
    → IsKeyed (recover_expired_task_leases now limit db).1
unfolding recover_expired_task_leases
recover-IsKeyed now limit db v = recover_rows-IsKeyed now _ 0 db v

claim_chosen-IsKeyed :
    (now lease : ℕ) (worker : Text) (chosen : Option Task) (db : TaskDb)
    → IsKeyed db
    → IsKeyed (claim_chosen now lease worker chosen db).1
unfolding claim_chosen claim_row log_event
claim_chosen-IsKeyed now lease worker none db v = v
claim_chosen-IsKeyed now lease worker (some row) db v =
    set_task-IsKeyed row.id (claim_row now lease worker) db (λ t. refl) v

pub claim_transaction-IsKeyed :
    (config : TaskConfig) (now : ℕ) (worker : Option Text) (db : TaskDb)
    → IsKeyed db
    → IsKeyed (claim_transaction config now worker db).1
unfolding claim_transaction
claim_transaction-IsKeyed config now worker db v =
    claim_chosen-IsKeyed now config.lease (worker_name_of worker) _ db v

insert_task-IsKeyed :
    (now due : ℕ) (row : Task) (db : TaskDb) → IsKeyed db → IsKeyed (insert_task now due row db).1
unfolding insert_task log_event
insert_task-IsKeyed now due row db v = elim (Bool-cases (occurs text_eq row.id (ids db.tasks))) [
  | inl e ↦ rw e v
  | inr e ↦ rw e (
      rw (keys-append (λ (t : Task). t.id) text_eq db.tasks (row ∷ []))
        (Distinct-append text_eq text_eq_comm row.id (ids db.tasks) v e))
]

approve_found-IsKeyed :
    (now : ℕ) (i : Text) (approver note_text : Option Text) (row : Option Task) (db : TaskDb)
    → IsKeyed db
    → IsKeyed (approve_found now i approver note_text row db).1
unfolding approve_found approve_row log_event
approve_found-IsKeyed now i approver note_text none db v = v
approve_found-IsKeyed now i approver note_text (some row) db v =
    set_task-IsKeyed i (approve_row now row) db (λ t. refl) v

requeue_found-IsKeyed :
    (config : TaskConfig) (now later : ℕ) (i error : Text) (worker : Option Text)
    (row : Option Task) (db : TaskDb)
    → IsKeyed db
    → IsKeyed (requeue_found config now later i error worker row db).1
unfolding requeue_found retry_row log_event
requeue_found-IsKeyed config now later i error worker none db v = v
requeue_found-IsKeyed config now later i error worker (some row) db v =
    set_task-IsKeyed i (retry_row config now later error row) db (λ t. refl) v

replay_found-IsKeyed :
    (now : ℕ) (i : Text) (actor note_text : Option Text) (reset : Bool) (row : Option Task)
    (db : TaskDb)
    → IsKeyed db
    → IsKeyed (replay_found now i actor note_text reset row db).1
unfolding replay_found replay_row log_event
replay_found-IsKeyed now i actor note_text reset none db v = v
replay_found-IsKeyed now i actor note_text reset (some row) db v =
    set_task-IsKeyed i (replay_row now reset row) db (λ t. refl) v

module _ (config : TaskConfig) (contract : Contract) (from_iso : Text → Option ℕ) where
  create-IsKeyed :
      (now : ℕ) (args : NewTask) (db : TaskDb)
      → IsKeyed db
      → IsKeyed (create_task_record config contract from_iso now args db).1
  unfolding create_task_record
  create-IsKeyed now args db v = go (check_new_task config contract from_iso now args)
    where
      go :
          (c : Reply (Option Fields × ℕ))
          → IsKeyed (insert_checked config contract from_iso now args c db).1
      go (http_error code) = v
      go (reply (payload, due)) = insert_task-IsKeyed now due _ db v

  update-IsKeyed :
      (now : ℕ) (i : Text) (parsed : Option Status) (message : Option Text)
      (metadata : Option Fields) (read db : TaskDb)
      → IsKeyed db
      → IsKeyed (update_parsed from_iso contract.repr now i parsed message metadata read db).1
  unfolding update_parsed update_found status_row log_event
  update-IsKeyed now i none message metadata read db v = v
  update-IsKeyed now i (some s) message metadata read db v = found (find_task i read)
    where
      found :
          (o : Option Task)
          → IsKeyed (update_found from_iso contract.repr now i s message metadata o db).1
      found none = v
      found (some row) =
          set_task-IsKeyed i (status_row from_iso contract.repr now s message metadata row) db
            (λ t. refl) v

  pub operation-IsKeyed :
      (x : Operation) (db : TaskDb)
      → IsKeyed db
      → IsKeyed (run_operation config contract from_iso x db).1
  unfolding run_operation update_task_status approve_task_record requeue_task_for_retry
      replay_task_record
  operation-IsKeyed (recovery now limit) db v = recover-IsKeyed now limit db v
  operation-IsKeyed (claiming now worker) db v = claim_transaction-IsKeyed config now worker db v
  operation-IsKeyed (creation now args) db v = create-IsKeyed now args db v
  operation-IsKeyed (update now i status message metadata read) db v =
      update-IsKeyed now i (status_of (lower (strip status))) message metadata read db v
  operation-IsKeyed (approval now i approver note_text read) db v =
      approve_found-IsKeyed now i approver note_text (find_task i read) db v
  operation-IsKeyed (retry now later i error worker read) db v =
      requeue_found-IsKeyed config now later i error worker (find_task i read) db v
  operation-IsKeyed (replay now i actor note_text reset read) db v =
      replay_found-IsKeyed now i actor note_text reset (find_task i read) db v
