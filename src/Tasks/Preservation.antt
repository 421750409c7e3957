-- ===== src/Tasks/Preservation.antt =====
-- Every operation on the task queue keeps the table well formed (Tasks/Invariant.antt).
use context_lattice.Prelude.{
  Bool, Has, Has-order_by, Has-select, List, Option, Text, [], arith, head?, inl, lower, none, refl,
  select, some, strip, sym, true, ℕ, ◌+◌, ◌∷◌, ◌≡◌,
}
use context_lattice.Json.{Fields, Json}
use context_lattice.Tasks.{Status, Task, TaskConfig, TaskDb, find_task, queued}
use context_lattice.Tasks.Invariant.{
  IsValid, IsValidTask, find_task-Has, log_event-IsValid, set_row-IsValid, set_task-IsValid,
}
use context_lattice.Tasks.Leases.{
  recover_expired_task_leases, recover_one, recover_rows, requeue_expired,
}
use context_lattice.Tasks.Claim.{
  can_claim, choose, claim_chosen, claim_le, claim_next_task, claim_row, claim_transaction,
  worker_name_of,
}
use context_lattice.Tasks.Update.{
  status_of, status_row, update_found, update_parsed, update_task_status,
}
use context_lattice.Tasks.Approval.{approve_found, approve_row, approve_task_record}
use context_lattice.Tasks.Retry.{requeue_found, requeue_task_for_retry, retry_row}
use context_lattice.Tasks.Replay.{replay_found, replay_row, replay_task_record}

requeue_expired-IsValidTask :
    (now : ℕ) (t : Task) → IsValidTask t → IsValidTask (requeue_expired now t)
unfolding requeue_expired
requeue_expired-IsValidTask now t v = ground arith

recover_one-IsValid :
    (now : ℕ) (i : Text) (db : TaskDb) → IsValid db → IsValid (recover_one now i db)
unfolding recover_one requeue_expired
recover_one-IsValid now i db v = log_event-IsValid _ _ (
    set_task-IsValid i (requeue_expired now) db (λ t. refl)
      (λ t h. requeue_expired-IsValidTask now t h) v)

recover_rows-IsValid :
    (now : ℕ) (is : List Text) (n : ℕ) (db : TaskDb)
    → IsValid db
    → IsValid (recover_rows now is n db).1
unfolding recover_rows
recover_rows-IsValid now [] n db v = v
recover_rows-IsValid now (i ∷ is) n db v =
    recover_rows-IsValid now is (n + 1) _ (recover_one-IsValid now i db v)

-- Recovering expired leases keeps the table well formed.
pub recover-IsValid :
    (now limit : ℕ) (db : TaskDb)
    → IsValid db
    → IsValid (recover_expired_task_leases now limit db).1
unfolding recover_expired_task_leases
recover-IsValid now limit db v = recover_rows-IsValid now _ 0 db v

claim_row-IsValidTask :
    (now lease : ℕ) (key worker : Text) (t : Task)
    → can_claim now key t ≡ true
    → IsValidTask t
    → IsValidTask (claim_row now lease worker t)
unfolding claim_row can_claim
claim_row-IsValidTask now lease key worker t c v = ground arith

-- The row that a claim chooses stands in the table and passes the claim's condition.
pub choose_lem :
    (now : ℕ) (key : Text) (db : TaskDb) (row : Task)
    → choose now key db ≡ some row
    → Has row db.tasks × (can_claim now key row ≡ true)
unfolding choose
choose_lem now key db row e =
    (Has-select (can_claim now key) row db.tasks).0
      ((Has-order_by claim_le row (select (can_claim now key) db.tasks)).0 (Has-head _ e))
  where
    Has-head : (l : List Task) → head? l ≡ some row → Has row l
    Has-head [] h = cc
    Has-head (x ∷ xs) h = inl (cc)

claim_chosen-IsValid :
    (now lease : ℕ) (key worker : Text) (chosen : Option Task) (db : TaskDb)
    → choose now key db ≡ chosen
    → IsValid db
    → IsValid (claim_chosen now lease worker chosen db).1
unfolding claim_chosen claim_row
claim_chosen-IsValid now lease key worker none db e v = v
claim_chosen-IsValid now lease key worker (some row) db e v =
    let c = choose_lem now key db row e in
    log_event-IsValid _ _ (
      set_row-IsValid row.id (claim_row now lease worker) db row (find_task-Has row db v c.0)
        (λ t. refl) (claim_row-IsValidTask now lease key worker row c.1) v)

-- A claim keeps the table well formed, on its own and after the recovery.
pub claim_transaction-IsValid :
    (config : TaskConfig) (now : ℕ) (worker : Option Text) (db : TaskDb)
    → IsValid db
    → IsValid (claim_transaction config now worker db).1
unfolding claim_transaction
claim_transaction-IsValid config now worker db v =
    claim_chosen-IsValid now config.lease _ (worker_name_of worker) _ db refl v

pub claim-IsValid :
    (config : TaskConfig) (recovery_now now : ℕ) (worker : Option Text) (db : TaskDb)
    → IsValid db
    → IsValid (claim_next_task config recovery_now now worker db).1
unfolding claim_next_task
claim-IsValid config recovery_now now worker db v =
    claim_transaction-IsValid config now worker _ (recover-IsValid recovery_now 25 db v)

module _ (from_iso : Text → Option ℕ) (repr : Json → Text) where
  status_row-IsValidTask :
      (now : ℕ) (s : Status) (message : Option Text) (metadata : Option Fields) (row : Task)
      → IsValidTask row
      → IsValidTask (status_row from_iso repr now s message metadata row row)
  unfolding status_row
  status_row-IsValidTask now queued message metadata row v = ground arith
  status_row-IsValidTask now s message metadata row v = ground arith

  update_found-IsValid :
      (now : ℕ) (i : Text) (s : Status) (message : Option Text) (metadata : Option Fields)
      (row : Option Task) (db : TaskDb)
      → find_task i db ≡ row
      → IsValid db
      → IsValid (update_found from_iso repr now i s message metadata row db).1
  unfolding update_found status_row
  update_found-IsValid now i s message metadata none db e v = v
  update_found-IsValid now i s message metadata (some row) db e v = log_event-IsValid _ _ (
      set_row-IsValid i (status_row from_iso repr now s message metadata row) db row e (λ t. refl)
        (status_row-IsValidTask now s message metadata row) v)

  -- Setting a status keeps the table well formed, also where the request is refused, if the row has
  -- not changed since it was read.
  pub update-IsValid :
      (now : ℕ) (i status : Text) (message : Option Text) (metadata : Option Fields)
      (read db : TaskDb)
      → find_task i read ≡ find_task i db
      → IsValid db
      → IsValid (update_task_status from_iso repr now i status message metadata read db).1
  unfolding update_task_status update_parsed
  update-IsValid now i status message metadata read db e v = go (status_of (lower (strip status)))
    where
      go :
          (o : Option Status)
          → IsValid (update_parsed from_iso repr now i o message metadata read db).1
      go none = v
      go (some s) = update_found-IsValid now i s message metadata _ db (sym e) v

approve_found-IsValid :
    (now : ℕ) (i : Text) (approver note_text : Option Text) (row : Option Task) (db : TaskDb)
    → find_task i db ≡ row
    → IsValid db
    → IsValid (approve_found now i approver note_text row db).1
unfolding approve_found approve_row
approve_found-IsValid now i approver note_text none db e v = v
approve_found-IsValid now i approver note_text (some row) db e v =
    log_event-IsValid _ _
      (set_row-IsValid i (approve_row now row) db row e (λ t. refl) (λ h. ground arith) v)

-- An approval keeps the table well formed, if the row has not changed since it was read.
pub approve-IsValid :
    (now : ℕ) (i : Text) (approver note_text : Option Text) (read db : TaskDb)
    → find_task i read ≡ find_task i db
    → IsValid db
    → IsValid (approve_task_record now i approver note_text read db).1
unfolding approve_task_record
approve-IsValid now i approver note_text read db e v =
    approve_found-IsValid now i approver note_text _ db (sym e) v

requeue_found-IsValid :
    (config : TaskConfig) (now later : ℕ) (i error : Text) (worker : Option Text)
    (row : Option Task) (db : TaskDb)
    → find_task i db ≡ row
    → IsValid db
    → IsValid (requeue_found config now later i error worker row db).1
unfolding requeue_found retry_row
requeue_found-IsValid config now later i error worker none db e v = v
requeue_found-IsValid config now later i error worker (some row) db e v = log_event-IsValid _ _ (
    set_row-IsValid i (retry_row config now later error row) db row e (λ t. refl)
      (λ h. ground arith) v)

-- A retry keeps the table well formed, if the row has not changed since it was read.
pub requeue-IsValid :
    (config : TaskConfig) (now later : ℕ) (i error : Text) (worker : Option Text) (read db : TaskDb)
    → find_task i read ≡ find_task i db
    → IsValid db
    → IsValid (requeue_task_for_retry config now later i error worker read db).1
unfolding requeue_task_for_retry
requeue-IsValid config now later i error worker read db e v =
    requeue_found-IsValid config now later i error worker _ db (sym e) v

replay_found-IsValid :
    (now : ℕ) (i : Text) (actor note_text : Option Text) (reset : Bool) (row : Option Task)
    (db : TaskDb)
    → find_task i db ≡ row
    → IsValid db
    → IsValid (replay_found now i actor note_text reset row db).1
unfolding replay_found replay_row
replay_found-IsValid now i actor note_text reset none db e v = v
replay_found-IsValid now i actor note_text reset (some row) db e v =
    log_event-IsValid _ _
      (set_row-IsValid i (replay_row now reset row) db row e (λ t. refl) (λ h. ground arith) v)

-- A replay keeps the table well formed, if the row has not changed since it was read.
pub replay-IsValid :
    (now : ℕ) (i : Text) (actor note_text : Option Text) (reset : Bool) (read db : TaskDb)
    → find_task i read ≡ find_task i db
    → IsValid db
    → IsValid (replay_task_record now i actor note_text reset read db).1
unfolding replay_task_record
replay-IsValid now i actor note_text reset read db e v =
    replay_found-IsValid now i actor note_text reset _ db (sym e) v
