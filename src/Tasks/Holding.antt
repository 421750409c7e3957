-- ===== src/Tasks/Holding.antt =====
-- Rows that an operation leaves alone: those that it does not name, that no worker may claim and whose
-- lease it does not take away.
use mathlib.Core.Bool.{false≢true}
use mathlib.Core.Path.{subst}
use context_lattice.Prelude.{
  Bool, Bool-cases, Has, Option, Reply, Text, arith, false, http_error, inl, inr, lower, none,
  occurs, refl, reply, some, strip, sym, text_eq, text_eq_sound, true, ℕ, ◌∙◌, ◌≡◌,
}
use context_lattice.Json.{Fields}
use context_lattice.Tasks.{
  Event, Status, Task, TaskConfig, TaskDb, find_task, ids, is_running, log_event, set_task,
}
use context_lattice.Tasks.Contract.{Contract}
use context_lattice.Tasks.Invariant.{
  IsKeyed, KeepsId, find_task-Has_keyed, find_task-append, find_task-log_event,
  find_task-set_task_ne,
}
use context_lattice.Tasks.Leases.{lease_expired_by}
use context_lattice.Tasks.Claim.{
  can_claim, choose, claim_chosen, claim_row, claim_transaction, worker_name_of,
}
use context_lattice.Tasks.Update.{
  status_of, status_row, update_found, update_parsed, update_task_status,
}
use context_lattice.Tasks.Approval.{approve_found, approve_row, approve_task_record}
use context_lattice.Tasks.Retry.{requeue_found, requeue_task_for_retry, retry_row}
use context_lattice.Tasks.Replay.{replay_found, replay_row, replay_task_record}
use context_lattice.Tasks.Create.{
  NewTask, check_new_task, create_task_record, insert_checked, insert_task, new_row,
}
use context_lattice.Tasks.Preservation.{choose_lem}
use context_lattice.Tasks.Recovering.{recover-keeps}
use context_lattice.Tasks.Claiming.{claim_chosen-none, claim_chosen_lem}
use context_lattice.Tasks.Operations.{
  Operation, approval, claiming, creation, recovery, replay, retry, run_operation, update,
}

-- The operation takes no lease away from the row, and does not name it.
abbrev pub Spares : Task → Operation → Type 0
Spares t (recovery now limit) = lease_expired_by now t ≡ false
Spares t (claiming now worker) = Unit
Spares t (creation now args) = Unit
Spares t (update now i status message metadata read) = text_eq i t.id ≡ false
Spares t (approval now i approver note_text read) = text_eq i t.id ≡ false
Spares t (retry now later i error worker read) = text_eq i t.id ≡ false
Spares t (replay now i actor note_text reset read) = text_eq i t.id ≡ false

-- No worker may claim the row, at no moment.
abbrev pub IsUnfit : Task → Type 0
IsUnfit t = (now : ℕ) (key : Text) → can_claim now key t ≡ false

abbrev pub IsNot : Text → Option Task → Type 0
IsNot i none = Unit
IsNot i (some t) = text_eq t.id i ≡ false

pub running-IsUnfit : (t : Task) → is_running t.status ≡ true → IsUnfit t
unfolding can_claim
running-IsUnfit t h now key = ground arith

pub gated-IsUnfit : (t : Task) → t.approval_required ≡ true → t.approved ≡ false → IsUnfit t
unfolding can_claim
gated-IsUnfit t h k now key = ground arith

pub waiting_spared :
    (now : ℕ) (t : Task) → is_running t.status ≡ false → lease_expired_by now t ≡ false
unfolding lease_expired_by
waiting_spared now t h = ground arith

claim_chosen-other :
    (now lease : ℕ) (worker i : Text) (row : Task) (db : TaskDb)
    → text_eq row.id i ≡ false
    → find_task i (claim_chosen now lease worker (some row) db).1 ≡ find_task i db
unfolding claim_chosen claim_row
claim_chosen-other now lease worker i row db ne =
    find_task-log_event i _ _
    ∙ find_task-set_task_ne row.id i (claim_row now lease worker) db (λ t. refl) ne

claim_row-id : (now lease : ℕ) (worker : Text) (t : Task) → (claim_row now lease worker t).id ≡ t.id
unfolding claim_row
claim_row-id now lease worker t = refl

-- A claim keeps a row that is not to be claimed, and does not give it out.
claim_transaction-keeps :
    (config : TaskConfig) (now : ℕ) (worker : Option Text) (db : TaskDb) (t : Task)
    → IsKeyed db
    → Has t db.tasks
    → IsUnfit t
    → (find_task t.id (claim_transaction config now worker db).1 ≡ some t)
      × IsNot t.id (claim_transaction config now worker db).0
unfolding claim_transaction
claim_transaction-keeps config now worker db t v h unfit = go (choose now key db) refl
  where
    name : Text
    name = worker_name_of worker

    key : Text
    key = lower name

    kept : find_task t.id db ≡ some t
    kept = find_task-Has_keyed t db v h

    go :
        (o : Option Task)
        → choose now key db ≡ o
        → (find_task t.id (claim_chosen now config.lease name o db).1 ≡ some t)
          × IsNot t.id (claim_chosen now config.lease name o db).0
    go none c = let n = claim_chosen-none now config.lease name db in (rw (n.1) kept, rw (n.0) tt)
    go (some row) c =
        let m = choose_lem now key db row c in
        let f = find_task-Has_keyed row db v m.0 in
        elim (Bool-cases (text_eq row.id t.id)) [
          | inl e ↦
              let q : row ≡ t = cc (f, kept, text_eq_sound row.id t.id e) in
              absurd
                (false≢true (sym (unfit now key) ∙ subst (λ u. can_claim now key u ≡ true) q m.1))
          | inr e ↦ (
            claim_chosen-other now config.lease name t.id row db e ∙ kept,
            rw (claim_chosen_lem now config.lease name row db f)
                (rw (claim_row-id now config.lease name row) e),
          )
        ]

module _ (db : TaskDb) (t : Task) (v : IsKeyed db) (h : Has t db.tasks) where
  set_keeps :
      (i : Text) (f : Task → Task) (e : Event)
      → KeepsId f
      → text_eq i t.id ≡ false
      → find_task t.id (log_event e (set_task i f db)) ≡ some t
  set_keeps i f e same ne =
      find_task-log_event t.id _ _
      ∙ find_task-set_task_ne i t.id f db same ne
      ∙ find_task-Has_keyed t db v h

  approve-keeps :
      (now : ℕ) (i : Text) (approver note_text : Option Text) (read : TaskDb)
      → text_eq i t.id ≡ false
      → find_task t.id (approve_task_record now i approver note_text read db).1 ≡ some t
  unfolding approve_task_record approve_found approve_row
  approve-keeps now i approver note_text read ne = go (find_task i read)
    where
      go :
          (o : Option Task)
          → find_task t.id (approve_found now i approver note_text o db).1 ≡ some t
      go none = find_task-Has_keyed t db v h
      go (some row) = set_keeps i (approve_row now row) _ (λ u. refl) ne

  replay-keeps :
      (now : ℕ) (i : Text) (actor note_text : Option Text) (reset : Bool) (read : TaskDb)
      → text_eq i t.id ≡ false
      → find_task t.id (replay_task_record now i actor note_text reset read db).1 ≡ some t
  unfolding replay_task_record replay_found replay_row
  replay-keeps now i actor note_text reset read ne = go (find_task i read)
    where
      go :
          (o : Option Task)
          → find_task t.id (replay_found now i actor note_text reset o db).1 ≡ some t
      go none = find_task-Has_keyed t db v h
      go (some row) = set_keeps i (replay_row now reset row) _ (λ u. refl) ne

  module _ (config : TaskConfig) (contract : Contract) (from_iso : Text → Option ℕ) where
    requeue-keeps :
        (now later : ℕ) (i error : Text) (worker : Option Text) (read : TaskDb)
        → text_eq i t.id ≡ false
        → find_task t.id (requeue_task_for_retry config now later i error worker read db).1 ≡ some t
    unfolding requeue_task_for_retry requeue_found retry_row
    requeue-keeps now later i error worker read ne = go (find_task i read)
      where
        go :
            (o : Option Task)
            → find_task t.id (requeue_found config now later i error worker o db).1 ≡ some t
        go none = find_task-Has_keyed t db v h
        go (some row) = set_keeps i (retry_row config now later error row) _ (λ u. refl) ne

    update-keeps :
        (now : ℕ) (i status : Text) (message : Option Text) (metadata : Option Fields)
        (read : TaskDb)
        → text_eq i t.id ≡ false
        → find_task t.id
            (update_task_status from_iso contract.repr now i status message metadata read db).1
          ≡ some t
    unfolding update_task_status update_parsed update_found status_row
    update-keeps now i status message metadata read ne = go (status_of (lower (strip status)))
      where
        found :
            (s : Status) (o : Option Task)
            → find_task t.id (update_found from_iso contract.repr now i s message metadata o db).1
              ≡ some t
        found s none = find_task-Has_keyed t db v h
        found s (some row) =
            set_keeps i (status_row from_iso contract.repr now s message metadata row) _ (λ u. refl)
              ne

        go :
            (o : Option Status)
            → find_task t.id
                (update_parsed from_iso contract.repr now i o message metadata read db).1
              ≡ some t
        go none = find_task-Has_keyed t db v h
        go (some s) = found s (find_task i read)

    create-keeps :
        (now : ℕ) (args : NewTask)
        → find_task t.id (create_task_record config contract from_iso now args db).1 ≡ some t
    unfolding create_task_record insert_task
    create-keeps now args = go (check_new_task config contract from_iso now args)
      where
        go :
            (c : Reply (Option Fields × ℕ))
            → find_task t.id (insert_checked config contract from_iso now args c db).1 ≡ some t
        go (http_error code) = find_task-Has_keyed t db v h
        go (reply (payload, due)) =
            elim (Bool-cases (
              occurs text_eq (new_row config contract from_iso now args payload due).id
                (ids db.tasks))) [
                  | inl e ↦ rw e (find_task-Has_keyed t db v h)
                  | inr e ↦ rw e (
                      find_task-log_event t.id _ _
                      ∙ find_task-append t.id _ db t (find_task-Has_keyed t db v h))
                ]

    -- An operation that spares a row which is not to be claimed keeps it, and gives it to nobody.
    pub operation-keeps :
        (x : Operation)
        → IsUnfit t
        → Spares t x
        → (find_task t.id (run_operation config contract from_iso x db).1 ≡ some t)
          × IsNot t.id (run_operation config contract from_iso x db).0
    unfolding run_operation
    operation-keeps (recovery now limit) unfit k = (recover-keeps now limit db t v h k, tt)
    operation-keeps (claiming now worker) unfit k =
        claim_transaction-keeps config now worker db t v h unfit
    operation-keeps (creation now args) unfit k = (create-keeps now args, tt)
    operation-keeps (update now i status message metadata read) unfit k =
        (update-keeps now i status message metadata read k, tt)
    operation-keeps (approval now i approver note_text read) unfit k =
        (approve-keeps now i approver note_text read k, tt)
    operation-keeps (retry now later i error worker read) unfit k =
        (requeue-keeps now later i error worker read k, tt)
    operation-keeps (replay now i actor note_text reset read) unfit k =
        (replay-keeps now i actor note_text reset read k, tt)
