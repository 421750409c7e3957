-- ===== src/Tasks/Framing.antt =====
-- What each operation does to a row that it is not about, and to the attempts of any row.
use mathlib.Core.Option
use context_lattice.Prelude.{
  Bool, Bool-cases, Has, Option, Reply, Text, [], arith, contains, false, http_error, if◌then◌else◌,
  inl, inr, lower, none, occurs, refl, reply, some, strip, text_eq, text_eq_sound, true, ℕ, ◌+◌,
  ◌<◌, ◌∙◌, ◌∷◌, ◌≡◌, ◌≤◌,
}
use context_lattice.Json.{Fields}
use context_lattice.Tasks.{
  Event, Status, Task, TaskConfig, TaskDb, find_task, ids, log_event, set_task,
}
use context_lattice.Tasks.Contract.{Contract}
use context_lattice.Tasks.Invariant.{
  IsKeyed, find_task-Has_keyed, find_task-append, find_task-log_event, find_task-set_task_if,
  find_task-set_task_ne,
}
use context_lattice.Tasks.Leases.{expired_rows, recover_expired_task_leases, requeue_expired}
use context_lattice.Tasks.Claim.{
  can_claim, claim_chosen, claim_row, claim_transaction, worker_name_of,
}
use context_lattice.Tasks.Update.{
  status_of, status_row, update_found, update_parsed, update_task_status,
}
use context_lattice.Tasks.Approval.{approve_found, approve_row, approve_task_record}
use context_lattice.Tasks.Retry.{requeue_found, requeue_task_for_retry, retry_row}
use context_lattice.Tasks.Replay.{replay_found, replay_row, replay_task_record}
use context_lattice.Tasks.Create.{
  NewTask, check_new_task, create_task_record, insert_checked, insert_task,
}
use context_lattice.Tasks.Preservation.{choose_lem}
use context_lattice.Tasks.Recovering.{find_task-recover_rows}
use context_lattice.Tasks.Claiming.{claim_chosen-none, claim_chosen_lem}
use context_lattice.Tasks.Operations.{
  Operation, approval, claiming, creation, recovery, replay, retry, run_operation, update,
}

-- `t` has become `u`: the same task, with `more` attempts more.
pub record Follows (t : Task) (more : ℕ) (u : Task) : Type 0 where
  pub same_id : u.id ≡ t.id
  pub same_limit : u.max_attempts ≡ t.max_attempts
  pub counted : u.attempts ≡ t.attempts + more
  pub room : t.attempts ≤ t.max_attempts → u.attempts ≤ u.max_attempts

abbrev pub Followed : Task → ℕ → TaskDb → Type 0
Followed t more db = (u : Task) × (find_task t.id db ≡ some u) × Follows t more u

-- How often a task was more to a worker.
abbrev pub handed : Text → Option Task → ℕ
handed i none = 0
handed i (some t) = if text_eq t.id i then 1 else 0

Follows-refl : (t : Task) → Follows t 0 t
Follows-refl t = record { same_id = refl; same_limit = refl; counted = omega arith; room = λ h. h }

-- An update that leaves ids, limits and attempts alone, with its event.
set-Follows :
    (i : Text) (f : Task → Task) (e : Event) (db : TaskDb) (t : Task)
    → ((u : Task) → Follows u 0 (f u))
    → IsKeyed db
    → Has t db.tasks
    → Followed t 0 (log_event e (set_task i f db))
set-Follows i f e db t keep v h = (
  if text_eq i t.id then f t else t,
  find_task-log_event t.id _ _
      ∙ find_task-set_task_if i t.id f db (λ u. (keep u).same_id)
      ∙ rw (find_task-Has_keyed t db v h),
  go (text_eq i t.id),
)
  where
    go : (b : Bool) → Follows t 0 (if b then f t else t)
    go true = keep t
    go false = Follows-refl t

kept-Follows : (db : TaskDb) (t : Task) → find_task t.id db ≡ some t → Followed t 0 db
kept-Follows db t e = (t, e, Follows-refl t)

recovery-Follows :
    (now limit : ℕ) (db : TaskDb) (t : Task)
    → IsKeyed db
    → Has t db.tasks
    → Followed t 0 (recover_expired_task_leases now limit db).1
unfolding recover_expired_task_leases requeue_expired
recovery-Follows now limit db t v h = (
  if listed then requeue_expired now t else t,
  find_task-recover_rows now _ 0 t.id db ∙ rw (find_task-Has_keyed t db v h),
  go listed,
)
  where
    listed : Bool
    listed = contains (ids (expired_rows now limit db.tasks)) t.id

    go : (b : Bool) → Follows t 0 (if b then requeue_expired now t else t)
    go true = record { same_id = refl; same_limit = refl; counted = omega arith; room = λ h. h }
    go false = Follows-refl t

handed_claimed :
    (now lease : ℕ) (worker i : Text) (row : Task) (db : TaskDb)
    → find_task row.id db ≡ some row
    → handed i (claim_chosen now lease worker (some row) db).0 ≡ (if text_eq row.id i then 1 else 0)
unfolding claim_row
handed_claimed now lease worker i row db f = rw (claim_chosen_lem now lease worker row db f)

find_task-claim_chosen :
    (now lease : ℕ) (worker i : Text) (row : Task) (db : TaskDb)
    → find_task i (claim_chosen now lease worker (some row) db).1
      ≡ Option.map
          (λ t. if text_eq row.id i then claim_row now lease worker t else t)
          (find_task i db)
unfolding claim_chosen claim_row
find_task-claim_chosen now lease worker i row db =
    find_task-log_event i _ _
    ∙ find_task-set_task_if row.id i (claim_row now lease worker) db (λ t. refl)

claimed-room :
    (now : ℕ) (key : Text) (t : Task) → can_claim now key t ≡ true → t.attempts < t.max_attempts
unfolding can_claim
claimed-room now key t h = ground arith

claim_chosen-Follows :
    (now lease : ℕ) (key worker : Text) (row : Option Task) (db : TaskDb) (t : Task)
    → ((r : Task) → row ≡ some r → Has r db.tasks × (can_claim now key r ≡ true))
    → IsKeyed db
    → Has t db.tasks
    → Followed t
        (handed t.id (claim_chosen now lease worker row db).0)
        (claim_chosen now lease worker row db).1
unfolding claim_row
claim_chosen-Follows now lease key worker none db t p v h =
    let n = claim_chosen-none now lease worker db in
    rw (n.1, n.0) (kept-Follows db t (find_task-Has_keyed t db v h))
claim_chosen-Follows now lease key worker (some row) db t p v h =
    let m = p row refl in
    let f = find_task-Has_keyed row db v m.0 in
    let fit : text_eq row.id t.id ≡ true → t.attempts < t.max_attempts = λ e.
      claimed-room now key t
        (cc (f, find_task-Has_keyed t db v h, text_eq_sound row.id t.id e, m.1)) in
    rw (handed_claimed now lease worker t.id row db f) (
      if text_eq row.id t.id then claim_row now lease worker t else t,
      find_task-claim_chosen now lease worker t.id row db ∙ rw (find_task-Has_keyed t db v h),
      go fit (text_eq row.id t.id) refl,
    )
  where
    go :
        (text_eq row.id t.id ≡ true → t.attempts < t.max_attempts)
        → (b : Bool) → text_eq row.id t.id ≡ b
        → Follows t (if b then 1 else 0) (if b then claim_row now lease worker t else t)
    go fit true e = record {
      same_id = refl;
      same_limit = refl;
      counted = omega arith;
      room = λ h. omega (arith, fit e);
    }
    go fit false e = Follows-refl t

claim-Follows :
    (config : TaskConfig) (now : ℕ) (worker : Option Text) (db : TaskDb) (t : Task)
    → IsKeyed db
    → Has t db.tasks
    → Followed t
        (handed t.id (claim_transaction config now worker db).0)
        (claim_transaction config now worker db).1
unfolding claim_transaction
claim-Follows config now worker db t v h =
    let name = worker_name_of worker in
    claim_chosen-Follows now config.lease (lower name) name _ db t
      (λ r e. choose_lem now (lower name) db r e) v h

insert-Follows :
    (now due : ℕ) (row : Task) (db : TaskDb) (t : Task)
    → IsKeyed db
    → Has t db.tasks
    → Followed t 0 (insert_task now due row db).1
unfolding insert_task
insert-Follows now due row db t v h = elim (Bool-cases (occurs text_eq row.id (ids db.tasks))) [
  | inl e ↦ rw e (kept-Follows db t (find_task-Has_keyed t db v h))
  | inr e ↦ rw e (
      kept-Follows _ t (
        find_task-log_event t.id _ _
        ∙ find_task-append t.id (row ∷ []) db t (find_task-Has_keyed t db v h)))
]

-- No replay of the task with this id.
abbrev pub IsNoReplay : Text → Operation → Type 0
IsNoReplay i (replay now j actor note_text reset read) = text_eq j i ≡ false
IsNoReplay i _ = Unit

replay-other :
    (now : ℕ) (i : Text) (actor note_text : Option Text) (reset : Bool) (read db : TaskDb)
    (t : Task)
    → IsKeyed db
    → Has t db.tasks
    → text_eq i t.id ≡ false
    → Followed t 0 (replay_task_record now i actor note_text reset read db).1
unfolding replay_task_record replay_found replay_row
replay-other now i actor note_text reset read db t v h ne = go (find_task i read)
  where
    go : (o : Option Task) → Followed t 0 (replay_found now i actor note_text reset o db).1
    go none = kept-Follows db t (find_task-Has_keyed t db v h)
    go (some row) = kept-Follows _ t (
        find_task-log_event t.id _ _
        ∙ find_task-set_task_ne i t.id (replay_row now reset row) db (λ u. refl) ne
        ∙ find_task-Has_keyed t db v h)

module _ (config : TaskConfig) (contract : Contract) (from_iso : Text → Option ℕ) where
  create-Follows :
      (now : ℕ) (args : NewTask) (db : TaskDb) (t : Task)
      → IsKeyed db
      → Has t db.tasks
      → Followed t 0 (create_task_record config contract from_iso now args db).1
  unfolding create_task_record
  create-Follows now args db t v h = go (check_new_task config contract from_iso now args)
    where
      go :
          (c : Reply (Option Fields × ℕ))
          → Followed t 0 (insert_checked config contract from_iso now args c db).1
      go (http_error code) = kept-Follows db t (find_task-Has_keyed t db v h)
      go (reply (payload, due)) = insert-Follows now due _ db t v h

  update-Follows :
      (now : ℕ) (i status : Text) (message : Option Text) (metadata : Option Fields)
      (read db : TaskDb) (t : Task)
      → IsKeyed db
      → Has t db.tasks
      → Followed t 0
          (update_task_status from_iso contract.repr now i status message metadata read db).1
  unfolding update_task_status update_parsed update_found status_row
  update-Follows now i status message metadata read db t v h = go (status_of (lower (strip status)))
    where
      found :
          (s : Status) (o : Option Task)
          → Followed t 0 (update_found from_iso contract.repr now i s message metadata o db).1
      found s none = kept-Follows db t (find_task-Has_keyed t db v h)
      found s (some row) =
          set-Follows i (status_row from_iso contract.repr now s message metadata row) _ db t
            (λ u. record {
              same_id = refl;
              same_limit = refl;
              counted = omega arith;
              room = λ h. h;
            })
            v h

      go :
          (o : Option Status)
          → Followed t 0 (update_parsed from_iso contract.repr now i o message metadata read db).1
      go none = kept-Follows db t (find_task-Has_keyed t db v h)
      go (some s) = found s (find_task i read)

  approve-Follows :
      (now : ℕ) (i : Text) (approver note_text : Option Text) (read db : TaskDb) (t : Task)
      → IsKeyed db
      → Has t db.tasks
      → Followed t 0 (approve_task_record now i approver note_text read db).1
  unfolding approve_task_record approve_found approve_row
  approve-Follows now i approver note_text read db t v h = go (find_task i read)
    where
      go : (o : Option Task) → Followed t 0 (approve_found now i approver note_text o db).1
      go none = kept-Follows db t (find_task-Has_keyed t db v h)
      go (some row) =
          set-Follows i (approve_row now row) _ db t
            (λ u. record {
              same_id = refl;
              same_limit = refl;
              counted = omega arith;
              room = λ h. h;
            })
            v h

  requeue-Follows :
      (now later : ℕ) (i error : Text) (worker : Option Text) (read db : TaskDb) (t : Task)
      → IsKeyed db
      → Has t db.tasks
      → Followed t 0 (requeue_task_for_retry config now later i error worker read db).1
  unfolding requeue_task_for_retry requeue_found retry_row
  requeue-Follows now later i error worker read db t v h = go (find_task i read)
    where
      go : (o : Option Task) → Followed t 0 (requeue_found config now later i error worker o db).1
      go none = kept-Follows db t (find_task-Has_keyed t db v h)
      go (some row) =
          set-Follows i (retry_row config now later error row) _ db t
            (λ u. record {
              same_id = refl;
              same_limit = refl;
              counted = omega arith;
              room = λ h. h;
            })
            v h

  -- Every operation but a replay of the task keeps its id and its limit, and adds one attempt exactly
  -- where it gives the task to a worker.
  pub operation-Follows :
      (x : Operation) (db : TaskDb) (t : Task)
      → IsKeyed db
      → Has t db.tasks
      → IsNoReplay t.id x
      → Followed t
          (handed t.id (run_operation config contract from_iso x db).0)
          (run_operation config contract from_iso x db).1
  unfolding run_operation
  operation-Follows (recovery now limit) db t v h k = recovery-Follows now limit db t v h
  operation-Follows (claiming now worker) db t v h k = claim-Follows config now worker db t v h
  operation-Follows (creation now args) db t v h k = create-Follows now args db t v h
  operation-Follows (update now i status message metadata read) db t v h k =
      update-Follows now i status message metadata read db t v h
  operation-Follows (approval now i approver note_text read) db t v h k =
      approve-Follows now i approver note_text read db t v h
  operation-Follows (retry now later i error worker read) db t v h k =
      requeue-Follows now later i error worker read db t v h
  operation-Follows (replay now i actor note_text reset read) db t v h k =
      replay-other now i actor note_text reset read db t v h k
