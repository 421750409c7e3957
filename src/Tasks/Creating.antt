-- ===== src/Tasks/Creating.antt =====
-- What `create_task_record` stores.
use context_lattice.Prelude.{
  All-append, Bool-cases, Distinct-append, Option, Reply, Text, [], arith, http_error, inl, inr,
  keys-append, none, occurs, refl, reply, some, text_eq, text_eq_comm, ℕ, ◌∷◌, ◌≤◌,
}
use context_lattice.Json.{Fields}
use context_lattice.Tasks.{Task, TaskConfig, TaskDb, ids}
use context_lattice.Tasks.Contract.{Contract}
use context_lattice.Tasks.Invariant.{IsValid, IsValidTask, log_event-IsValid}
use context_lattice.Tasks.Create.{
  NewTask, cap_attempts, create_task_record, insert_checked, insert_task, new_row,
}

cap_attempts_bounds :
    (config : TaskConfig) (n : Option ℕ)
    → (1 ≤ cap_attempts config n) × (cap_attempts config n ≤ 50)
unfolding cap_attempts
cap_attempts_bounds config none = omega arith
cap_attempts_bounds config (some n) = omega arith

insert_task-IsValid :
    (now due : ℕ) (row : Task) (db : TaskDb)
    → IsValidTask row
    → IsValid db
    → IsValid (insert_task now due row db).1
unfolding insert_task
insert_task-IsValid now due row db ok v = elim (Bool-cases (occurs text_eq row.id (ids db.tasks))) [
  | inl e ↦ rw e v
  | inr e ↦ rw e (
      log_event-IsValid _ _ (record {
        rows = All-append IsValidTask db.tasks (row ∷ []) v.rows (ok, tt);
        keys =
            rw (keys-append (λ (t : Task). t.id) text_eq db.tasks (row ∷ []))
              (Distinct-append text_eq text_eq_comm row.id (ids db.tasks) v.keys e);
      }))
]

module _ (config : TaskConfig) (contract : Contract) (from_iso : Text → Option ℕ) where
  new_row-IsValidTask :
      (now : ℕ) (args : NewTask) (payload : Option Fields) (due : ℕ)
      → IsValidTask (new_row config contract from_iso now args payload due)
  unfolding new_row
  new_row-IsValidTask now args payload due =
      let bounds = cap_attempts_bounds config args.max_attempts in
      record {
        within = omega arith;
        positive = bounds.0;
        capped = bounds.1;
        unclaimed = λ _. refl;
        unleased = λ _. refl;
        completed = λ h. cc;
      }

  insert_checked-IsValid :
      (now : ℕ) (args : NewTask) (checked : Reply (Option Fields × ℕ)) (db : TaskDb)
      → IsValid db
      → IsValid (insert_checked config contract from_iso now args checked db).1
  unfolding insert_checked
  insert_checked-IsValid now args (http_error code) db v = v
  insert_checked-IsValid now args (reply (payload, due)) db v =
      insert_task-IsValid now due _ db (new_row-IsValidTask now args payload due) v

  -- A creation keeps the table well formed, also where it is refused.
  pub create-IsValid :
      (now : ℕ) (args : NewTask) (db : TaskDb)
      → IsValid db
      → IsValid (create_task_record config contract from_iso now args db).1
  unfolding create_task_record
  create-IsValid now args db v = insert_checked-IsValid now args _ db v
