-- ===== src/Tasks/Budget.antt =====
-- How often a task is given to workers.
use mathlib.Core.Path.{subst}
use context_lattice.Prelude.{
  All, All-Has, Has, List, Option, Text, [], arith, sym, ℕ, ◌+◌, ◌∷◌, ◌≤◌,
}
use context_lattice.Tasks.{Task, TaskConfig, TaskDb}
use context_lattice.Tasks.Contract.{Contract}
use context_lattice.Tasks.Invariant.{IsKeyed, IsValid, IsValidTask, find_task-found}
use context_lattice.Tasks.Operations.{Operation, run_operation, run_operations}
use context_lattice.Tasks.Keys.{operation-IsKeyed}
use context_lattice.Tasks.Framing.{IsNoReplay, handed, operation-Follows}

abbrev pub total_handed : Text → List (Option Task) → ℕ
total_handed i [] = 0
total_handed i (o ∷ os) = handed i o + total_handed i os

module _ (config : TaskConfig) (contract : Contract) (from_iso : Text → Option ℕ) where
  keyed-within_budget :
      (xs : List Operation) (db : TaskDb) (t : Task)
      → IsKeyed db
      → t.attempts ≤ t.max_attempts
      → Has t db.tasks
      → All (IsNoReplay t.id) xs
      → t.attempts + total_handed t.id (run_operations config contract from_iso xs db).0
        ≤ t.max_attempts
  unfolding run_operations
  keyed-within_budget [] db t v w h k = omega (arith, w)
  keyed-within_budget (x ∷ xs) db t v w h k =
      let (u, found, f) = operation-Follows config contract from_iso x db t v h k.0 in
      let db' = (run_operation config contract from_iso x db).1 in
      let rest =
        keyed-within_budget xs db' u (operation-IsKeyed config contract from_iso x db v) (f.room w)
          (find_task-found t.id u db' found)
          (subst (λ i. All (IsNoReplay i) xs) (sym f.same_id) k.1) in
      omega (
        arith,
        f.counted,
        f.same_limit,
        subst
            (λ i.
              u.attempts + total_handed i (run_operations config contract from_iso xs db').0
              ≤ u.max_attempts)
            f.same_id rest,
      )

  -- However the operations interleave, and whatever leases run out, fail or are retried: a task that
  -- nobody replays is given to workers at most as often as it has attempts left.
  pub claims-within_budget :
      (xs : List Operation) (db : TaskDb) (t : Task)
      → IsValid db
      → Has t db.tasks
      → All (IsNoReplay t.id) xs
      → t.attempts + total_handed t.id (run_operations config contract from_iso xs db).0
        ≤ t.max_attempts
  claims-within_budget xs db t v h k =
      keyed-within_budget xs db t v.keys (All-Has IsValidTask t db.tasks v.rows h).within h k
