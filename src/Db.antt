-- ===== src/Db.antt =====
-- `_task_db_exec` of services/orchestrator/app.py: a transaction is tried again while the database is
-- locked, a bounded number of times.
pub mod Trying
use context_lattice.Prelude.{
  Bool, List, Option, Text, [], codes, false, holds_text, if◌then◌else◌, lower, ltb, max, none,
  some, suc, zero, ℕ, ◌&&◌, ◌*◌, ◌+◌, ◌||◌, ◌∷◌,
}

-- What one run of the transaction ends with.
pub data Attempt (A : Type 0) : Type 0 where
  returned : A → Attempt A
  operational_error other_error : (message : Text) → Attempt A

unfoldable pub is_retryable : {A : Type 0} → Attempt A → Bool
is_retryable (operational_error message) =
    let m = lower message in holds_text (codes "locked") m || holds_text (codes "disk i/o error") m
is_retryable _ = false

-- The result, and the times slept. `run n` is what the n-th attempt ends with.
pub record Execution (A : Type 0) : Type 0 where
  pub result : Option (Attempt A)
  pub sleeps : List ℕ

abbrev after_sleep : {A : Type 0} → ℕ → Execution A → Execution A
after_sleep time e = record { result = e.result; sleeps = time ∷ e.sleeps }

module _ {A : Type 0} (backoff : ℕ) (retries : ℕ) (run : ℕ → Attempt A) where
  -- `for attempt in range(attempt, retries + 1)`, with `left` turns left. After the last turn the
  -- function would return None.
  unfoldable pub attempts_from : ℕ → ℕ → Execution A
  attempts_from zero attempt = record { result = none; sleeps = [] }
  attempts_from (suc left) attempt =
      let rest = attempts_from left (attempt + 1) in
      if is_retryable (run attempt) && ltb attempt retries
      then after_sleep (backoff * attempt) rest
      else record { result = some (run attempt); sleeps = [] }

-- `lock_retries` and `backoff` are the settings TASK_DB_LOCK_RETRIES and TASK_DB_LOCK_BACKOFF_SECS.
unfoldable pub task_db_exec : {A : Type 0} → ℕ → ℕ → (ℕ → Attempt A) → Execution A
task_db_exec lock_retries backoff run =
    attempts_from backoff (max 1 lock_retries) run (max 1 lock_retries) 1
