-- ===== src/Tests/Executions.antt =====
-- A transaction that meets a locked database once.
use context_lattice.Prelude.{
  arith, codes, false, holds_text, if◌then◌else◌, length, lower, some, starts_with, true, ℕ, ◌+◌,
  ◌==◌, ◌≡◌, ◌≤◌, ◌⊎◌,
}
use context_lattice.Db.{
  Attempt, attempts_from, is_retryable, operational_error, returned, task_db_exec,
}
use context_lattice.Db.Trying.{task_db_exec_lem}

abbrev outcome : ℕ → Attempt ℕ
outcome n = if n == 1 then operational_error (codes "database is locked") else returned 7

task_db_exec_example :
    let e = task_db_exec 3 50 outcome in
    (e.result ≡ some (returned 7))
    × (1 + length e.sleeps ≤ 3)
    × ((is_retryable (outcome (1 + length e.sleeps)) ≡ false) ⊎ (1 + length e.sleeps ≡ 3))
    × ((is_retryable (outcome 2) ≡ true) ⊎ (1 + length e.sleeps ≤ 2))
unfolding task_db_exec attempts_from is_retryable holds_text starts_with lower
task_db_exec_example = task_db_exec_lem 3 50 outcome 2 (omega arith)
