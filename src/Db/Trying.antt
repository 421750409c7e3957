-- ===== src/Db/Trying.antt =====
-- Which attempt of a transaction counts.
use mathlib.Core.Path.{subst}
use context_lattice.Prelude.{
  Bool-cases, ap, arith, false, if◌then◌else◌, inl, inr, length, ltb, max, refl, some, suc, sym,
  true, zero, ℕ, ◌+◌, ◌-◌, ◌==◌, ◌∙◌, ◌≡◌, ◌≤◌, ◌⊎◌,
}
use context_lattice.Db.{Attempt, attempts_from, is_retryable, task_db_exec}

-- The attempt that counts: the first, from `attempt` on, that may not be repeated, or the last one.
unfoldable pub deciding : {A : Type 0} → ℕ → ℕ → (ℕ → Attempt A) → ℕ
deciding zero attempt run = attempt
deciding (suc more) attempt run =
    let rest = deciding more (attempt + 1) run in
    if is_retryable (run attempt) then rest else attempt

module _ {A : Type 0} (backoff : ℕ) (run : ℕ → Attempt A) where
  attempts_lem :
      (retries more attempt : ℕ)
      → retries ≡ attempt + more
      → let e = attempts_from backoff retries run (suc more) attempt in
        (e.result ≡ some (run (deciding more attempt run)))
        × (attempt + length e.sleeps ≡ deciding more attempt run)
  unfolding attempts_from deciding
  attempts_lem retries zero attempt h =
      let stop : ltb attempt retries ≡ false = ground arith in
      elim (Bool-cases (is_retryable (run attempt))) [
        | inl r ↦ rw (r, stop) (refl, omega arith)
        | inr r ↦ rw r (refl, omega arith)
      ]
  attempts_lem retries (suc more) attempt h =
      let again : ltb attempt retries ≡ true = ground arith in
      let ih = attempts_lem retries more (attempt + 1) (omega arith) in
      elim (Bool-cases (is_retryable (run attempt))) [
        | inl r ↦ rw (r, again) (ih.0, omega (arith, ih.1))
        | inr r ↦ rw r (refl, omega arith)
      ]

  deciding_lem :
      (more attempt k : ℕ)
      → attempt ≤ k
      → (deciding more attempt run ≤ attempt + more)
        × ((is_retryable (run (deciding more attempt run)) ≡ false)
            ⊎ (deciding more attempt run ≡ attempt + more))
        × ((is_retryable (run k) ≡ true) ⊎ (deciding more attempt run ≤ k))
  unfolding deciding
  deciding_lem zero attempt k h = (omega arith, inr (omega arith), inr h)
  deciding_lem (suc more) attempt k h = elim (Bool-cases (is_retryable (run attempt))) [
    | inl r ↦ elim (Bool-cases (attempt == k)) [
      | inl e ↦
          let same : attempt ≡ k = ground arith in
          let ih = deciding_lem more (attempt + 1) (attempt + 1) (omega arith) in
          rw r (
            omega (arith, ih.0),
            grind (arith, ih.1),
            inl (sym (ap (λ n. is_retryable (run n)) same) ∙ r),
          )
      | inr e ↦
          let ih = deciding_lem more (attempt + 1) k (ground arith) in
          rw r (omega (arith, ih.0), grind (arith, ih.1), ih.2)
    ]
    | inr r ↦ rw r (omega arith, inl r, inr h)
  ]

  -- What is claimed of an execution with `retries` attempts.
  abbrev Decided : ℕ → ℕ → Type 0
  Decided k retries =
      let e = attempts_from backoff retries run retries 1 in
      let n = 1 + length e.sleeps in
      (e.result ≡ some (run n))
      × (n ≤ retries)
      × ((is_retryable (run n) ≡ false) ⊎ (n ≡ retries))
      × ((is_retryable (run k) ≡ true) ⊎ (n ≤ k))

  attempts-Decided : (more k : ℕ) → 1 ≤ k → Decided k (suc more)
  attempts-Decided more k h =
      let e = attempts_lem (suc more) more 1 (omega arith) in
      let d = deciding_lem more 1 k h in rw (e.1) (e.0, omega (arith, d.0), grind (arith, d.1), d.2)

-- A transaction ends with what its deciding attempt ends with, an error or a value: it never ends
-- without a result. That is the first attempt that succeeds or fails with an error that is not retried
-- (only a database that is locked and a disk I/O error are retried), or else the last of the attempts
-- that are allowed (one at least); the times slept are one fewer than the attempts.
pub task_db_exec_lem :
    {A : Type 0} (lock_retries backoff : ℕ) (run : ℕ → Attempt A) (k : ℕ)
    → 1 ≤ k
    → let e = task_db_exec lock_retries backoff run in
      let n = 1 + length e.sleeps in
      (e.result ≡ some (run n))
      × (n ≤ max 1 lock_retries)
      × ((is_retryable (run n) ≡ false) ⊎ (n ≡ max 1 lock_retries))
      × ((is_retryable (run k) ≡ true) ⊎ (n ≤ k))
unfolding task_db_exec
task_db_exec_lem lock_retries backoff run k h =
    let turns : max 1 lock_retries ≡ suc (max 1 lock_retries - 1) = omega arith in
    subst (Decided backoff run k) (sym turns)
      (attempts-Decided backoff run (max 1 lock_retries - 1) k h)
