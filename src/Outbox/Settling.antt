-- ===== src/Outbox/Settling.antt =====
-- How jobs end: what `mark_fanout_retry` does to a claimed job, how long it lets it wait, and what
-- `recover_stale_running_jobs` does to every row.
use mathlib.Core.Path.{subst}
use context_lattice.Prelude.{
  Bool, Bool-cases, Has, Option, Text, arith, count, false, find-update_where, has_key,
  if◌then◌else◌, inl, inr, leb, mul_mono, none, pow_mono, refl, some, true, ℕ, ◌&&◌, ◌+◌, ◌-◌, ◌==◌,
  ◌^◌, ◌∙◌, ◌≡◌, ◌≤◌,
}
use context_lattice.Clock.{iso_leb, iso_leb_refl}
use context_lattice.Outbox.{
  Job, JobStatus, Outbox, OutboxConfig, failed, find_job, has_job_id, is_running_job, pending,
  retrying, running, same_id, succeeded,
}
use context_lattice.Outbox.Batch.{TargetFilter, any_target, is_due_job}
use context_lattice.Outbox.Mark.{
  backoff, bounded_backoff, is_abandoned, is_spent, is_stale, jitter_bound, mark_fanout_retry,
  recover_row, recover_stale_running_jobs, retry_job_row,
}
use context_lattice.Outbox.Invariant.{IsValidOutbox}
use context_lattice.Outbox.Ready.{count-agree}
use context_lattice.Outbox.Taking.{find_job-Has, find_job-set_job, find_job-set_job_ne}

-- The delay grows with the attempt and stays below the configured maximum and a second of jitter.
pub backoff_lem :
    (config : OutboxConfig) (attempt later_attempt jitter : ℕ)
    → jitter ≤ jitter_bound config attempt
    → attempt ≤ later_attempt
    → (backoff config attempt jitter ≤ config.retry_max + 1_000_000)
      × (bounded_backoff config attempt ≤ bounded_backoff config later_attempt)
      × (bounded_backoff config attempt ≤ backoff config attempt jitter)
unfolding backoff bounded_backoff jitter_bound
backoff_lem config attempt later_attempt jitter h le = (
  omega (arith, h),
  omega (
    arith,
    mul_mono config.retry_base (2 ^ (attempt - 1)) (2 ^ (later_attempt - 1))
        (pow_mono (attempt - 1) (later_attempt - 1) (omega (arith, le))),
  ),
  omega arith,
)

retry_job_row-id :
    (config : OutboxConfig) (now later jitter : ℕ) (error : Text) (job j : Job)
    → (retry_job_row config now later jitter error job j).id ≡ j.id
unfolding retry_job_row
retry_job_row-id config now later jitter error job j = refl

-- The row of a job after its retry, by whether its attempts are used up.
abbrev pub RetryOutcome : Bool → ℕ → ℕ → ℕ → Job → Type 0
RetryOutcome true now later longest j =
    (j.status ≡ failed)
    × (j.completed_at ≡ some now)
    × ((at : ℕ) (filter : TargetFilter) → is_due_job at filter j ≡ false)
RetryOutcome false now later longest j =
    (j.status ≡ retrying) × (later ≤ j.next_attempt_at) × (j.next_attempt_at ≤ later + longest)

retry_job_row-RetryOutcome :
    (config : OutboxConfig) (now later jitter : ℕ) (error : Text) (job : Job)
    → jitter ≤ jitter_bound config job.attempts
    → RetryOutcome
        (is_spent config job)
        now
        later
        (config.retry_max + 1_000_000)
        (retry_job_row config now later jitter error job job)
unfolding retry_job_row is_due_job
retry_job_row-RetryOutcome config now later jitter error job h =
    let b = backoff_lem config job.attempts job.attempts jitter h (omega arith) in
    elim (Bool-cases (is_spent config job)) [
      | inl e ↦ rw e (refl, refl, λ at filter. refl)
      | inr e ↦ rw e (refl, omega arith, omega (arith, b.0))
    ]

-- A job that is marked for a retry keeps its attempts. Where they have reached its own limit, or the
-- configured one if its own is zero, it has failed, with the time of its end, and is not due at any
-- moment; otherwise it waits, for at most the configured maximum and a second. The status that is
-- returned is the stored one, and no other row changes.
pub retry-outcome :
    (config : OutboxConfig) (now later jitter : ℕ) (job : Job) (error : Text) (o : Outbox) (k : ℕ)
    → jitter ≤ jitter_bound config job.attempts
    → find_job job.id o ≡ some job
    → same_id job.id k ≡ false
    → let r = mark_fanout_retry config now later jitter job error o in
      (j : Job) × (find_job job.id (r.1) ≡ some j)
      × (j.attempts ≡ job.attempts)
      × (r.0 ≡ j.status)
      × RetryOutcome
          (leb
            (if job.max_attempts == 0 then config.max_attempts else job.max_attempts)
            job.attempts)
          now
          later
          (config.retry_max + 1_000_000)
          j
      × (find_job k (r.1) ≡ find_job k o)
unfolding mark_fanout_retry retry_job_row is_spent
retry-outcome config now later jitter job error o k h e ne =
    let row = retry_job_row config now later jitter error job in
    (
      row job,
      find_job-set_job job.id row o job (retry_job_row-id config now later jitter error job) e,
      refl,
      refl,
      retry_job_row-RetryOutcome config now later jitter error job h,
      find_job-set_job_ne job.id k row o (retry_job_row-id config now later jitter error job) ne,
    )

-- Running, and last attempted at the cutoff or before, or at no known time.
abbrev pub left_running : ℕ → JobStatus → Option ℕ → Bool
left_running cutoff running none = true
left_running cutoff running (some at) = iso_leb at cutoff
left_running cutoff s last = false

abbrev pub is_left : ℕ → Job → Bool
is_left cutoff j = left_running cutoff j.status j.last_attempt_at

left_running-stale :
    (cutoff : ℕ) (s : JobStatus) (last : Option ℕ)
    → (is_running_job s && is_stale cutoff last) ≡ left_running cutoff s last
left_running-stale cutoff running none = refl
left_running-stale cutoff running (some at) = refl
left_running-stale cutoff pending last = refl
left_running-stale cutoff retrying last = refl
left_running-stale cutoff succeeded last = refl
left_running-stale cutoff failed last = refl

is_left-abandoned : (cutoff : ℕ) (j : Job) → is_abandoned cutoff j ≡ is_left cutoff j
unfolding is_abandoned
is_left-abandoned cutoff j = left_running-stale cutoff j.status j.last_attempt_at

-- The row after the recovery: it waits again, due at once, or is as it was.
abbrev pub Resumed : ℕ → Bool → Job → Job → Type 0
Resumed now false j u = u ≡ j
Resumed now true j u =
    (u.id ≡ j.id)
    × (u.status ≡ retrying)
    × (is_due_job now any_target u ≡ true)
    × (u.attempts ≡ j.attempts)
    × (u.payload ≡ j.payload)

Resumed-if : (now : ℕ) (j : Job) (b : Bool) → Resumed now b j (if b then recover_row now j else j)
unfolding recover_row is_due_job
Resumed-if now j true = (refl, refl, rw (iso_leb_refl now) refl, refl, refl)
Resumed-if now j false = refl

-- Recovery of stale jobs reports the number of running rows that were last attempted at the cutoff or
-- before, or at no known time. Exactly these wait again, due now, with their attempts kept; every other
-- row is as it was.
pub recover_stale-exact :
    (now cutoff : ℕ) (o : Outbox) (j : Job)
    → IsValidOutbox o
    → Has j o.jobs
    → let r = recover_stale_running_jobs now cutoff o in
      (r.0 ≡ count (is_left cutoff) o.jobs)
      × ((u : Job) × (find_job j.id (r.1) ≡ some u) × Resumed now (is_left cutoff j) j u)
unfolding recover_stale_running_jobs find_job recover_row has_key
recover_stale-exact now cutoff o j v h = (
  count-agree (is_abandoned cutoff) (is_left cutoff) (is_left-abandoned cutoff) o.jobs,
  (
    if is_abandoned cutoff j then recover_row now j else j,
    find-update_where (is_abandoned cutoff) (has_job_id j.id) (recover_row now) o.jobs (λ r. refl)
        ∙ rw (find_job-Has o j v h) refl,
    subst (λ b. Resumed now b j (if is_abandoned cutoff j then recover_row now j else j))
        (is_left-abandoned cutoff j) (Resumed-if now j (is_abandoned cutoff j)),
  ),
)
