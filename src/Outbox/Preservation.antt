-- ===== src/Outbox/Preservation.antt =====
-- Every operation on the outbox keeps the table well formed.
use context_lattice.Prelude.{
  Bool, Bool-cases, List, Option, Text, [], arith, find, inl, inr, none, refl, some, ℕ, ◌+◌, ◌∷◌,
  ◌≡◌,
}
use context_lattice.Outbox.{Job, Outbox, OutboxConfig, has_dedupe_key}
use context_lattice.Outbox.Enqueue.{
  FanoutEvent, Tally, coalesce_row, dedupe_key_of, enqueue_existing, enqueue_fanout_outbox,
  enqueue_keyed, enqueue_new, enqueue_target, enqueue_targets, new_job, requeue_row, zero_tally,
}
use context_lattice.Outbox.Batch.{claim_fanout_batch, claim_rows, take_row}
use context_lattice.Outbox.Mark.{
  fail_letta_backlog, failed_row, in_backlog, is_abandoned, is_spent, mark_fanout_failed,
  mark_fanout_retry, mark_fanout_success, recover_row, recover_stale_running_jobs, retry_job_row,
  success_row,
}
use context_lattice.Outbox.Invariant.{
  IsValidJob, IsValidOutbox, append-IsValidOutbox, set_job-IsValidOutbox, update-IsValidOutbox,
}

claim_row-IsValidJob :
    (now attempts n : ℕ) (j : Job) → IsValidJob n j → IsValidJob n (take_row now attempts j)
unfolding take_row
claim_row-IsValidJob now attempts n j v = ground arith

claim_rows-IsValidOutbox :
    (now : ℕ) (rows : List Job) (o : Outbox)
    → IsValidOutbox o
    → IsValidOutbox (claim_rows now rows o).1
unfolding claim_rows take_row
claim_rows-IsValidOutbox now [] o v = v
claim_rows-IsValidOutbox now (row ∷ rows) o v = claim_rows-IsValidOutbox now rows _ (
    set_job-IsValidOutbox row.id (take_row now (row.attempts + 1)) o (λ j. (refl, refl))
      (λ j h. claim_row-IsValidJob now (row.attempts + 1) o.next_id j h) v)

-- A claimed batch keeps the table well formed.
pub claim_batch-IsValidOutbox :
    (now limit : ℕ) (target exclude_target : Option Text) (o : Outbox)
    → IsValidOutbox o
    → IsValidOutbox (claim_fanout_batch now limit target exclude_target o).1
unfolding claim_fanout_batch
claim_batch-IsValidOutbox now limit target exclude_target o v = claim_rows-IsValidOutbox now _ o v

success_row-IsValidJob : (now n : ℕ) (j : Job) → IsValidJob n j → IsValidJob n (success_row now j)
unfolding success_row
success_row-IsValidJob now n j v = ground arith

failed_row-IsValidJob :
    (now n : ℕ) (error : Text) (j : Job) → IsValidJob n j → IsValidJob n (failed_row now error j)
unfolding failed_row
failed_row-IsValidJob now n error j v = ground arith

recover_row-IsValidJob : (now n : ℕ) (j : Job) → IsValidJob n j → IsValidJob n (recover_row now j)
unfolding recover_row
recover_row-IsValidJob now n j v = ground arith

retry_job_row-IsValidJob :
    (config : OutboxConfig) (now later jitter n : ℕ) (error : Text) (job j : Job)
    → IsValidJob n j
    → IsValidJob n (retry_job_row config now later jitter error job j)
unfolding retry_job_row
retry_job_row-IsValidJob config now later jitter n error job j v =
    elim (Bool-cases (is_spent config job)) [
      | inl e ↦ rw e (record { below = v.below; attempted = λ h. cc; closed = λ _. refl })
      | inr e ↦ rw e (record { below = v.below; attempted = λ h. cc; closed = λ h. cc })
    ]

pub success-IsValidOutbox :
    (now i : ℕ) (o : Outbox) → IsValidOutbox o → IsValidOutbox (mark_fanout_success now i o)
unfolding mark_fanout_success success_row
success-IsValidOutbox now i o v =
    set_job-IsValidOutbox i (success_row now) o (λ j. (refl, refl))
      (λ j h. success_row-IsValidJob now o.next_id j h) v

pub failed-IsValidOutbox :
    (now i : ℕ) (error : Text) (o : Outbox)
    → IsValidOutbox o
    → IsValidOutbox (mark_fanout_failed now i error o)
unfolding mark_fanout_failed failed_row
failed-IsValidOutbox now i error o v =
    set_job-IsValidOutbox i (failed_row now error) o (λ j. (refl, refl))
      (λ j h. failed_row-IsValidJob now o.next_id error j h) v

pub backlog-IsValidOutbox :
    (config : OutboxConfig) (now : ℕ) (error : Text) (o : Outbox)
    → IsValidOutbox o
    → IsValidOutbox (fail_letta_backlog config now error o).1
unfolding fail_letta_backlog failed_row
backlog-IsValidOutbox config now error o v =
    update-IsValidOutbox (in_backlog config) (failed_row now error) o (λ j. (refl, refl))
      (λ j _ h. failed_row-IsValidJob now o.next_id error j h) v

pub retry-IsValidOutbox :
    (config : OutboxConfig) (now later jitter : ℕ) (job : Job) (error : Text) (o : Outbox)
    → IsValidOutbox o
    → IsValidOutbox (mark_fanout_retry config now later jitter job error o).1
unfolding mark_fanout_retry retry_job_row
retry-IsValidOutbox config now later jitter job error o v =
    set_job-IsValidOutbox job.id (retry_job_row config now later jitter error job) o
      (λ j. (refl, refl))
      (λ j h. retry_job_row-IsValidJob config now later jitter o.next_id error job j h) v

pub recover_stale-IsValidOutbox :
    (now cutoff : ℕ) (o : Outbox)
    → IsValidOutbox o
    → IsValidOutbox (recover_stale_running_jobs now cutoff o).1
unfolding recover_stale_running_jobs recover_row
recover_stale-IsValidOutbox now cutoff o v =
    update-IsValidOutbox (is_abandoned cutoff) (recover_row now) o (λ j. (refl, refl))
      (λ j _ h. recover_row-IsValidJob now o.next_id j h) v

coalesce_row-IsValidJob :
    (now n : ℕ) (event : FanoutEvent) (j : Job)
    → IsValidJob n j
    → IsValidJob n (coalesce_row now event j)
unfolding coalesce_row
coalesce_row-IsValidJob now n event j v = ground arith

requeue_row-IsValidJob :
    (config : OutboxConfig) (now n : ℕ) (event : FanoutEvent) (j : Job)
    → IsValidJob n j
    → IsValidJob n (requeue_row config now event j)
unfolding requeue_row
requeue_row-IsValidJob config now n event j v = ground arith

new_job-IsValidJob :
    (config : OutboxConfig) (now n : ℕ) (event : FanoutEvent) (target : Text)
    → IsValidJob (n + 1) (new_job config now event target n)
unfolding new_job
new_job-IsValidJob config now n event target = record {
  below = omega arith;
  attempted = λ h. cc;
  closed = λ h. cc;
}

module _ (config : OutboxConfig) (now cutoff : ℕ) (force : Bool) (event : FanoutEvent) where
  enqueue_keyed-IsValidOutbox :
      (target : Text) (row : Option Job) (o : Outbox) (t : Tally)
      → find (has_dedupe_key (dedupe_key_of event.event_id target)) o.jobs ≡ row
      → IsValidOutbox o
      → IsValidOutbox (enqueue_keyed config now cutoff force event target row o t).1
  unfolding enqueue_keyed enqueue_new enqueue_existing new_job requeue_row
  enqueue_keyed-IsValidOutbox target none o t e v =
      append-IsValidOutbox o (new_job config now event target o.next_id) refl e
        (new_job-IsValidJob config now o.next_id event target) v
  enqueue_keyed-IsValidOutbox target (some row) o t e v = elim (Bool-cases force) [
    | inl f ↦ rw f (
        set_job-IsValidOutbox row.id (requeue_row config now event) o (λ j. (refl, refl))
          (λ j h. requeue_row-IsValidJob config now o.next_id event j h) v)
    | inr f ↦ rw f v
  ]

  enqueue_target-IsValidOutbox :
      (target : Text) (row : Option Job) (o : Outbox) (t : Tally)
      → IsValidOutbox o
      → IsValidOutbox (enqueue_target config now cutoff force event target row o t).1
  unfolding enqueue_target coalesce_row
  enqueue_target-IsValidOutbox target none o t v = enqueue_keyed-IsValidOutbox target _ o t refl v
  enqueue_target-IsValidOutbox target (some row) o t v =
      update-IsValidOutbox _ (coalesce_row now event) o (λ j. (refl, refl))
        (λ j _ h. coalesce_row-IsValidJob now o.next_id event j h) v

  enqueue_targets-IsValidOutbox :
      (targets : List Text) (o : Outbox) (t : Tally)
      → IsValidOutbox o
      → IsValidOutbox (enqueue_targets config now cutoff force event targets o t).1
  unfolding enqueue_targets
  enqueue_targets-IsValidOutbox [] o t v = v
  enqueue_targets-IsValidOutbox (target ∷ rest) o t v =
      enqueue_targets-IsValidOutbox rest _ _ (enqueue_target-IsValidOutbox target _ o t v)

  -- Enqueueing keeps the table well formed: no event gets two rows for one target.
  pub enqueue-IsValidOutbox :
      (targets : List Text) (o : Outbox)
      → IsValidOutbox o
      → IsValidOutbox (enqueue_fanout_outbox config now cutoff force event targets o).1
  unfolding enqueue_fanout_outbox
  enqueue-IsValidOutbox targets o v = enqueue_targets-IsValidOutbox _ o zero_tally v
