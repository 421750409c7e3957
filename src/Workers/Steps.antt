-- ===== src/Workers/Steps.antt =====
-- Settling a job runs operations of the outbox, and takes the job out of "running".
use context_lattice.Prelude.{
  All, Bool, List, Text, [], arith, false, has_key, not, refl, ℕ, ◌&&◌, ◌∷◌, ◌≡◌,
}
use context_lattice.Outbox.{
  Job, JobStatus, Outbox, failed, has_job_id, is_open, is_running_job, pending, retrying, running,
  same_id, set_job, succeeded,
}
use context_lattice.Outbox.Mark.{
  fail_letta_backlog, failed_row, in_backlog, mark_fanout_failed, mark_fanout_retry,
  mark_fanout_success, retry_job_row, success_row,
}
use context_lattice.Outbox.Reaching.{
  OutboxOperation, ReachOutbox, backlog_failure, failure, retrial, run_outbox, start, success,
  then_run,
}
use context_lattice.Workers.{WorkerConfig}
use context_lattice.Workers.Errors.{Moments}
use context_lattice.Workers.Effects.{
  HasTarget, IsQuiet, Moved, Moved-refl, Moved-trans, Moved-update, update-IsQuiet,
}

module _ (config : WorkerConfig) where
  -- The second table comes from the first by operations of the outbox that only move rows.
  pub record Effect (o o' : Outbox) : Type 0 where
    pub reach : ReachOutbox config.fanout o o'
    pub moved : Moved o.jobs o'.jobs

  pub Effect-refl : (o : Outbox) → Effect o o
  Effect-refl o = record { reach = start; moved = Moved-refl o.jobs }

  reach_trans :
      (o o' o'' : Outbox)
      → ReachOutbox config.fanout o o'
      → ReachOutbox config.fanout o' o''
      → ReachOutbox config.fanout o o''
  reach_trans o o' o'' r start = r
  reach_trans o o' o'' r (then_run {before = b} x q) = then_run x (reach_trans o o' b r q)

  pub Effect-trans : {o o' o'' : Outbox} → Effect o o' → Effect o' o'' → Effect o o''
  Effect-trans {o} {o'} {o''} a b = record {
    reach = reach_trans o o' o'' a.reach b.reach;
    moved = Moved-trans o.jobs o'.jobs o''.jobs a.moved b.moved;
  }

  one_operation :
      (x : OutboxOperation) (o : Outbox)
      → ReachOutbox config.fanout o (run_outbox config.fanout x o)
  one_operation x o = then_run x start

  -- What each operation of a worker does.
  pub success-Effect : (now i : ℕ) (o : Outbox) → Effect o (mark_fanout_success now i o)
  unfolding mark_fanout_success set_job run_outbox success_row
  success-Effect now i o = record {
    reach = one_operation (success now i) o;
    moved = Moved-update (has_job_id i) (success_row now) o.jobs (λ j. (refl, refl, refl));
  }

  pub failed-Effect :
      (now i : ℕ) (text : Text) (o : Outbox) → Effect o (mark_fanout_failed now i text o)
  unfolding mark_fanout_failed set_job run_outbox failed_row
  failed-Effect now i text o = record {
    reach = one_operation (failure now i text) o;
    moved = Moved-update (has_job_id i) (failed_row now text) o.jobs (λ j. (refl, refl, refl));
  }

  pub backlog-Effect :
      (now : ℕ) (text : Text) (o : Outbox)
      → Effect o (fail_letta_backlog config.fanout now text o).1
  unfolding fail_letta_backlog run_outbox failed_row
  backlog-Effect now text o = record {
    reach = one_operation (backlog_failure now text) o;
    moved =
        Moved-update (in_backlog config.fanout) (failed_row now text) o.jobs
          (λ j. (refl, refl, refl));
  }

  pub retry_status :
      (m : Moments) (job : Job) (text : Text) (j : Job)
      → is_running_job (retry_job_row config.fanout m.now m.later m.jitter text job j).status
        ≡ false
  unfolding retry_job_row
  retry_status m job text j = ground arith

  pub retry-Effect :
      (m : Moments) (job : Job) (text : Text) (o : Outbox)
      → Effect o (mark_fanout_retry config.fanout m.now m.later m.jitter job text o).1
  unfolding mark_fanout_retry set_job run_outbox retry_job_row
  retry-Effect m job text o = record {
    reach = one_operation (retrial m.now m.later m.jitter job text) o;
    moved =
        Moved-update (has_job_id job.id)
          (retry_job_row config.fanout m.now m.later m.jitter text job) o.jobs
          (λ j. (refl, refl, retry_status m job text j));
  }

  -- The job's own row stops running.
  own_row :
      (i : ℕ) (js : List Job)
      → All (λ r. (same_id r.id i && is_running_job r.status && not (has_job_id i r)) ≡ false) js
  unfolding has_key
  own_row i [] = tt
  own_row i (j ∷ js) = (ground arith, own_row i js)

  pub set_job-IsQuiet :
      (i : ℕ) (f : Job → Job) (o : Outbox)
      → ((j : Job) → ((f j).id ≡ j.id) × (is_running_job (f j).status ≡ false))
      → IsQuiet i (set_job i f o).jobs
  unfolding set_job
  set_job-IsQuiet i f o k = update-IsQuiet i (has_job_id i) f o.jobs k (own_row i o.jobs)

  backlog_row :
      (a b : Bool) (s : JobStatus)
      → (a && not b) ≡ false
      → (a && is_running_job s && not (b && is_open s)) ≡ false
  backlog_row a b running e = ground arith
  backlog_row a b pending e = ground arith
  backlog_row a b retrying e = ground arith
  backlog_row a b succeeded e = ground arith
  backlog_row a b failed e = ground arith

  backlog_rows :
      (i : ℕ) (js : List Job)
      → HasTarget i config.fanout.letta js
      → All
          (λ r.
            (same_id r.id i && is_running_job r.status && not (in_backlog config.fanout r)) ≡ false)
          js
  backlog_rows i [] h = tt
  backlog_rows i (j ∷ js) h = (backlog_row (same_id j.id i) _ j.status h.0, backlog_rows i js h.1)

  pub backlog-IsQuiet :
      (i now : ℕ) (text : Text) (o : Outbox)
      → HasTarget i config.fanout.letta o.jobs
      → IsQuiet i ((fail_letta_backlog config.fanout now text o).1).jobs
  unfolding fail_letta_backlog failed_row
  backlog-IsQuiet i now text o h =
      update-IsQuiet i (in_backlog config.fanout) (failed_row now text) o.jobs (λ j. (refl, refl))
        (backlog_rows i o.jobs h)
