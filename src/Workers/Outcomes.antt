-- ===== src/Workers/Outcomes.antt =====
-- However a job ends, its row leaves "running", and the table changes by operations of the outbox.
use mathlib.Core.Bool.{false≢true}
use mathlib.Core.Path.{subst}
use context_lattice.Prelude.{
  Bool, Bool-cases, Option, Text, arith, false, if◌then◌else◌, inl, inr, none, refl, some, sym,
  text_eq_sound, true, ℕ, ◌≡◌,
}
use context_lattice.Outbox.{Job, Outbox}
use context_lattice.Outbox.Mark.{
  fail_letta_backlog, failed_row, mark_fanout_failed, mark_fanout_retry, mark_fanout_success,
  retry_job_row, success_row,
}
use context_lattice.Workers.{
  Raised, WorkerConfig, WorkerState, error_text, is_letta_permanent_error,
  record_letta_transient_failure, reset_letta_transient_error_streak, set_letta_runtime_disabled,
}
use context_lattice.Workers.Errors.{
  Moments, count_success, handle_fanout_job_error, handle_mindsdb_permanent, handle_transient,
  is_letta_job, mark_fanout_job_success, note_error, retry_job, shut_letta,
}
use context_lattice.Workers.Turn.{Surroundings, settle_job}
use context_lattice.Workers.Effects.{HasTarget, IsQuiet}
use context_lattice.Workers.Steps.{
  Effect, backlog-Effect, backlog-IsQuiet, failed-Effect, retry-Effect, retry_status,
  set_job-IsQuiet, success-Effect,
}

module _ (config : WorkerConfig) where
  -- What settling `job` does to the table, where it has the row of `job`.
  pub record Settles (job : Job) (o o' : Outbox) : Type 0 where
    pub effect : Effect config o o'
    pub quiet : HasTarget job.id job.target o.jobs → IsQuiet job.id o'.jobs

  count_success-Settles :
      (now : ℕ) (job : Job) (s : WorkerState)
      → Settles job s.outbox (count_success now job s).outbox
  unfolding count_success mark_fanout_success success_row
  count_success-Settles now job s = record {
    effect = success-Effect config now job.id s.outbox;
    quiet = λ _. set_job-IsQuiet config job.id (success_row now) s.outbox (λ j. (refl, refl));
  }

  if-Settles :
      (b : Bool) (job : Job) (o : Outbox) (s t : WorkerState)
      → (b ≡ true → Settles job o s.outbox)
      → Settles job o t.outbox
      → Settles job o (if b then s else t).outbox
  if-Settles true job o s t h k = h refl
  if-Settles false job o s t h k = k

  success-Settles :
      (now : ℕ) (job : Job) (s : WorkerState)
      → Settles job s.outbox (mark_fanout_job_success config now job s).outbox
  unfolding mark_fanout_job_success reset_letta_transient_error_streak
  success-Settles now job s = elim (Bool-cases (is_letta_job config job)) [
    | inl e ↦ rw e (count_success-Settles now job (reset_letta_transient_error_streak s))
    | inr e ↦ rw e (count_success-Settles now job s)
  ]

  disabled-outbox :
      (reason : Text) (s : WorkerState) → (set_letta_runtime_disabled reason s).outbox ≡ s.outbox
  unfolding set_letta_runtime_disabled
  disabled-outbox reason s = ground arith

  shut-Settles :
      (now : ℕ) (reason : Text) (job : Job) (s : WorkerState)
      → is_letta_job config job ≡ true
      → Settles job s.outbox (shut_letta config now reason s).outbox
  unfolding shut_letta
  shut-Settles now reason job s e =
      subst (λ o. Settles job s.outbox (fail_letta_backlog config.fanout now reason o).1)
        (sym (disabled-outbox reason s))
        (record {
          effect = backlog-Effect config now reason s.outbox;
          quiet = λ h. backlog-IsQuiet config job.id now reason s.outbox (
              subst (λ t. HasTarget job.id t s.outbox.jobs)
                (text_eq_sound job.target config.fanout.letta e) h);
        })

  retry-Settles :
      (m : Moments) (job : Job) (text : Text) (s : WorkerState)
      → Settles job s.outbox (retry_job config m job text s).outbox
  unfolding retry_job mark_fanout_retry retry_job_row
  retry-Settles m job text s = record {
    effect = retry-Effect config m job text s.outbox;
    quiet = λ _.
        set_job-IsQuiet config job.id (retry_job_row config.fanout m.now m.later m.jitter text job)
          s.outbox (λ j. (refl, retry_status config m job text j));
  }

  mindsdb-Settles :
      (m : Moments) (job : Job) (text : Text) (s : WorkerState)
      → Settles job s.outbox (handle_mindsdb_permanent config m job text s).outbox
  unfolding handle_mindsdb_permanent mark_fanout_failed failed_row
  mindsdb-Settles m job text s =
      if-Settles config.mindsdb_fail_open_on_permanent_error job s.outbox _ _
        (λ _. count_success-Settles m.now job s)
        (record {
          effect = failed-Effect config m.now job.id text s.outbox;
          quiet = λ _.
              set_job-IsQuiet config job.id (failed_row m.now text) s.outbox (λ j. (refl, refl));
        })

  transient-Settles :
      (m : Moments) (job : Job) (text : Text) (tripped : Bool) (s : WorkerState)
      → (tripped ≡ true → is_letta_job config job ≡ true)
      → Settles job s.outbox (handle_transient config m job text (tripped, s)).outbox
  unfolding handle_transient
  transient-Settles m job text tripped s k =
      if-Settles tripped job s.outbox _ _ (λ e. shut-Settles m.now _ job s (k e))
        (if-Settles _ job s.outbox _ _ (λ _. mindsdb-Settles m job text s)
          (retry-Settles m job text s))

  recorded-outbox :
      (text : Text) (s : WorkerState)
      → (record_letta_transient_failure config text s).1.outbox ≡ s.outbox
  unfolding record_letta_transient_failure reset_letta_transient_error_streak
  recorded-outbox text s = ground arith

  recorded-Settles :
      (m : Moments) (job : Job) (text : Text) (s : WorkerState)
      → is_letta_job config job ≡ true
      → Settles job s.outbox
          (handle_transient config m job text (record_letta_transient_failure config text s)).outbox
  recorded-Settles m job text s e =
      let r = record_letta_transient_failure config text s in
      subst (λ o. Settles job o (handle_transient config m job text r).outbox)
        (recorded-outbox text s) (transient-Settles m job text (r.0) (r.1) (λ _. e))

  error-Settles :
      (m : Moments) (job : Job) (exc : Raised) (s : WorkerState)
      → Settles job s.outbox (handle_fanout_job_error config m job exc s).outbox
  unfolding handle_fanout_job_error reset_letta_transient_error_streak
  error-Settles m job exc s =
      let text = error_text exc in
      let s' = note_error text s in
      elim (Bool-cases (is_letta_job config job)) [
        | inl e ↦ rw e (
            if-Settles (is_letta_permanent_error text) job s.outbox _ _
              (λ _. shut-Settles m.now text job s' e) (recorded-Settles m job text s' e))
        | inr e ↦ rw e (
            transient-Settles m job (error_text exc) false (note_error (error_text exc) s)
              (λ f. absurd (false≢true f)))
      ]

  -- However a job ends, it is settled.
  pub settle-Settles :
      (w : Surroundings) (outcome : Option Raised) (job : Job) (s : WorkerState)
      → Settles job s.outbox (settle_job config w outcome job s).outbox
  unfolding settle_job
  settle-Settles w none job s = success-Settles (w.moments job).now job s
  settle-Settles w (some exc) job s = error-Settles (w.moments job) job exc s
