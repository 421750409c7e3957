-- ===== src/Outbox/Retention.antt =====
-- The retention sweep: `_outbox_gc_cutoff_iso`'s cutoffs and `_fanout_outbox_gc_sqlite`.
use context_lattice.Prelude.{
  Bool, List, Option, Text, [], contains, count, false, if◌then◌else◌, is_nil, is_some, leb, not,
  or_else, select, true, ℕ, ◌&&◌, ◌+◌,
}
use context_lattice.Clock.{iso_leb}
use context_lattice.Outbox.{Job, JobStatus, Outbox, failed, is_open, succeeded}

-- The retention times have become the cutoffs that `_outbox_gc_cutoff_iso` gives.
pub record Retention : Type 0 where
  pub succeeded_cutoff : ℕ
  pub failed_cutoff : ℕ
  pub stale_cutoff : ℕ
  pub stale_targets : List Text
  pub run_vacuum : Bool
  pub vacuum_min_deleted : ℕ

pub record Sweep : Type 0 where
  pub before_total : ℕ
  pub after_total : ℕ
  pub deleted_total : ℕ
  pub deleted_succeeded : ℕ
  pub deleted_failed : ℕ
  pub deleted_stale : ℕ
  pub vacuum_ran : Bool
  pub vacuum_error : Text

-- `completed_at < ?` on the stored texts
abbrev pub older : ℕ → ℕ → Bool
older at cutoff = not (iso_leb cutoff at)

-- `COALESCE(completed_at, updated_at, created_at)`; `updated_at` is never NULL.
abbrev pub ended_at : Job → ℕ
ended_at j = or_else j.completed_at j.updated_at

abbrev pub tried_at : Job → ℕ
tried_at j = or_else j.last_attempt_at j.updated_at

abbrev pub is_succeeded_job : JobStatus → Bool
is_succeeded_job succeeded = true
is_succeeded_job _ = false

abbrev pub is_failed_job : JobStatus → Bool
is_failed_job failed = true
is_failed_job _ = false

unfoldable pub old_success : Retention → Job → Bool
old_success r j = is_succeeded_job j.status && older (ended_at j) r.succeeded_cutoff

unfoldable pub old_failure : Retention → Job → Bool
old_failure r j = is_failed_job j.status && older (ended_at j) r.failed_cutoff

unfoldable pub stale_open : Retention → Job → Bool
stale_open r j =
    contains r.stale_targets j.target && is_open j.status && older (tried_at j) r.stale_cutoff

-- `DELETE FROM fanout_outbox WHERE p`, with its row count.
unfoldable pub delete_jobs : (Job → Bool) → List Job → List Job × ℕ
delete_jobs p jobs = (select (λ j. not (p j)) jobs, count p jobs)

unfoldable pub delete_stale : Retention → List Job → List Job × ℕ
unfolding delete_jobs
delete_stale r jobs = if is_nil r.stale_targets then (jobs, 0) else delete_jobs (stale_open r) jobs

-- `vacuum` is what the statement VACUUM raises, if it raises; `before` and `after` are the numbers of
-- rows that are counted before the transaction and after it, when other tasks may have run.
unfoldable pub fanout_outbox_gc :
    Retention → Option Text → (before after : ℕ) → Outbox → Sweep × Outbox
unfolding delete_jobs delete_stale
fanout_outbox_gc r vacuum before after o =
    let (kept, n_succeeded) = delete_jobs (old_success r) o.jobs in
    let (kept', n_failed) = delete_jobs (old_failure r) kept in
    let (kept'', n_stale) = delete_stale r kept' in
    let deleted = n_succeeded + n_failed + n_stale in
    let wanted = r.run_vacuum && leb r.vacuum_min_deleted deleted in
    (
      record {
        before_total = before;
        after_total = after;
        deleted_total = deleted;
        deleted_succeeded = n_succeeded;
        deleted_failed = n_failed;
        deleted_stale = n_stale;
        vacuum_ran = wanted && not (is_some vacuum);
        vacuum_error = if wanted then or_else vacuum [] else [];
      },
      record o { jobs = kept'' },
    )
