-- ===== src/Outbox/Mark.antt =====
-- What becomes of claimed rows: `mark_fanout_success`, `mark_fanout_failed`, `mark_fanout_retry` with
-- `_backoff_seconds`, `fail_letta_backlog` and `recover_stale_running_jobs`.
use context_lattice.Prelude.{
  Bool, Option, Text, codes, count, if◌then◌else◌, is_empty, leb, min, none, some, take, text_eq,
  true, update_where, ℕ, ◌&&◌, ◌*◌, ◌+◌, ◌-◌, ◌/◌, ◌==◌, ◌^◌,
}
use context_lattice.Clock.{iso_leb}
use context_lattice.Outbox.{
  Job, JobStatus, Outbox, OutboxConfig, failed, is_open, is_running_job, retrying, set_job,
  succeeded,
}

unfoldable pub success_row : ℕ → Job → Job
success_row now j = record j {
  status = succeeded;
  completed_at = some now;
  updated_at = now;
  last_error = none;
}

unfoldable pub mark_fanout_success : ℕ → ℕ → Outbox → Outbox
mark_fanout_success now i o = set_job i (success_row now) o

unfoldable pub failed_row : ℕ → Text → Job → Job
failed_row now error j = record j {
  status = failed;
  next_attempt_at = now;
  completed_at = some now;
  updated_at = now;
  last_error = some (take 2000 error);
}

unfoldable pub mark_fanout_failed : ℕ → ℕ → Text → Outbox → Outbox
mark_fanout_failed now i error o = set_job i (failed_row now error) o

abbrev pub in_backlog : OutboxConfig → Job → Bool
in_backlog config j = text_eq j.target config.letta && is_open j.status

-- The number of rows that were failed, and the table.
unfoldable pub fail_letta_backlog : OutboxConfig → ℕ → Text → Outbox → ℕ × Outbox
fail_letta_backlog config now error o = (
  count (in_backlog config) o.jobs,
  record o { jobs = update_where (in_backlog config) (failed_row now error) o.jobs },
)

-- `_backoff_seconds` without its jitter, which `random.uniform` draws between zero and the bound below.
unfoldable pub bounded_backoff : OutboxConfig → ℕ → ℕ
bounded_backoff config attempt = min (config.retry_base * 2 ^ (attempt - 1)) config.retry_max

unfoldable pub jitter_bound : OutboxConfig → ℕ → ℕ
jitter_bound config attempt = min 1_000_000 (bounded_backoff config attempt / 5)

unfoldable pub backoff : OutboxConfig → ℕ → ℕ → ℕ
backoff config attempt jitter = bounded_backoff config attempt + jitter

-- `int(job.get("max_attempts") or FANOUT_MAX_ATTEMPTS)`
abbrev pub job_limit : OutboxConfig → Job → ℕ
job_limit config job = if job.max_attempts == 0 then config.max_attempts else job.max_attempts

unfoldable pub is_spent : OutboxConfig → Job → Bool
is_spent config job = leb (job_limit config job) job.attempts

-- `job` is the row as the worker has it; `later` is the moment at which the delay is added.
unfoldable pub retry_job_row : OutboxConfig → ℕ → ℕ → ℕ → Text → Job → Job → Job
retry_job_row config now later jitter error job j = record j {
  status = if is_spent config job then failed else retrying;
  next_attempt_at = if is_spent config job then now else later + backoff config job.attempts jitter;
  updated_at = now;
  last_error = some (take 2000 error);
  completed_at = if is_spent config job then some now else j.completed_at;
}

unfoldable pub mark_fanout_retry :
    OutboxConfig → ℕ → ℕ → ℕ → Job → Text → Outbox → JobStatus × Outbox
mark_fanout_retry config now later jitter job error o = (
  if is_spent config job then failed else retrying,
  set_job job.id (retry_job_row config now later jitter error job) o,
)

abbrev pub is_stale : ℕ → Option ℕ → Bool
is_stale cutoff none = true
is_stale cutoff (some at) = iso_leb at cutoff

unfoldable pub is_abandoned : ℕ → Job → Bool
is_abandoned cutoff j = is_running_job j.status && is_stale cutoff j.last_attempt_at

abbrev pub missing_error : Option Text → Bool
missing_error none = true
missing_error (some e) = is_empty e

unfoldable pub recover_row : ℕ → Job → Job
recover_row now j = record j {
  status = retrying;
  next_attempt_at = now;
  updated_at = now;
  last_error =
      if missing_error j.last_error
      then some (codes "Recovered stale running fanout job after worker restart")
      else j.last_error;
}

unfoldable pub recover_stale_running_jobs : ℕ → ℕ → Outbox → ℕ × Outbox
recover_stale_running_jobs now cutoff o = (
  count (is_abandoned cutoff) o.jobs,
  record o { jobs = update_where (is_abandoned cutoff) (recover_row now) o.jobs },
)
