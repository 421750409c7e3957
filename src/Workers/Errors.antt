-- ===== src/Workers/Errors.antt =====
-- How a worker settles one job: `_mark_fanout_job_success` and `_handle_fanout_job_error`.
use context_lattice.Prelude.{
  Bool, Text, codes, false, if◌then◌else◌, some, take, text_eq, ℕ, ◌&&◌, ◌++◌, ◌+◌,
}
use context_lattice.Json.{decimal}
use context_lattice.Outbox.{Job, Outbox}
use context_lattice.Outbox.Mark.{
  fail_letta_backlog, mark_fanout_failed, mark_fanout_retry, mark_fanout_success,
}
use context_lattice.Workers.{
  Raised, WorkerConfig, WorkerState, error_text, is_letta_permanent_error,
  is_mindsdb_permanent_error, record_letta_transient_failure, reset_letta_transient_error_streak,
  set_letta_runtime_disabled,
}

-- What the clock and `random` give while one job is settled.
pub record Moments : Type 0 where
  pub now : ℕ
  pub later : ℕ
  pub jitter : ℕ

unfoldable pub with_outbox : WorkerState → Outbox → WorkerState
with_outbox s o = record s { outbox = o }

abbrev pub is_letta_job : WorkerConfig → Job → Bool
is_letta_job config job = text_eq job.target config.fanout.letta

unfoldable pub count_success : ℕ → Job → WorkerState → WorkerState
count_success now job s = record s {
  outbox = mark_fanout_success now job.id s.outbox;
  memory_write_queue_processed = s.memory_write_queue_processed + 1;
}

unfoldable pub mark_fanout_job_success : WorkerConfig → ℕ → Job → WorkerState → WorkerState
unfolding count_success
mark_fanout_job_success config now job s =
    count_success now job
      (if is_letta_job config job then reset_letta_transient_error_streak s else s)

-- `f"persistent Letta server errors ({streak} consecutive): {error_text[:180]}"`
unfoldable pub streak_reason : ℕ → Text → Text
streak_reason streak text =
    codes "persistent Letta server errors ("
    ++ decimal streak
    ++ codes " consecutive): "
    ++ take 180 text

-- `_set_letta_runtime_disabled(reason)` and `fail_letta_backlog(reason)`
unfoldable pub shut_letta : WorkerConfig → ℕ → Text → WorkerState → WorkerState
unfolding with_outbox
shut_letta config now reason s =
    let s' = set_letta_runtime_disabled reason s in
    with_outbox s' (fail_letta_backlog config.fanout now reason s'.outbox).1

unfoldable pub handle_mindsdb_permanent :
    WorkerConfig → Moments → Job → Text → WorkerState → WorkerState
unfolding with_outbox count_success
handle_mindsdb_permanent config m job text s =
    if config.mindsdb_fail_open_on_permanent_error
    then count_success m.now job s
    else with_outbox s (mark_fanout_failed m.now job.id text s.outbox)

unfoldable pub retry_job : WorkerConfig → Moments → Job → Text → WorkerState → WorkerState
unfolding with_outbox
retry_job config m job text s =
    with_outbox s (mark_fanout_retry config.fanout m.now m.later m.jitter job text s.outbox).1

-- The branches after the one on permanent errors of Letta; `tripped` is what
-- `_record_letta_transient_failure` returned, where the code called it.
unfoldable pub handle_transient :
    WorkerConfig → Moments → Job → Text → Bool × WorkerState → WorkerState
unfolding shut_letta handle_mindsdb_permanent retry_job
handle_transient config m job text (tripped, s) =
    if tripped
    then shut_letta config m.now (streak_reason s.letta_transient_error_streak text) s
    else if text_eq job.target config.mindsdb && is_mindsdb_permanent_error text
    then handle_mindsdb_permanent config m job text s
    else retry_job config m job text s

abbrev pub note_error : Text → WorkerState → WorkerState
note_error text s = record s { last_error = some text }

unfoldable pub handle_fanout_job_error :
    WorkerConfig → Moments → Job → Raised → WorkerState → WorkerState
unfolding shut_letta handle_transient
handle_fanout_job_error config m job exc s₀ =
    let text = error_text exc in
    let s = note_error text s₀ in
    if is_letta_job config job && is_letta_permanent_error text
    then reset_letta_transient_error_streak (shut_letta config m.now text s)
    else handle_transient config m job text (
        if is_letta_job config job
        then record_letta_transient_failure config text s
        else (false, s))
