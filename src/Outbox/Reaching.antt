-- ===== src/Outbox/Reaching.antt =====
-- Sequences of operations on the outbox.
use context_lattice.Prelude.{Bool, List, Option, Text, ℕ}
use context_lattice.Outbox.{Job, Outbox, OutboxConfig, empty_outbox}
use context_lattice.Outbox.Enqueue.{FanoutEvent, enqueue_fanout_outbox}
use context_lattice.Outbox.Batch.{claim_fanout_batch}
use context_lattice.Outbox.Mark.{
  fail_letta_backlog, mark_fanout_failed, mark_fanout_retry, mark_fanout_success,
  recover_stale_running_jobs,
}
use context_lattice.Outbox.Retention.{Retention, fanout_outbox_gc}
use context_lattice.Outbox.Invariant.{IsValidOutbox}
use context_lattice.Outbox.Preservation.{
  backlog-IsValidOutbox, claim_batch-IsValidOutbox, enqueue-IsValidOutbox, failed-IsValidOutbox,
  recover_stale-IsValidOutbox, retry-IsValidOutbox, success-IsValidOutbox,
}
use context_lattice.Outbox.Sweeping.{gc_exact}

pub data OutboxOperation : Type 0 where
  enqueueing :
      (now cutoff : ℕ) (force : Bool) (event : FanoutEvent) (targets : List Text) → OutboxOperation
  batch : (now limit : ℕ) (target exclude_target : Option Text) → OutboxOperation
  success : (now i : ℕ) → OutboxOperation
  failure : (now i : ℕ) (error : Text) → OutboxOperation
  retrial : (now later jitter : ℕ) (job : Job) (error : Text) → OutboxOperation
  backlog_failure : (now : ℕ) (error : Text) → OutboxOperation
  stale_recovery : (now cutoff : ℕ) → OutboxOperation
  collection : (r : Retention) (vacuum : Option Text) (before left : ℕ) → OutboxOperation

module _ (config : OutboxConfig) where
  unfoldable pub run_outbox : OutboxOperation → Outbox → Outbox
  run_outbox (enqueueing now cutoff force event targets) o =
      (enqueue_fanout_outbox config now cutoff force event targets o).1
  run_outbox (batch now limit target exclude_target) o =
      (claim_fanout_batch now limit target exclude_target o).1
  run_outbox (success now i) o = mark_fanout_success now i o
  run_outbox (failure now i error) o = mark_fanout_failed now i error o
  run_outbox (retrial now later jitter job error) o =
      (mark_fanout_retry config now later jitter job error o).1
  run_outbox (backlog_failure now error) o = (fail_letta_backlog config now error o).1
  run_outbox (stale_recovery now cutoff) o = (recover_stale_running_jobs now cutoff o).1
  run_outbox (collection r vacuum before left) o = (fanout_outbox_gc r vacuum before left o).1

  -- The tables that operations reach from `o`.
  pub data ReachOutbox (o : Outbox) : Outbox → Type 0 where
    start : ReachOutbox o o
    then_run :
        {before : Outbox} (x : OutboxOperation)
        → ReachOutbox o before
        → ReachOutbox o (run_outbox x before)

  pub run_outbox-IsValidOutbox :
      (x : OutboxOperation) (o : Outbox) → IsValidOutbox o → IsValidOutbox (run_outbox x o)
  unfolding run_outbox
  run_outbox-IsValidOutbox (enqueueing now cutoff force event targets) o v =
      enqueue-IsValidOutbox config now cutoff force event targets o v
  run_outbox-IsValidOutbox (batch now limit target exclude_target) o v =
      claim_batch-IsValidOutbox now limit target exclude_target o v
  run_outbox-IsValidOutbox (success now i) o v = success-IsValidOutbox now i o v
  run_outbox-IsValidOutbox (failure now i error) o v = failed-IsValidOutbox now i error o v
  run_outbox-IsValidOutbox (retrial now later jitter job error) o v =
      retry-IsValidOutbox config now later jitter job error o v
  run_outbox-IsValidOutbox (backlog_failure now error) o v =
      backlog-IsValidOutbox config now error o v
  run_outbox-IsValidOutbox (stale_recovery now cutoff) o v =
      recover_stale-IsValidOutbox now cutoff o v
  run_outbox-IsValidOutbox (collection r vacuum before left) o v =
      (gc_exact r vacuum before left o v).5

  pub reach-IsValidOutbox :
      (from to : Outbox) → IsValidOutbox from → ReachOutbox from to → IsValidOutbox to
  reach-IsValidOutbox from to v start = v
  reach-IsValidOutbox from to v (then_run {before = b} x r) =
      run_outbox-IsValidOutbox x b (reach-IsValidOutbox from b v r)

  -- In every table that operations reach from the empty one, ids are distinct and below the next id, no
  -- event has two rows for one target (dedupe keys are distinct), running jobs have the time of their
  -- attempt, and jobs that succeeded or failed have the time of their end.
  pub reachable_outbox-IsValidOutbox : (o : Outbox) → ReachOutbox empty_outbox o → IsValidOutbox o
  reachable_outbox-IsValidOutbox o r =
      reach-IsValidOutbox empty_outbox o (record { rows = tt; keys = tt; dedupe = tt }) r
