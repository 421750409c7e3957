-- ===== src/Tests/OutboxRuns.antt =====
-- The outbox's theorems at work.
use context_lattice.Prelude.{
  All, [], arith, codes, contains, count, false, find, has_key, inl, inr, length, map, max, min,
  none, order_by, refl, select, some, text_eq, true, update_where, ◌+◌, ◌∷◌, ◌≡◌,
}
use context_lattice.Clock.{iso_leb, iso_rank}
use context_lattice.Outbox.{Job, empty_outbox, find_job, same_id, set_job}
use context_lattice.Outbox.Enqueue.{
  coalesced_job, coalescer_active, dedupe_key_of, enqueue_existing, enqueue_fanout_outbox,
  enqueue_keyed, enqueue_new, enqueue_target, enqueue_targets, known_targets, new_job, requeue_row,
}
use context_lattice.Outbox.Batch.{
  any_target, claim_fanout_batch, claim_rows, due_jobs, is_due_job, job_le, only_target, take_row,
  target_filter,
}
use context_lattice.Outbox.Mark.{
  backoff, bounded_backoff, is_abandoned, is_spent, jitter_bound, mark_fanout_retry, recover_row,
  recover_stale_running_jobs, retry_job_row,
}
use context_lattice.Outbox.Retention.{Retention, fanout_outbox_gc}
use context_lattice.Outbox.Invariant.{IsValidOutbox}
use context_lattice.Outbox.Counting.{PutBack, counted, enqueue_count_lem}
use context_lattice.Outbox.Ready.{is_ready}
use context_lattice.Outbox.Taking.{taken}
use context_lattice.Outbox.Claiming.{IsTaken, batches-disjoint, claim_batch_exact}
use context_lattice.Outbox.Sweeping.{gc_exact, is_collected}
use context_lattice.Outbox.Reaching.{
  batch, enqueueing, reachable_outbox-IsValidOutbox, run_outbox, start, then_run,
}
use context_lattice.Outbox.Settling.{Resumed, RetryOutcome, recover_stale-exact, retry-outcome}
use context_lattice.Outbox.Repeating.{IsPresent, enqueue_twice}
use context_lattice.Tests.Fanout.{
  event, outbox, outbox-IsValidOutbox, outbox_config, running_job, waiting_job,
}

outbox_program : Unit {0}
unfolding claim_fanout_batch claim_rows due_jobs is_due_job job_le take_row target_filter find_job
    set_job mark_fanout_retry retry_job_row recover_stale_running_jobs recover_row is_abandoned
    enqueue_fanout_outbox enqueue_targets known_targets enqueue_target enqueue_keyed enqueue_new
    enqueue_existing new_job requeue_row coalesced_job coalescer_active dedupe_key_of backoff
    bounded_backoff jitter_bound is_spent iso_leb iso_rank find update_where select order_by text_eq
    has_key count contains run_outbox is_collected fanout_outbox_gc
outbox_program = tt

claim_batch_exact_example :
    let rows = due_jobs 2_000_000 5 any_target outbox.jobs in
    let r = claim_fanout_batch 2_000_000 5 none none outbox in
    (r.0 ≡ map (taken 2_000_000) rows)
    × All (IsTaken 2_000_000 none none outbox (r.1)) rows
    × (length rows ≡ min (max 1 (min 5 256)) (count (is_ready 2_000_000 none none) outbox.jobs))
unfolding outbox_program
claim_batch_exact_example = claim_batch_exact 2_000_000 5 none none outbox outbox-IsValidOutbox

batches-disjoint_example :
    All
      (λ j. same_id j.id 1 ≡ false)
      (due_jobs 3_000_000 8
        (only_target (codes "qdrant"))
        (claim_fanout_batch 2_000_000 5 none none outbox).1.jobs)
unfolding outbox_program
batches-disjoint_example =
    batches-disjoint 2_000_000 5 3_000_000 8 none none (some (codes "qdrant")) none outbox
      waiting_job outbox-IsValidOutbox (inl refl)

reachable_outbox-IsValidOutbox_example : IsValidOutbox (
    run_outbox outbox_config
      (batch 2_000_000 5 none none)
      (run_outbox outbox_config (enqueueing 9 4 false event (codes "letta" ∷ [])) empty_outbox))
reachable_outbox-IsValidOutbox_example = reachable_outbox-IsValidOutbox outbox_config _ (
    then_run (batch 2_000_000 5 none none)
      (then_run (enqueueing 9 4 false event (codes "letta" ∷ [])) start))

enqueue_count_example :
    let r =
      enqueue_fanout_outbox outbox_config 9 4 true event (codes "letta" ∷ codes "x" ∷ []) outbox in
    (counted (r.0) ≡ 1)
    × (length (r.1).jobs ≡ 2 + (r.0).inserted)
    × ((r.0).requeued ≡ (r.0).existing)
    × PutBack true event (codes "letta" ∷ []) (r.1)
unfolding outbox_program
enqueue_count_example =
    enqueue_count_lem outbox_config 9 4 true event (codes "letta" ∷ codes "x" ∷ []) outbox

enqueue_twice_example :
    let first =
      enqueue_fanout_outbox outbox_config 9 4 false event (codes "letta" ∷ []) empty_outbox in
    let again =
      enqueue_fanout_outbox outbox_config 19 14 false event (codes "letta" ∷ []) (first.1) in
    All
      (λ target. IsPresent (dedupe_key_of (codes "e") target) (first.1))
      (select (contains outbox_config.targets) (codes "letta" ∷ []))
    × (again.1 ≡ first.1)
    × ((again.0).existing ≡ count (contains outbox_config.targets) (codes "letta" ∷ []))
enqueue_twice_example =
    enqueue_twice outbox_config 9 4 19 14 false event (codes "letta" ∷ []) empty_outbox refl

retry-outcome_example :
    let r = mark_fanout_retry outbox_config 40 41 7 running_job (codes "err") outbox in
    (j : Job) × (find_job 2 (r.1) ≡ some j)
    × (j.attempts ≡ 3)
    × (r.0 ≡ j.status)
    × RetryOutcome true 40 41 61_000_000 j
    × (find_job 1 (r.1) ≡ find_job 1 outbox)
unfolding outbox_program
retry-outcome_example =
    retry-outcome outbox_config 40 41 7 running_job (codes "err") outbox 1 (omega arith) refl refl

recover_stale-exact_example :
    let r = recover_stale_running_jobs 2_000_000 1_500_000 outbox in
    (r.0 ≡ 1) × ((u : Job) × (find_job 2 (r.1) ≡ some u) × Resumed 2_000_000 true running_job u)
unfolding outbox_program
recover_stale-exact_example =
    recover_stale-exact 2_000_000 1_500_000 outbox running_job outbox-IsValidOutbox (inr (inl refl))

abbrev retention : Retention
retention = record {
  succeeded_cutoff = 0;
  failed_cutoff = 0;
  stale_cutoff = 9_000_000;
  stale_targets = codes "letta" ∷ [];
  run_vacuum = false;
  vacuum_min_deleted = 0;
}

gc_exact_example :
    let (sweep, after) = fanout_outbox_gc retention none 7 4 outbox in
    (after.jobs ≡ waiting_job ∷ [])
    × (length after.jobs + sweep.deleted_total ≡ 2)
    × (sweep.deleted_succeeded + sweep.deleted_failed + sweep.deleted_stale ≡ sweep.deleted_total)
    × (sweep.before_total ≡ 7)
    × (sweep.after_total ≡ 4)
    × IsValidOutbox after
unfolding outbox_program
gc_exact_example = gc_exact retention none 7 4 outbox outbox-IsValidOutbox
