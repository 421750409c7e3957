-- ===== src/Outbox/Counting.antt =====
-- What `enqueue_fanout_outbox` reports, and that an event that is enqueued twice has one row for each
-- target.
use mathlib.Core.Bool.{false≢true}
use context_lattice.Prelude.{
  All, Bool, List, Option, Text, [], arith, contains, count, false, if◌then◌else◌, length,
  length-append, length-select, length-update_where, none, refl, select, some, suc, sym, true, ℕ,
  ◌&&◌, ◌+◌, ◌∙◌, ◌∷◌, ◌≡◌,
}
use context_lattice.Outbox.{Job, Outbox, OutboxConfig, has_job_id, is_waiting_job, set_job}
use context_lattice.Outbox.Enqueue.{
  FanoutEvent, Tally, coalesce_row, dedupe_key_of, enqueue_existing, enqueue_fanout_outbox,
  enqueue_keyed, enqueue_new, enqueue_target, enqueue_targets, known_targets, new_job, requeue_row,
  zero_tally,
}
use context_lattice.Outbox.Refreshing.{IsFresh, targets-own-IsFresh}

-- All targets that a tally has counted.
abbrev pub counted : Tally → ℕ
counted t = t.inserted + t.existing + t.coalesced

-- Targets are counted one by one, and a row comes with each insertion.
record Counts (force : Bool) (t : Tally) (o : Outbox) (r : Tally × Outbox) (n : ℕ) : Type 0 where
  all_targets : counted (r.0) ≡ counted t + n
  all_rows : length (r.1).jobs + t.inserted ≡ length o.jobs + (r.0).inserted
  forced : force ≡ true → (r.0).requeued + t.existing ≡ t.requeued + (r.0).existing
  unforced : force ≡ false → (r.0).requeued ≡ t.requeued

Counts-no_targets : (force : Bool) (t : Tally) (o : Outbox) → Counts force t o (t, o) 0
Counts-no_targets force t o = record {
  all_targets = omega arith;
  all_rows = refl;
  forced = λ _. refl;
  unforced = λ _. refl;
}

Counts-trans :
    {force : Bool} {t t' : Tally} {o o' : Outbox} {r : Tally × Outbox} {n : ℕ}
    → Counts force t o (t', o') 1
    → Counts force t' o' r n
    → Counts force t o r (suc n)
Counts-trans c d = record {
  all_targets = omega (arith, c.all_targets, d.all_targets);
  all_rows = omega (arith, c.all_rows, d.all_rows);
  forced = λ e. omega (arith, c.forced e, d.forced e);
  unforced = λ e. d.unforced e ∙ c.unforced e;
}

Counts-requeued :
    (force : Bool) {o : Outbox} {r : Tally × Outbox} {n : ℕ}
    → Counts force zero_tally o r n
    → (r.0).requeued ≡ (if force then (r.0).existing else 0)
Counts-requeued true c = omega (arith, c.forced refl)
Counts-requeued false c = c.unforced refl

existing-Counts :
    (config : OutboxConfig) (now cutoff : ℕ) (force : Bool) (event : FanoutEvent) (row : Job)
    (o : Outbox) (t : Tally)
    → Counts force t o (enqueue_existing config now cutoff force event row o t) 1
unfolding enqueue_existing set_job
existing-Counts config now cutoff false event row o t = record {
  all_targets = omega arith;
  all_rows = refl;
  forced = λ e. absurd (false≢true e);
  unforced = λ _. refl;
}
existing-Counts config now cutoff true event row o t = record {
  all_targets = omega arith;
  all_rows =
      omega (arith, length-update_where (has_job_id row.id) (requeue_row config now event) o.jobs);
  forced = λ _. omega arith;
  unforced = λ e. absurd (false≢true (sym e));
}

-- Where enqueueing is forced, the row of each target waits with the event.
abbrev pub PutBack : Bool → FanoutEvent → List Text → Outbox → Type 0
PutBack false event targets o = Unit
PutBack true event targets o =
    All (λ target. IsFresh event (dedupe_key_of event.event_id target) o) targets

module _ (config : OutboxConfig) (now cutoff : ℕ) (force : Bool) (event : FanoutEvent) where
  keyed-Counts :
      (target : Text) (row : Option Job) (o : Outbox) (t : Tally)
      → Counts force t o (enqueue_keyed config now cutoff force event target row o t) 1
  unfolding enqueue_keyed enqueue_new
  keyed-Counts target none o t = record {
    all_targets = omega arith;
    all_rows = omega (arith, length-append o.jobs (new_job config now event target o.next_id ∷ []));
    forced = λ _. refl;
    unforced = λ _. refl;
  }
  keyed-Counts target (some row) o t = existing-Counts config now cutoff force event row o t

  target-Counts :
      (target : Text) (row : Option Job) (o : Outbox) (t : Tally)
      → Counts force t o (enqueue_target config now cutoff force event target row o t) 1
  unfolding enqueue_target
  target-Counts target none o t = keyed-Counts target _ o t
  target-Counts target (some row) o t = record {
    all_targets = omega arith;
    all_rows = omega (
      arith,
      length-update_where (λ j. has_job_id row.id j && is_waiting_job j.status)
          (coalesce_row now event) o.jobs,
    );
    forced = λ _. refl;
    unforced = λ _. refl;
  }

  targets-Counts :
      (targets : List Text) (o : Outbox) (t : Tally)
      → Counts force t o
          (enqueue_targets config now cutoff force event targets o t)
          (length targets)
  unfolding enqueue_targets
  targets-Counts [] o t = Counts-no_targets force t o
  targets-Counts (target ∷ rest) o t =
      Counts-trans (target-Counts target _ o t) (targets-Counts rest _ _)

  targets-PutBack :
      (forced : Bool) (targets : List Text) (o : Outbox)
      → PutBack forced event targets
          (enqueue_targets config now cutoff forced event targets o zero_tally).1
  targets-PutBack false targets o = tt
  targets-PutBack true targets o = targets-own-IsFresh config now cutoff event targets o zero_tally

  -- `enqueue_fanout_outbox` counts each configured target of the event once, as inserted, as existing
  -- or as coalesced; the table grows by a row for each insertion and loses none; existing rows are counted
  -- as put back, all of them when that is forced and none otherwise. Where it is forced, each configured
  -- target of the event has a row in the end that is pending, with no attempts and the event's payload.
  pub enqueue_count_lem :
      (targets : List Text) (o : Outbox)
      → let r = enqueue_fanout_outbox config now cutoff force event targets o in
        (counted (r.0) ≡ count (contains config.targets) targets)
        × (length (r.1).jobs ≡ length o.jobs + (r.0).inserted)
        × ((r.0).requeued ≡ (if force then (r.0).existing else 0))
        × PutBack force event (select (contains config.targets) targets) (r.1)
  unfolding enqueue_fanout_outbox known_targets
  enqueue_count_lem targets o =
      let c = targets-Counts (select (contains config.targets) targets) o zero_tally in
      (
        omega (arith, c.all_targets, length-select (contains config.targets) targets),
        omega (arith, c.all_rows),
        Counts-requeued force c,
        targets-PutBack force (select (contains config.targets) targets) o,
      )
