-- ===== src/Workers/Settling.antt =====
-- Whatever a worker's loops settle, they settle by operations of the outbox, and no job that they meet
-- is left running.
use mathlib.Core.Path.{subst}
use context_lattice.Prelude.{
  Bool-cases, Has, List, Option, Text, [], codes, inl, inr, some, sym, ℕ, ◌++◌, ◌∷◌, ◌≡◌,
}
use context_lattice.Outbox.{Job, Outbox}
use context_lattice.Workers.{Raised, WorkerConfig, WorkerState, letta_target_enabled}
use context_lattice.Workers.Turn.{
  Surroundings, disabled_reason, first_moment, first_raised, orchestrator_error, run_chunks,
  run_letta_chunk, run_letta_chunks, run_unknown, settle_each, settle_job, settle_jobs, sync_letta,
}
use context_lattice.Workers.Effects.{HasTarget, IsQuiet, Moved-HasTarget, Moved-IsQuiet}
use context_lattice.Workers.Steps.{
  Effect, Effect-refl, Effect-trans, backlog-Effect, backlog-IsQuiet,
}
use context_lattice.Workers.Outcomes.{settle-Settles}
use context_lattice.Workers.Grouping.{InChunk, InGroup}

module _ (config : WorkerConfig) (w : Surroundings) where
  -- What every job of an unknown target ends with.
  abbrev unknown : Text → Option Raised
  unknown target = some (orchestrator_error (codes "unknown outbox target: " ++ target))

  pub settle_jobs-Effect :
      (outcome : Option Raised) (jobs : List Job) (s : WorkerState)
      → Effect config s.outbox (settle_jobs config w outcome jobs s).outbox
  unfolding settle_jobs
  settle_jobs-Effect outcome [] s = Effect-refl config s.outbox
  settle_jobs-Effect outcome (job ∷ jobs) s =
      Effect-trans config (settle-Settles config w outcome job s).effect
        (settle_jobs-Effect outcome jobs (settle_job config w outcome job s))

  pub run_chunks-Effect :
      (missing : List Job → Option Raised) (target : Text) (lists : List (List Job))
      (s : WorkerState)
      → Effect config s.outbox (run_chunks config w missing target lists s).outbox
  unfolding run_chunks
  run_chunks-Effect missing target [] s = Effect-refl config s.outbox
  run_chunks-Effect missing target (rows ∷ lists) s =
      let outcome = first_raised (missing rows) (w.send target rows) in
      Effect-trans config (settle_jobs-Effect outcome rows s)
        (run_chunks-Effect missing target lists (settle_jobs config w outcome rows s))

  settle_each-Effect :
      (jobs : List Job) (s : WorkerState)
      → Effect config s.outbox (settle_each config w jobs s).outbox
  unfolding settle_each
  settle_each-Effect [] s = Effect-refl config s.outbox
  settle_each-Effect (job ∷ jobs) s =
      Effect-trans config (settle-Settles config w (sync_letta w job) job s).effect
        (settle_each-Effect jobs (settle_job config w (sync_letta w job) job s))

  run_letta_chunk-Effect :
      (now : ℕ) (rows : List Job) (s : WorkerState)
      → Effect config s.outbox (run_letta_chunk config w now rows s).outbox
  unfolding run_letta_chunk
  run_letta_chunk-Effect now rows s = elim (Bool-cases (letta_target_enabled config s)) [
    | inl e ↦ rw e (settle_each-Effect rows s)
    | inr e ↦ rw e (backlog-Effect config now (disabled_reason config w s) s.outbox)
  ]

  pub run_letta_chunks-Effect :
      (lists : List (List Job)) (s : WorkerState)
      → Effect config s.outbox (run_letta_chunks config w lists s).outbox
  unfolding run_letta_chunks
  run_letta_chunks-Effect [] s = Effect-refl config s.outbox
  run_letta_chunks-Effect (rows ∷ lists) s =
      Effect-trans config (run_letta_chunk-Effect _ rows s) (
        run_letta_chunks-Effect lists
          (run_letta_chunk config w (first_moment config w rows) rows s))

  pub run_unknown-Effect :
      (groups : List (Text × List Job)) (s : WorkerState)
      → Effect config s.outbox (run_unknown config w groups s).outbox
  unfolding run_unknown
  run_unknown-Effect [] s = Effect-refl config s.outbox
  run_unknown-Effect ((target, jobs) ∷ groups) s =
      Effect-trans config (settle_jobs-Effect (unknown target) jobs s)
        (run_unknown-Effect groups (settle_jobs config w (unknown target) jobs s))

  module _ (j : Job) where
    -- The table has the row of `j` under the job's target; and the row does not run.
    abbrev pub Knows : WorkerState → Type 0
    Knows s = HasTarget j.id j.target s.outbox.jobs

    abbrev pub Rests : WorkerState → Type 0
    Rests s = IsQuiet j.id s.outbox.jobs

    pub knows_after :
        {o o' : Outbox}
        → Effect config o o'
        → HasTarget j.id j.target o.jobs
        → HasTarget j.id j.target o'.jobs
    knows_after {o} {o'} e h = Moved-HasTarget j.id j.target o.jobs o'.jobs e.moved h

    pub rests_after :
        {o o' : Outbox} → Effect config o o' → IsQuiet j.id o.jobs → IsQuiet j.id o'.jobs
    rests_after {o} {o'} e h = Moved-IsQuiet j.id o.jobs o'.jobs e.moved h

    settle_jobs-Rests :
        (outcome : Option Raised) (jobs : List Job) (s : WorkerState)
        → Has j jobs
        → Knows s
        → Rests (settle_jobs config w outcome jobs s)
    unfolding settle_jobs
    settle_jobs-Rests outcome [] s h k = absurd h
    settle_jobs-Rests outcome (job ∷ jobs) s (inl e) k =
        rests_after (settle_jobs-Effect outcome jobs (settle_job config w outcome job s)) (
          subst (λ x. IsQuiet j.id (settle_job config w outcome x s).outbox.jobs) (sym e)
            ((settle-Settles config w outcome j s).quiet k))
    settle_jobs-Rests outcome (job ∷ jobs) s (inr h) k =
        settle_jobs-Rests outcome jobs (settle_job config w outcome job s) h
          (knows_after (settle-Settles config w outcome job s).effect k)

    pub run_chunks-Rests :
        (missing : List Job → Option Raised) (target : Text) (lists : List (List Job))
        (s : WorkerState)
        → InChunk j lists
        → Knows s
        → Rests (run_chunks config w missing target lists s)
    unfolding run_chunks
    run_chunks-Rests missing target [] s h k = absurd h
    run_chunks-Rests missing target (rows ∷ lists) s (inl h) k =
        let outcome = first_raised (missing rows) (w.send target rows) in
        rests_after (run_chunks-Effect missing target lists (settle_jobs config w outcome rows s))
          (settle_jobs-Rests outcome rows s h k)
    run_chunks-Rests missing target (rows ∷ lists) s (inr h) k =
        run_chunks-Rests missing target lists _ h (knows_after (settle_jobs-Effect _ rows s) k)

    settle_each-Rests :
        (jobs : List Job) (s : WorkerState)
        → Has j jobs
        → Knows s
        → Rests (settle_each config w jobs s)
    unfolding settle_each
    settle_each-Rests [] s h k = absurd h
    settle_each-Rests (job ∷ jobs) s (inl e) k = rests_after (settle_each-Effect jobs _) (
        subst (λ x. IsQuiet j.id (settle_job config w (sync_letta w x) x s).outbox.jobs) (sym e)
          ((settle-Settles config w (sync_letta w j) j s).quiet k))
    settle_each-Rests (job ∷ jobs) s (inr h) k =
        settle_each-Rests jobs (settle_job config w (sync_letta w job) job s) h
          (knows_after (settle-Settles config w (sync_letta w job) job s).effect k)

    run_letta_chunk-Rests :
        (now : ℕ) (rows : List Job) (s : WorkerState)
        → Has j rows
        → j.target ≡ config.fanout.letta
        → Knows s
        → Rests (run_letta_chunk config w now rows s)
    unfolding run_letta_chunk
    run_letta_chunk-Rests now rows s h t k = elim (Bool-cases (letta_target_enabled config s)) [
      | inl e ↦ rw e (settle_each-Rests rows s h k)
      | inr e ↦ rw e (
          backlog-IsQuiet config j.id now _ s.outbox
            (subst (λ u. HasTarget j.id u s.outbox.jobs) t k))
    ]

    pub run_letta_chunks-Rests :
        (lists : List (List Job)) (s : WorkerState)
        → InChunk j lists
        → j.target ≡ config.fanout.letta
        → Knows s
        → Rests (run_letta_chunks config w lists s)
    unfolding run_letta_chunks
    run_letta_chunks-Rests [] s h t k = absurd h
    run_letta_chunks-Rests (rows ∷ lists) s (inl h) t k =
        let now = first_moment config w rows in
        rests_after (run_letta_chunks-Effect lists (run_letta_chunk config w now rows s))
          (run_letta_chunk-Rests now rows s h t k)
    run_letta_chunks-Rests (rows ∷ lists) s (inr h) t k =
        let now = first_moment config w rows in
        run_letta_chunks-Rests lists (run_letta_chunk config w now rows s) h t
          (knows_after (run_letta_chunk-Effect now rows s) k)

    pub run_unknown-Rests :
        (groups : List (Text × List Job)) (s : WorkerState)
        → InGroup j groups
        → Knows s
        → Rests (run_unknown config w groups s)
    unfolding run_unknown
    run_unknown-Rests [] s h k = absurd h
    run_unknown-Rests ((target, jobs) ∷ groups) s (inl h) k =
        rests_after (run_unknown-Effect groups (settle_jobs config w (unknown target) jobs s))
          (settle_jobs-Rests (unknown target) jobs s h k)
    run_unknown-Rests ((target, jobs) ∷ groups) s (inr h) k =
        run_unknown-Rests groups (settle_jobs config w (unknown target) jobs s) h
          (knows_after (settle_jobs-Effect (unknown target) jobs s) k)
