-- ===== src/Workers/Finishing.antt =====
-- A turn of a worker settles every job that it claims.
use mathlib.Core.Path.{subst}
use context_lattice.Prelude.{
  All, All-Has, All-intro, Bool, Bool-cases, Has, List, Option, Text, [], ap, arith, false, find,
  find-pass, has_key, inl, inr, map, refl, some, sym, text_eq_refl, true, ℕ, ◌&&◌, ◌∷◌, ◌≡◌,
}
use context_lattice.Outbox.{Job, Outbox, find_job, has_job_id, is_running_job, same_id}
use context_lattice.Outbox.Batch.{claim_fanout_batch, due_jobs, take_row, target_filter}
use context_lattice.Outbox.Invariant.{IsValidOutbox}
use context_lattice.Outbox.Preservation.{claim_batch-IsValidOutbox}
use context_lattice.Outbox.Taking.{claim_batch-rows, find_job-Has, same_id_sound, taken}
use context_lattice.Outbox.Reaching.{reach-IsValidOutbox}
use context_lattice.Workers.{Raised, WorkerConfig, WorkerState}
use context_lattice.Workers.Errors.{with_outbox}
use context_lattice.Workers.Turn.{
  Surroundings, chunk_rows, jobs_by_target, memory_write_worker, missing_keys, missing_raw_event,
  nothing_missing, pop_jobs, run_chunks, run_letta_chunks, run_unknown, settle_batch,
}
use context_lattice.Workers.Effects.{HasTarget, IsQuiet, Moved}
use context_lattice.Workers.Steps.{Effect, Effect-trans}
use context_lattice.Workers.Grouping.{
  AreGrouped, InGroup, chunk_rows-all, jobs_by_target-AreGrouped, jobs_by_target-all,
  pop_jobs-AreGrouped, pop_jobs-all,
}
use context_lattice.Workers.Settling.{
  Knows, Rests, knows_after, rests_after, run_chunks-Effect, run_chunks-Rests,
  run_letta_chunks-Effect, run_letta_chunks-Rests, run_unknown-Effect, run_unknown-Rests,
}

module _ (config : WorkerConfig) (w : Surroundings) where
  -- What the rest of a turn does to the table: each job of the groups is settled.
  record Stage (groups : List (Text × List Job)) (s t : WorkerState) : Type 0 where
    effect : Effect config s.outbox t.outbox
    rest : (j : Job) → InGroup j groups → Knows config w j s → Rests config w j t

  unknown-Stage :
      (groups : List (Text × List Job)) (s : WorkerState)
      → Stage groups s (run_unknown config w groups s)
  unknown-Stage groups s = record {
    effect = run_unknown-Effect config w groups s;
    rest = λ j h k. run_unknown-Rests config w j groups s h k;
  }

  bulk-Stage :
      (missing : List Job → Option Raised) (target : Text) (size : ℕ)
      (groups : List (Text × List Job)) (s t : WorkerState)
      → let lists = chunk_rows (pop_jobs target groups).0 size in
        Stage (pop_jobs target groups).1 (run_chunks config w missing target lists s) t
        → Stage groups s t
  bulk-Stage missing target size groups s t later =
      let rows = (pop_jobs target groups).0 in
      let lists = chunk_rows rows size in
      let e = run_chunks-Effect config w missing target lists s in
      record {
        effect = Effect-trans config e later.effect;
        rest = λ j h k. elim (pop_jobs-all target j groups h) [
          | inl a ↦
              rests_after config w j later.effect (
                run_chunks-Rests config w j missing target lists s (chunk_rows-all j rows size a) k)
          | inr b ↦ later.rest j b (knows_after config w j e k)
        ];
      }

  letta-Stage :
      (groups : List (Text × List Job)) (s t : WorkerState)
      → AreGrouped groups
      → let lists = chunk_rows (pop_jobs config.fanout.letta groups).0 config.letta_bulk_size in
        Stage (pop_jobs config.fanout.letta groups).1 (run_letta_chunks config w lists s) t
        → Stage groups s t
  letta-Stage groups s t grouped later =
      let letta = config.fanout.letta in
      let rows = (pop_jobs letta groups).0 in
      let lists = chunk_rows rows config.letta_bulk_size in
      let e = run_letta_chunks-Effect config w lists s in
      let targets = (pop_jobs-AreGrouped letta groups grouped).0 in
      record {
        effect = Effect-trans config e later.effect;
        rest = λ j h k. elim (pop_jobs-all letta j groups h) [
          | inl a ↦ rests_after config w j later.effect (
              run_letta_chunks-Rests config w j lists s
                (chunk_rows-all j rows config.letta_bulk_size a)
                (All-Has (λ x. x.target ≡ letta) j rows targets a) k)
          | inr b ↦ later.rest j b (knows_after config w j e k)
        ];
      }

  settle_batch-Stage :
      (jobs : List Job) (s : WorkerState)
      → Stage (jobs_by_target [] jobs) s (settle_batch config w jobs s)
  unfolding settle_batch
  settle_batch-Stage jobs s =
      let g = jobs_by_target [] jobs in
      let a₁ = (pop_jobs-AreGrouped config.qdrant g (jobs_by_target-AreGrouped jobs)).1 in
      let a₂ = (pop_jobs-AreGrouped config.mindsdb _ a₁).1 in
      let a₃ = (pop_jobs-AreGrouped config.mongo_raw _ a₂).1 in
      let a₄ = (pop_jobs-AreGrouped config.langfuse _ a₃).1 in
      bulk-Stage missing_keys config.qdrant config.qdrant_bulk_size _ _ _ (
        bulk-Stage missing_keys config.mindsdb config.mindsdb_bulk_size _ _ _ (
          bulk-Stage missing_raw_event config.mongo_raw config.mongo_bulk_size _ _ _ (
            bulk-Stage nothing_missing config.langfuse config.langfuse_bulk_size _ _ _
              (letta-Stage _ _ _ a₄ (unknown-Stage _ _)))))

  Has-taken :
      (now : ℕ) (r : Job) (rows : List Job) → Has r rows → Has (taken now r) (map (taken now) rows)
  Has-taken now r [] h = absurd h
  Has-taken now r (x ∷ rows) (inl e) = inl (ap (taken now) e)
  Has-taken now r (x ∷ rows) (inr h) = inr (Has-taken now r rows h)

  -- In a well-formed table, the row that an id reads is the only one with the id.
  stored-HasTarget :
      (o : Outbox) (i : ℕ) (j : Job)
      → IsValidOutbox o
      → find_job i o ≡ some j
      → HasTarget i j.target o.jobs
  stored-HasTarget o i j v e = All-intro _ o.jobs (λ x h. elim (Bool-cases (same_id x.id i)) [
    | inl p ↦
        let q : x ≡ j = cc (find_job-Has o x v h, e, same_id_sound x.id i p) in
        rw p (rw q (rw (text_eq_refl j.target)))
    | inr p ↦ rw p refl
  ])

  Moved-find :
      (i : ℕ) (js ks : List Job) (a : Job)
      → Moved js ks
      → find (has_job_id i) js ≡ some a
      → (b : Job) × (find (has_job_id i) ks ≡ some b)
  unfolding find has_key
  Moved-find i [] [] a m e = cc
  Moved-find i [] (k ∷ ks) a m e = absurd m
  Moved-find i (j ∷ js) [] a m e = absurd m
  Moved-find i (j ∷ js) (k ∷ ks) a m e = elim (Bool-cases (same_id j.id i)) [
    | inl p ↦ (k, rw m.0 (rw p))
    | inr p ↦ rw m.0 (rw p (Moved-find i js ks a m.3 (ground arith)))
  ]

  and_right : (a b : Bool) → a ≡ true → (a && b) ≡ false → b ≡ false
  and_right a b e h = ground arith

  -- The job with an id is in the table, and does not run.
  abbrev pub IsSettled : ℕ → Outbox → Type 0
  IsSettled i o = (j : Job) × (find_job i o ≡ some j) × (is_running_job j.status ≡ false)

  quiet-IsSettled :
      (i : ℕ) (o o' : Outbox) (a : Job)
      → Moved o.jobs o'.jobs
      → find_job i o ≡ some a
      → IsQuiet i o'.jobs
      → IsSettled i o'
  unfolding find_job has_key
  quiet-IsSettled i o o' a m e q =
      let b = Moved-find i o.jobs o'.jobs a m e in
      let p = find-pass (has_job_id i) b.0 o'.jobs b.1 in
      (b.0, b.1, and_right _ _ p.0 (All-Has _ b.0 o'.jobs q p.1))

  -- Whatever the sinks raise, a turn of a worker leaves the table well formed, and each job that the turn
  -- claimed is still in the table and is no longer running: it has succeeded, has failed, or waits for a
  -- retry. So it is with unknown targets, and when Letta is switched off before or during the turn.
  pub memory_write_worker_lem :
      (now : ℕ) (target exclude_target : Option Text) (s : WorkerState)
      → IsValidOutbox s.outbox
      → let t = memory_write_worker config w now target exclude_target s in
        IsValidOutbox t.outbox
        × All
            (λ r. IsSettled r.id t.outbox)
            (due_jobs now config.batch_size (target_filter target exclude_target) s.outbox.jobs)
  unfolding memory_write_worker take_row with_outbox
  memory_write_worker_lem now target exclude_target s v =
      let rows =
        due_jobs now config.batch_size (target_filter target exclude_target) s.outbox.jobs in
      let claim = claim_fanout_batch now config.batch_size target exclude_target s.outbox in
      let o = claim.1 in
      let s' = with_outbox s o in
      let exact = claim_batch-rows now config.batch_size target exclude_target s.outbox v in
      let valid =
        claim_batch-IsValidOutbox now config.batch_size target exclude_target s.outbox v in
      let stage = settle_batch-Stage (claim.0) s' in
      (
        reach-IsValidOutbox config.fanout o _ valid stage.effect.reach,
        All-intro _ rows (λ r h.
            let stored = All-Has _ r rows exact.1 h in
            let claimed =
              subst (λ js. Has (taken now r) js) (sym exact.0) (Has-taken now r rows h) in
            quiet-IsSettled r.id o _ (taken now r) stage.effect.moved stored (
              stage.rest (taken now r) (jobs_by_target-all (taken now r) (claim.0) claimed)
                (stored-HasTarget o r.id (taken now r) valid stored))),
      )
