-- ===== src/Workers/Turn.antt =====
-- One turn of `_memory_write_worker`: it claims a batch, groups it by target, sends it in chunks
-- (`_chunk_rows`) and settles each job.
use context_lattice.Prelude.{
  Bool, List, Option, Text, [], codes, drop, false, if◌then◌else◌, is_empty, is_some, length, max,
  none, not, some, suc, take, text_eq, true, zero, ℕ, ◌++◌, ◌∷◌,
}
use context_lattice.Json.{Json, get, obj, truthy}
use context_lattice.Outbox.{Job}
use context_lattice.Outbox.Batch.{claim_fanout_batch}
use context_lattice.Outbox.Mark.{fail_letta_backlog}
use context_lattice.Workers.{Raised, WorkerConfig, WorkerState, letta_target_enabled}
use context_lattice.Workers.Errors.{
  Moments, handle_fanout_job_error, mark_fanout_job_success, with_outbox,
}

-- What a turn meets: the moments, and what the sinks raise. `send` is what waiting for and pushing a
-- batch raises; `push` is what `push_to_letta` raises for a job.
pub record Surroundings : Type 0 where
  pub moments : Job → Moments
  pub send : Text → List Job → Option Raised
  pub push : Job → Option Raised

unfoldable pub chunks : ℕ → ℕ → List Job → List (List Job)
chunks fuel size [] = []
chunks zero size (x ∷ xs) = []
chunks (suc fuel) size (x ∷ xs) =
    let rest = chunks fuel size (drop size (x ∷ xs)) in take size (x ∷ xs) ∷ rest

-- Each chunk takes a row out at least, so as many rounds as there are rows are enough.
unfoldable pub chunk_rows : List Job → ℕ → List (List Job)
unfolding chunks
chunk_rows items chunk_size = chunks (length items) (max 1 chunk_size) items

-- `jobs_by_target.setdefault(job_target, []).append(job)`
unfoldable pub add_job : Job → List (Text × List Job) → List (Text × List Job)
add_job job [] = (job.target, job ∷ []) ∷ []
add_job job ((t, js) ∷ groups) =
    let rest = add_job job groups in
    if text_eq t job.target then (t, js ++ job ∷ []) ∷ groups else (t, js) ∷ rest

unfoldable pub jobs_by_target : List (Text × List Job) → List Job → List (Text × List Job)
unfolding add_job
jobs_by_target groups [] = groups
jobs_by_target groups (job ∷ jobs) = jobs_by_target (add_job job groups) jobs

-- `jobs_by_target.pop(target, [])`
unfoldable pub pop_jobs : Text → List (Text × List Job) → List Job × List (Text × List Job)
pop_jobs target [] = ([], [])
pop_jobs target ((t, js) ∷ groups) =
    let (found, rest) = pop_jobs target groups in
    if text_eq t target then (js, groups) else (found, (t, js) ∷ rest)

-- `job.get("payload") or {}`, and a key of it
abbrev payload_value : Text → Job → Option Json
payload_value key job = elim job.payload [ obj fs ↦ get key fs | _ ↦ none ]

abbrev pub orchestrator_error : Text → Raised
orchestrator_error message = record { message = message; class_name = codes "OrchestratorError" }

abbrev key_error : Text → Raised
key_error key = record { message = codes "'" ++ key ++ codes "'"; class_name = codes "KeyError" }

-- `payload["project"]` and `payload["file"]`, for each job
unfoldable pub missing_keys : List Job → Option Raised
missing_keys [] = none
missing_keys (job ∷ jobs) =
    let rest = missing_keys jobs in
    if not (is_some (payload_value (codes "project") job))
    then some (key_error (codes "project"))
    else if not (is_some (payload_value (codes "file") job))
    then some (key_error (codes "file"))
    else rest

abbrev is_object : Option Json → Bool
is_object (some (obj fs)) = true
is_object _ = false

unfoldable pub missing_raw_event : List Job → Option Raised
missing_raw_event [] = none
missing_raw_event (job ∷ jobs) =
    let rest = missing_raw_event jobs in
    if is_object (payload_value (codes "raw_event") job)
    then rest
    else some (orchestrator_error (codes "raw_event payload missing for mongo fanout"))

abbrev pub nothing_missing : List Job → Option Raised
nothing_missing _ = none

abbrev pub first_raised : Option Raised → Option Raised → Option Raised
first_raised (some exc) b = some exc
first_raised none b = b

abbrev is_truthy : Option Json → Bool
is_truthy none = false
is_truthy (some v) = truthy v

-- `_sync_letta`
unfoldable pub sync_letta : Surroundings → Job → Option Raised
sync_letta w job =
    if is_truthy (payload_value (codes "letta_session") job)
    then w.push job
    else some (orchestrator_error (codes "letta_session missing in fanout payload"))

module _ (config : WorkerConfig) (w : Surroundings) where
  unfoldable pub settle_job : Option Raised → Job → WorkerState → WorkerState
  settle_job none job s = mark_fanout_job_success config (w.moments job).now job s
  settle_job (some exc) job s = handle_fanout_job_error config (w.moments job) job exc s

  -- All jobs of a chunk end as the chunk did.
  unfoldable pub settle_jobs : Option Raised → List Job → WorkerState → WorkerState
  unfolding settle_job
  settle_jobs outcome [] s = s
  settle_jobs outcome (job ∷ jobs) s = settle_jobs outcome jobs (settle_job outcome job s)

  unfoldable pub run_chunks :
      (List Job → Option Raised) → Text → List (List Job) → WorkerState → WorkerState
  unfolding settle_jobs
  run_chunks missing target [] s = s
  run_chunks missing target (rows ∷ row_lists) s =
      run_chunks missing target row_lists
        (settle_jobs (first_raised (missing rows) (w.send target rows)) rows s)

  -- `zip(letta_batch, results)`: each job of Letta ends for itself.
  unfoldable pub settle_each : List Job → WorkerState → WorkerState
  unfolding settle_job
  settle_each [] s = s
  settle_each (job ∷ jobs) s = settle_each jobs (settle_job (sync_letta w job) job s)

  -- `letta_runtime_disabled_reason or "letta fanout disabled"`
  abbrev pub disabled_reason : WorkerState → Text
  disabled_reason s =
      if is_empty s.letta_runtime_disabled_reason
      then codes "letta fanout disabled"
      else s.letta_runtime_disabled_reason

  unfoldable pub run_letta_chunk : ℕ → List Job → WorkerState → WorkerState
  unfolding with_outbox settle_each
  run_letta_chunk now rows s =
      if letta_target_enabled config s
      then settle_each rows s
      else with_outbox s (fail_letta_backlog config.fanout now (disabled_reason s) s.outbox).1

  abbrev pub first_moment : List Job → ℕ
  first_moment [] = 0
  first_moment (job ∷ _) = (w.moments job).now

  unfoldable pub run_letta_chunks : List (List Job) → WorkerState → WorkerState
  unfolding run_letta_chunk
  run_letta_chunks [] s = s
  run_letta_chunks (rows ∷ row_lists) s =
      run_letta_chunks row_lists (run_letta_chunk (first_moment rows) rows s)

  unfoldable pub run_unknown : List (Text × List Job) → WorkerState → WorkerState
  unfolding settle_jobs
  run_unknown [] s = s
  run_unknown ((target, jobs) ∷ groups) s =
      let exc = orchestrator_error (codes "unknown outbox target: " ++ target) in
      run_unknown groups (settle_jobs (some exc) jobs s)

  unfoldable pub settle_batch : List Job → WorkerState → WorkerState
  unfolding run_chunks run_letta_chunks run_unknown
  settle_batch jobs s₀ =
      let (qdrant_jobs, g₁) = pop_jobs config.qdrant (jobs_by_target [] jobs) in
      let qdrant_batches = chunk_rows qdrant_jobs config.qdrant_bulk_size in
      let s₁ = run_chunks missing_keys config.qdrant qdrant_batches s₀ in
      let (mindsdb_jobs, g₂) = pop_jobs config.mindsdb g₁ in
      let mindsdb_batches = chunk_rows mindsdb_jobs config.mindsdb_bulk_size in
      let s₂ = run_chunks missing_keys config.mindsdb mindsdb_batches s₁ in
      let (mongo_jobs, g₃) = pop_jobs config.mongo_raw g₂ in
      let mongo_batches = chunk_rows mongo_jobs config.mongo_bulk_size in
      let s₃ = run_chunks missing_raw_event config.mongo_raw mongo_batches s₂ in
      let (langfuse_jobs, g₄) = pop_jobs config.langfuse g₃ in
      let langfuse_batches = chunk_rows langfuse_jobs config.langfuse_bulk_size in
      let s₄ = run_chunks nothing_missing config.langfuse langfuse_batches s₃ in
      let (letta_jobs, g₅) = pop_jobs config.fanout.letta g₄ in
      let s₅ = run_letta_chunks (chunk_rows letta_jobs config.letta_bulk_size) s₄ in
      run_unknown g₅ s₅

  -- The turn itself, for a worker of `target` or of all but `exclude_target`.
  unfoldable pub memory_write_worker : ℕ → Option Text → Option Text → WorkerState → WorkerState
  unfolding with_outbox settle_batch
  memory_write_worker now target exclude_target s =
      let (jobs, o) = claim_fanout_batch now config.batch_size target exclude_target s.outbox in
      settle_batch jobs (with_outbox s o)
