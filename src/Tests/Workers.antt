-- ===== src/Tests/Workers.antt =====
-- The workers' theorems at work.
use context_lattice.Prelude.{
  All, List, [], all_digits, arith, codes, decimal_value, drop_while, false, holds_text, is_space,
  lower, lower_code, none, refl, some, starts_with, strip, strip_by, text_eq, true, ◌∷◌,
}
use context_lattice.Outbox.{Job}
use context_lattice.Outbox.Batch.{due_jobs, target_filter}
use context_lattice.Outbox.Invariant.{IsValidOutbox}
use context_lattice.Workers.{
  Raised, WorkerConfig, WorkerState, error_text, is_letta_permanent_error,
  is_letta_transient_server_error, status_code,
}
use context_lattice.Workers.Errors.{Moments}
use context_lattice.Workers.Turn.{Surroundings, memory_write_worker}
use context_lattice.Workers.Circuit.{CircuitState, handle_errors, letta_circuit}
use context_lattice.Workers.Finishing.{IsSettled, memory_write_worker_lem}
use context_lattice.Tests.Fanout.{outbox, outbox-IsValidOutbox, outbox_config, running_job}

abbrev pub worker_config : WorkerConfig
worker_config = record {
  fanout = outbox_config;
  qdrant = codes "qdrant";
  mindsdb = codes "mindsdb";
  mongo_raw = codes "mongo_raw";
  langfuse = codes "langfuse";
  qdrant_bulk_size = 16;
  mindsdb_bulk_size = 12;
  mongo_bulk_size = 24;
  langfuse_bulk_size = 24;
  letta_bulk_size = 8;
  batch_size = 5;
  letta_auto_session_id = codes "s";
  letta_require_api_key = false;
  letta_api_key = [];
  letta_disable_on_transient_errors = true;
  letta_transient_error_threshold = 2;
  mindsdb_fail_open_on_permanent_error = true;
}

abbrev server_error : Raised
server_error = record { message = codes "status=503"; class_name = codes "OrchestratorError" }

abbrev surroundings : Surroundings
surroundings = record {
  moments = λ j. record { now = 3_000_000; later = 3_000_001; jitter = 7 };
  send = λ target jobs. some server_error;
  push = λ job. none;
}

abbrev pub worker_state : WorkerState
worker_state = record {
  outbox = outbox;
  letta_runtime_enabled = true;
  letta_runtime_disabled_reason = [];
  letta_transient_error_streak = 0;
  memory_write_queue_processed = 0;
  last_error = none;
}

memory_write_worker_example :
    let t = memory_write_worker worker_config surroundings 2_000_000 none none worker_state in
    IsValidOutbox t.outbox
    × All
        (λ r. IsSettled worker_config surroundings r.id t.outbox)
        (due_jobs 2_000_000 5 (target_filter none none) outbox.jobs)
memory_write_worker_example =
    memory_write_worker_lem worker_config surroundings 2_000_000 none none worker_state
      outbox-IsValidOutbox

abbrev moments : Moments
moments = record { now = 1; later = 2; jitter = 0 }

abbrev failures : List (Job × Raised)
failures = (running_job, server_error) ∷ (running_job, server_error) ∷ []

letta_circuit_example :
    CircuitState worker_config moments true 2
      (handle_errors worker_config moments failures worker_state)
unfolding text_eq is_letta_permanent_error is_letta_transient_server_error error_text strip strip_by
    drop_while is_space lower lower_code starts_with status_code all_digits decimal_value holds_text
letta_circuit_example =
    letta_circuit worker_config moments failures worker_state refl
      ((refl, refl, refl), ((refl, refl, refl), tt)) refl (omega arith) (omega arith)
