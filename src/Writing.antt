-- ===== src/Writing.antt =====
-- `write_memory` of services/orchestrator/app.py, the handler of POST /memory/write: the settings, the
-- globals that it changes, and what it answers.
pub mod Handler
pub mod Deciding
pub mod Accepting
pub mod Keeping
pub mod Outcomes
pub mod Answering
pub mod Repeating
use context_lattice.Prelude.{
  Bool, List, Option, Reply, Text, codes, false, http_error, if◌then◌else◌, leb, length, ltb, not,
  reply, text_eq, true, ℕ, ◌&&◌,
}
use context_lattice.Json.{Fields, Json}
use context_lattice.Workers.{WorkerConfig, WorkerState}
use context_lattice.Admission.{AdmissionConfig, FanoutSummary, Refusal}
use context_lattice.Rollups.{HotState}
use context_lattice.Dedupe.{DedupeConfig}

-- What the environment sets, with the functions that the handler takes from elsewhere: `summarize` is
-- `summarize_content`; `contains_sensitive` and `redact` are the regular expressions of secrets.
pub record WriteConfig : Type 0 where
  pub worker : WorkerConfig
  pub admission : AdmissionConfig
  pub dedupe : DedupeConfig
  pub hot_file_patterns : List Text
  pub hot_file_suffixes : List Text
  pub hot_rollup_enabled : Bool
  pub hot_rollup_suffix : Text
  pub default_topic_root : Text
  pub secrets_storage_mode : Text
  pub langfuse_api_key : Text
  pub qdrant_collection : Text
  pub memory_write_async : Bool
  pub memory_bank_queue_max : ℕ
  pub memory_write_queue_max : ℕ
  pub unquote : Text → Text
  pub sha256 : Text → Text
  pub repr : Json → Text
  pub iso : ℕ → Text
  pub summarize : Text → Text
  pub contains_sensitive : Text → Bool
  pub redact : Text → Text

pub record MemoryWrite : Type 0 where
  pub project_name : Text
  pub file_name : Text
  pub content : Text
  pub topic_path : Option Text

-- A write in the queue of the memory bank, without what only serves logs and metrics.
pub record BankWrite : Type 0 where
  pub project : Text
  pub file : Text
  pub content : Text
  pub summary : Text
  pub topic_path : Text
  pub topic_tags : List Text
  pub letta_session : Json
  pub letta_admit : Bool
  pub letta_context : Option Fields
  pub event_id : Text
  pub raw_event : Fields
  pub mongo_persisted : Bool

-- The globals; `worker` holds the outbox and the switch of Letta.
pub record WriteState : Type 0 where
  pub worker : WorkerState
  pub dedupe_seen : List (Text × ℕ)
  pub latest_hashes : List (Text × Text)
  pub hot : HotState
  pub total_skipped_unchanged : ℕ
  pub memory_bank_queue : List BankWrite
  pub memory_bank_queue_dropped : ℕ
  pub memory_write_queue : List Text
  pub memory_write_queue_dropped : ℕ
  pub letta_admission_dropped : ℕ
  pub letta_admission_last_reason : Option Refusal
  pub letta_admission_last_backlog : ℕ

-- The numbers of rows, by status and by target.
pub record OutboxSummary : Type 0 where
  pub by_status : List (Text × ℕ)
  pub by_target : FanoutSummary

-- What one call meets: the clocks, the ids, the errors of Mongo and of the awaited write, if there are
-- any, and the summaries of the outbox (`fanout_summary_cache`, and the one after the write).
pub record Moment : Type 0 where
  pub monotonic : ℕ
  pub now : ℕ
  pub coalesce_cutoff : ℕ
  pub event_id : Text
  pub fresh_id : Text
  pub request_id : Json
  pub mongo_error : Option Text
  pub write_error : Option Text
  pub summary_cache : FanoutSummary
  pub summary_after : OutboxSummary

-- The texts of `warnings`, with what they name.
pub data Warning : Type 0 where
  secrets_redacted snapshot_unchanged duplicate_suppressed letta_without_key : Warning
  mongo_deferred letta_runtime_off rollup_buffered : Text → Warning
  letta_deferred : Option Refusal → ℕ → Warning
  fanout_degraded : ℕ → ℕ → Warning
  fanout_retrying : ℕ → Warning

-- `fanout_status`
pub record FanoutStatus : Type 0 where
  pub memory_bank : Text
  pub mongo_raw : Text
  pub qdrant : Text
  pub mindsdb : Text
  pub langfuse : Text
  pub letta : Text

-- The answer; `ok` is always true.
pub record WriteAnswer : Type 0 where
  pub event_id : Text
  pub warnings : List Warning
  pub fanout : FanoutStatus
  pub deduped : Bool
  pub latest_hash_unchanged : Bool
  pub rollup_file : Option Text

-- `queue.full()` of asyncio: a bound of zero is none.
abbrev pub is_full : {A : Type 0} → ℕ → List A → Bool
is_full maxsize queue = ltb 0 maxsize && leb maxsize (length queue)

-- The text to store, and whether secrets were redacted.
unfoldable pub prepare_content_for_storage : WriteConfig → Text → Reply (Text × Bool)
prepare_content_for_storage config content =
    if text_eq config.secrets_storage_mode (codes "allow")
    then reply (content, false)
    else if not (config.contains_sensitive content)
    then reply (content, false)
    else if text_eq config.secrets_storage_mode (codes "block")
    then http_error 422
    else if text_eq (config.redact content) content
    then reply (content, false)
    else reply (config.redact content, true)
