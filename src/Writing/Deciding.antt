-- ===== src/Writing/Deciding.antt =====
-- What `write_memory` decides for a new write, and what it hands on.
use context_lattice.Prelude.{
  Bool, List, Option, Text, [], codes, false, if◌then◌else◌, is_empty, is_some, length, ltb, none,
  not, or_else, some, true, ◌&&◌, ◌+◌, ◌-◌, ◌∷◌,
}
use context_lattice.Json.{Fields, end, field, str}
use context_lattice.Caches.{lookup}
use context_lattice.Workers.{letta_target_enabled}
use context_lattice.Admission.{Admission, letta_admission_should_enqueue}
use context_lattice.Rollups.{HotItem}
use context_lattice.Writing.{
  BankWrite, FanoutStatus, Moment, OutboxSummary, Warning, WriteConfig, WriteState, fanout_degraded,
  fanout_retrying, letta_deferred, letta_runtime_off, letta_without_key,
}
use context_lattice.Writing.Handler.{
  Draft, build_raw_memory_event, is_hot_rollup, letta_session, mongo_status, texts_value,
}

-- What the handler decides on Letta: whether the write is admitted, the status, the warnings, and the
-- refusal that is recorded.
pub record LettaDecision : Type 0 where
  pub admitted : Bool
  pub status : Text
  pub warnings : List Warning
  pub dropped : Option Admission

abbrev off : List Warning → LettaDecision
off warnings = record {
  admitted = false;
  status = codes "disabled";
  warnings = warnings;
  dropped = none;
}

-- `_record_letta_admission_drop`
unfoldable pub record_letta_admission_drop : Option Admission → WriteState → WriteState
record_letta_admission_drop none s = s
record_letta_admission_drop (some a) s = record s {
  letta_admission_dropped = s.letta_admission_dropped + 1;
  letta_admission_last_reason = a.reason;
  letta_admission_last_backlog = a.backlog;
}

module _ (config : WriteConfig) where
  abbrev pub source_kind : Bool → Text
  source_kind hot = if hot then codes "high_frequency_rollup" else codes "memory_write"

  unfoldable pub letta_decision : Moment → Draft → WriteState → LettaDecision
  letta_decision m d s =
      let hot = is_hot_rollup config d in
      let a =
        letta_admission_should_enqueue config.admission m.summary_cache d.file d.topic_path
          d.summary (source_kind hot) in
      if is_empty config.worker.letta_auto_session_id
      then off []
      else if config.worker.letta_require_api_key && is_empty config.worker.letta_api_key
      then off (letta_without_key ∷ [])
      else if not s.worker.letta_runtime_enabled
      then off (
          letta_runtime_off (
            if is_empty s.worker.letta_runtime_disabled_reason
            then codes "runtime disabled"
            else s.worker.letta_runtime_disabled_reason)
          ∷ [])
      else if a.admitted
      then record {
        admitted = true;
        status = if hot then codes "deferred_rollup" else codes "pending";
        warnings = [];
        dropped = none;
      }
      else record {
        admitted = false;
        status = codes "throttled_backlog";
        warnings = letta_deferred a.reason a.backlog ∷ [];
        dropped = some a;
      }

  unfoldable pub letta_context : Draft → Option Fields
  letta_context d =
      let hot = is_hot_rollup config d in
      let content = if hot then end else field (codes "content") (str d.content) end in
      if is_empty config.worker.letta_auto_session_id
      then none
      else some (
          field (codes "project") (str d.project) (
            field (codes "file") (str d.file) (
              field (codes "summary") (str d.summary) (
                field (codes "topic_path") (str d.topic_path) (
                  field (codes "source_kind") (str (source_kind hot))
                    (field (codes "content_hash") (str d.content_hash) content))))))

  unfoldable pub status_of_new : Moment → Draft → LettaDecision → FanoutStatus
  status_of_new m d l =
      let hot = is_hot_rollup config d in
      let later = if hot then codes "deferred_rollup" else codes "pending" in
      record {
        memory_bank = if hot then codes "queued_rollup" else codes "queued";
        mongo_raw = mongo_status config m d m.mongo_error;
        qdrant = later;
        mindsdb = later;
        langfuse = if is_empty config.langfuse_api_key then codes "disabled" else later;
        letta = l.status;
      }

  -- The last warning: rows of the outbox that failed or are tried again.
  unfoldable pub backlog_warnings : OutboxSummary → WriteState → List Warning
  backlog_warnings summary s =
      let letta_stats = or_else (lookup config.worker.fanout.letta summary.by_target) [] in
      let without = λ (name : Text).
        if letta_target_enabled config.worker s.worker
        then or_else (lookup name summary.by_status) 0
        else or_else (lookup name summary.by_status) 0 - or_else (lookup name letta_stats) 0 in
      let retrying_rows = without (codes "retrying") in
      let failed_rows = without (codes "failed") in
      if ltb 0 failed_rows
      then fanout_degraded failed_rows retrying_rows ∷ []
      else if ltb 0 retrying_rows
      then fanout_retrying retrying_rows ∷ []
      else []

  unfoldable pub hot_item : Draft → LettaDecision → WriteState → HotItem
  hot_item d l s = record {
    project = d.project;
    file = d.file;
    topic_path = str d.topic_path;
    topic_tags = texts_value d.topic_tags;
    summary = d.summary;
    content_hash = str d.content_hash;
    content_length = length d.content;
    letta_session = letta_session config s l.admitted;
    letta_admit = l.admitted;
    letta_context = or_else (letta_context d) end;
    qdrant_collection = str config.qdrant_collection;
  }

  unfoldable pub bank_write : Moment → Draft → LettaDecision → WriteState → BankWrite
  bank_write m d l s = record {
    project = d.project;
    file = d.file;
    content = d.content;
    summary = d.summary;
    topic_path = d.topic_path;
    topic_tags = d.topic_tags;
    letta_session = letta_session config s l.admitted;
    letta_admit = l.admitted;
    letta_context = letta_context d;
    event_id = m.event_id;
    raw_event = build_raw_memory_event config m d;
    mongo_persisted = not (is_some m.mongo_error);
  }
