-- ===== src/Writing/Handler.antt =====
-- The body of `write_memory`, part by part.
use context_lattice.Prelude.{
  Bool, List, Option, Reply, Text, [], codes, false, if◌then◌else◌, is_empty, none, or_else,
  refuse_if, reply, some, take, true, ◌&&◌, ◌++◌, ◌+◌, ◌>>=◌, ◌>>◌, ◌∷◌,
}
use context_lattice.Json.{Fields, Json, arr, end, field, null, obj, str}
use context_lattice.Outbox.Enqueue.{FanoutEvent, enqueue_fanout_outbox, event_of}
use context_lattice.Paths.{derive_topic_path, normalize_memory_path, topic_tags_for_path}
use context_lattice.Caches.Bundles.{texts}
use context_lattice.Workers.{letta_target_enabled}
use context_lattice.Workers.Errors.{with_outbox}
use context_lattice.Rollups.{is_hot_memory_file}
use context_lattice.Dedupe.{build_memory_write_dedupe_key}
use context_lattice.Writing.{
  FanoutStatus, MemoryWrite, Moment, Warning, WriteAnswer, WriteConfig, WriteState,
  duplicate_suppressed, is_full, mongo_deferred, prepare_content_for_storage, secrets_redacted,
  snapshot_unchanged,
}

-- What is known of a write before the tests for repeated writes.
pub record Draft : Type 0 where
  pub project : Text
  pub file : Text
  pub content : Text
  pub redacted : Bool
  pub content_hash : Text
  pub hot_file : Bool
  pub topic_path : Text
  pub topic_tags : List Text
  pub summary : Text

abbrev pub texts_value : List Text → Json
texts_value ts = arr (texts ts)

abbrev pub warning_if : Bool → Warning → List Warning
warning_if true w = w ∷ []
warning_if false w = []

module _ (config : WriteConfig) where
  unfoldable pub draft_of : MemoryWrite → Reply Draft
  draft_of request = do
    file ← normalize_memory_path config.unquote request.file_name
    refuse_if (is_empty file) 400
    stored ← prepare_content_for_storage config request.content
    topic_path ← derive_topic_path config.unquote config.default_topic_root file request.topic_path
    topic_tags ← topic_tags_for_path config.unquote config.default_topic_root topic_path
    reply record {
      project = request.project_name;
      file = file;
      content = stored.0;
      redacted = stored.1;
      content_hash = config.sha256 (stored.0);
      hot_file = is_hot_memory_file config.hot_file_patterns config.hot_file_suffixes file;
      topic_path = topic_path;
      topic_tags = topic_tags;
      summary = config.summarize (stored.0);
    }

  -- `hot_rollup_mode`
  unfoldable pub is_hot_rollup : Draft → Bool
  is_hot_rollup d = d.hot_file && config.hot_rollup_enabled

  unfoldable pub build_event_id : Text → Text → Text → Text
  build_event_id project file content =
      take 32 (config.sha256 (project ++ codes ":" ++ file ++ codes ":" ++ content))

  unfoldable pub dedupe_key : Draft → Text
  dedupe_key d = build_memory_write_dedupe_key config.sha256 d.project d.file d.content

  unfoldable pub letta_session : WriteState → Bool → Json
  letta_session s admitted =
      if letta_target_enabled config.worker s.worker && admitted
      then str config.worker.letta_auto_session_id
      else null

  module _ (m : Moment) (d : Draft) where
    unfoldable pub build_raw_memory_event : Fields
    build_raw_memory_event = field (codes "event_id") (str m.event_id) (
        field (codes "source") (str (codes "memory.write")) (
          field (codes "project") (str d.project) (
            field (codes "file") (str d.file) (
              field (codes "content_raw") (str d.content) (
                field (codes "summary") (str d.summary) (
                  field (codes "topic_path") (str d.topic_path) (
                    field (codes "topic_tags") (texts_value d.topic_tags) (
                      field (codes "request_id") m.request_id (
                        field (codes "created_at") (str (config.iso m.now))
                          (field (codes "updated_at") (str (config.iso m.now)) end))))))))))

    -- The payload of the row that `_seed_mongo_retry` enqueues.
    unfoldable pub mongo_retry_payload : Option Fields → WriteState → Fields
    mongo_retry_payload context s = field (codes "event_id") (str m.event_id) (
        field (codes "project") (str d.project) (
          field (codes "file") (str d.file) (
            field (codes "summary") (str d.summary) (
              field (codes "payload")
                (obj (
                  field (codes "projectName") (str d.project)
                    (field (codes "fileName") (str d.file) end)))
                (field (codes "topic_path") (str d.topic_path) (
                  field (codes "topic_tags") (texts_value d.topic_tags) (
                    field (codes "letta_session") (letta_session s true) (
                      field (codes "letta_context") (obj (or_else context end)) (
                        field (codes "qdrant_collection") (str config.qdrant_collection)
                          (field (codes "raw_event") (obj build_raw_memory_event) end))))))))))

    unfoldable pub signal : WriteState → WriteState
    signal s =
        if is_full config.memory_write_queue_max s.memory_write_queue
        then record s { memory_write_queue_dropped = s.memory_write_queue_dropped + 1 }
        else record s { memory_write_queue = s.memory_write_queue ++ m.event_id ∷ [] }

    unfoldable pub retry_event : Option Fields → WriteState → FanoutEvent
    retry_event context s = event_of config.repr m.fresh_id (mongo_retry_payload context s)

    unfoldable pub seed_mongo_retry : Option Fields → WriteState → WriteState
    seed_mongo_retry context s =
        let r =
          enqueue_fanout_outbox config.worker.fanout m.now m.coalesce_cutoff true
            (retry_event context s) (config.worker.mongo_raw ∷ []) s.worker.outbox in
        signal (record s { worker = with_outbox s.worker (r.1) })

    -- The retry is seeded where the write to Mongo has failed.
    abbrev pub seed_after : Option Text → Option Fields → WriteState → WriteState
    seed_after none context s = s
    seed_after (some error) context s = seed_mongo_retry context s

    unfoldable pub seed_if_failed : Option Fields → WriteState → WriteState
    seed_if_failed context s = seed_after m.mongo_error context s

    abbrev pub mongo_status : Option Text → Text
    mongo_status none = codes "succeeded"
    mongo_status (some error) = codes "retrying"

    abbrev pub mongo_warning : Option Text → List Warning
    mongo_warning none = []
    mongo_warning (some error) =
        mongo_deferred (if is_empty error then codes "unknown error" else error) ∷ []

    abbrev pub all_skipped : Text → FanoutStatus
    all_skipped mongo_raw = record {
      memory_bank = codes "skipped";
      mongo_raw = mongo_raw;
      qdrant = codes "skipped";
      mindsdb = codes "skipped";
      langfuse = codes "skipped";
      letta = codes "skipped";
    }

    -- A hot file whose latest content is this one already.
    unfoldable pub answer_unchanged : WriteState → WriteAnswer × WriteState
    answer_unchanged s =
        let s' = seed_if_failed none s in
        (
          record {
            event_id = m.event_id;
            warnings =
                snapshot_unchanged ∷ warning_if d.redacted secrets_redacted
                ++ mongo_warning m.mongo_error;
            fanout = all_skipped (mongo_status m.mongo_error);
            deduped = true;
            latest_hash_unchanged = true;
            rollup_file = none;
          },
          record s' { total_skipped_unchanged = s'.total_skipped_unchanged + 1 },
        )

    unfoldable pub answer_duplicate : WriteAnswer
    answer_duplicate = record {
      event_id = build_event_id d.project d.file d.content;
      warnings = duplicate_suppressed ∷ warning_if d.redacted secrets_redacted;
      fanout = all_skipped (codes "skipped");
      deduped = true;
      latest_hash_unchanged = false;
      rollup_file = none;
    }
