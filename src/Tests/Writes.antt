-- ===== src/Tests/Writes.antt =====
-- The theorems on `write_memory` at work.
use context_lattice.Prelude.{
  [], arith, codes, contains, drop_while, false, fnmatch, http_error, is_space, lower, lower_code,
  none, refl, reply, select, some, starts_with, strip, strip_by, text_eq, true, ℕ, ◌∷◌, ◌≡◌,
}
use context_lattice.Json.{null}
use context_lattice.Paths.{
  collapse, derive_topic_path, is_part, join, normalize_memory_path, normalize_topic_path,
  path_parts, split, tags_from, tags_of_path, topic_of_file, topic_tags_for_path,
}
use context_lattice.Caches.{lookup}
use context_lattice.Admission.{ends_with, ends_with_any, lowered, matches_any_glob}
use context_lattice.Rollups.{is_hot_memory_file}
use context_lattice.Rollups.Conserving.{empty_hot}
use context_lattice.Dedupe.{should_skip_duplicate_memory_write}
use context_lattice.Writing.{
  MemoryWrite, Moment, WriteAnswer, WriteConfig, WriteState, prepare_content_for_storage,
}
use context_lattice.Writing.Handler.{Draft, draft_of, is_hot_rollup}
use context_lattice.Writing.Deciding.{bank_write, letta_decision}
use context_lattice.Writing.Accepting.{check_latest, write_memory}
use context_lattice.Writing.Outcomes.{IsNew}
use context_lattice.Writing.Answering.{Answered, write_memory_lem}
use context_lattice.Writing.Repeating.{retried_write_lem}
use context_lattice.Tests.Workers.{worker_config, worker_state}
use context_lattice.Tests.Admissions.{admission_config}

abbrev write_config : WriteConfig
write_config = record {
  worker = record worker_config {
    fanout = record worker_config.fanout { targets = codes "mongo_raw" ∷ [] };
  };
  admission = admission_config;
  dedupe = record {
    enabled = true;
    window = 300_000_000;
    max_keys = 1000;
    hash_enabled = true;
    hash_max_keys = 1000;
  };
  hot_file_patterns = [];
  hot_file_suffixes = codes "__latest.json" ∷ [];
  hot_rollup_enabled = true;
  hot_rollup_suffix = codes "__rollup.json";
  default_topic_root = codes "root";
  secrets_storage_mode = codes "allow";
  langfuse_api_key = [];
  qdrant_collection = codes "c";
  memory_write_async = true;
  memory_bank_queue_max = 1;
  memory_write_queue_max = 1;
  unquote = λ t. t;
  sha256 = λ t. t;
  repr = λ v. [];
  iso = λ n. [];
  summarize = λ t. t;
  contains_sensitive = λ t. false;
  redact = λ t. t;
}

abbrev request : MemoryWrite
request = record {
  project_name = codes "p";
  file_name = codes "a.md";
  content = codes "x";
  topic_path = none;
}

abbrev draft : Draft
draft = record {
  project = codes "p";
  file = codes "a.md";
  content = codes "x";
  redacted = false;
  content_hash = codes "x";
  hot_file = false;
  topic_path = codes "root";
  topic_tags = codes "root" ∷ [];
  summary = codes "x";
}

abbrev at : ℕ → Moment
at monotonic = record {
  monotonic = monotonic;
  now = 2_000_000;
  coalesce_cutoff = 0;
  event_id = codes "e";
  fresh_id = codes "f";
  request_id = null;
  mongo_error = some [];
  write_error = none;
  summary_cache = [];
  summary_after = record { by_status = []; by_target = [] };
}

abbrev room : WriteState
room = record {
  worker = worker_state;
  dedupe_seen = [];
  latest_hashes = [];
  hot = empty_hot;
  total_skipped_unchanged = 0;
  memory_bank_queue = [];
  memory_bank_queue_dropped = 0;
  memory_write_queue = [];
  memory_write_queue_dropped = 0;
  letta_admission_dropped = 0;
  letta_admission_last_reason = none;
  letta_admission_last_backlog = 0;
}

drafted : draft_of write_config request ≡ reply draft
unfolding draft_of normalize_memory_path contains path_parts select is_part split collapse
    drop_while text_eq join prepare_content_for_storage derive_topic_path topic_tags_for_path
    normalize_topic_path is_hot_memory_file lowered starts_with ends_with ends_with_any
    matches_any_glob tags_from tags_of_path topic_of_file fnmatch is_space lower lower_code strip
    strip_by
drafted = refl

write_memory_example :
    Answered write_config (at 5) request room (write_memory write_config (at 5) request room)
unfolding contains text_eq
write_memory_example = write_memory_lem write_config (at 5) request room refl refl

abbrev full : WriteState
full = record room {
  memory_bank_queue =
      bank_write write_config (at 5) draft (letta_decision write_config (at 5) draft room) room
      ∷ [];
}

new : IsNew write_config (at 5) draft full false
unfolding check_latest should_skip_duplicate_memory_write is_hot_rollup lookup select
new = (refl, refl, refl)

retried_write_example :
    let first = write_memory write_config (at 5) request full in
    let again = write_memory write_config (at 6) request (first.1) in
    (first.0 ≡ http_error 503)
    × ((a : WriteAnswer) × (again.0 ≡ reply a) × (a.deduped ≡ true))
    × (again.1.memory_bank_queue ≡ full.memory_bank_queue)
    × (again.1.hot ≡ full.hot)
retried_write_example =
    retried_write_lem write_config (at 5) (at 6) request draft full drafted refl (omega arith) tt
      (omega arith) new refl refl
