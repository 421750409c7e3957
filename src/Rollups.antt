-- ===== src/Rollups.antt =====
-- The rollups of files that are written often: `build_hot_memory_rollup_file`,
-- `build_hot_memory_rollup_content`, `enqueue_hot_memory_rollup` and `flush_hot_memory_rollups`. The
-- entries are a dictionary, in the order of their insertion.
pub mod Flush
pub mod Accounting
pub mod Keeping
pub mod Conserving
pub mod Draining
use context_lattice.Prelude.{
  Bool, List, Option, Reply, Text, [], codes, if◌then◌else◌, is_empty, length, lower, none, not,
  or_else, pos, reply, some, take, ℕ, ◌&&◌, ◌++◌, ◌+◌, ◌-◌, ◌==◌, ◌>>=◌, ◌||◌, ◌∷◌,
}
use context_lattice.Json.{Fields, Json, end, field, int, obj, str}
use context_lattice.Paths.{normalize_memory_path, slash}
use context_lattice.Caches.{assign, lookup}
use context_lattice.Admission.{ends_with, ends_with_any, matches_any_glob}

-- HOT_MEMORY_FILE_PATTERNS and HOT_MEMORY_FILE_SUFFIXES are arguments.
unfoldable pub is_hot_memory_file : List Text → List Text → Text → Bool
unfolding matches_any_glob ends_with_any lower
is_hot_memory_file patterns suffixes file_name =
    let name = lower file_name in
    not (is_empty name) && (matches_any_glob name patterns || ends_with_any suffixes name)

-- A write to buffer.
pub record HotItem : Type 0 where
  pub project : Text
  pub file : Text
  pub topic_path : Json
  pub topic_tags : Json
  pub summary : Text
  pub content_hash : Json
  pub content_length : ℕ
  pub letta_session : Json
  pub letta_admit : Bool
  pub letta_context : Fields
  pub qdrant_collection : Json

-- An entry, and the snapshot that a flush takes of it. `last_flush` is zero before the first flush.
pub record HotEntry : Type 0 where
  pub project : Text
  pub file : Text
  pub topic_path : Json
  pub topic_tags : Json
  pub summary : Text
  pub last_hash : Json
  pub last_size : ℕ
  pub letta_session : Json
  pub letta_admit : Bool
  pub letta_context : Fields
  pub qdrant_collection : Json
  pub events_since_flush : ℕ
  pub bytes_since_flush : ℕ
  pub first_seen_at : ℕ
  pub last_seen_at : ℕ
  pub last_flush : ℕ
  pub last_seen : ℕ

-- `hot_memory_rollup_entries` and `hot_memory_rollup_health`; `last_error` holds the texts that are joined
-- there.
pub record HotState : Type 0 where
  pub entries : List (Text × HotEntry)
  pub pending_keys : ℕ
  pub total_buffered : ℕ
  pub total_flushed : ℕ
  pub last_flush_count : ℕ
  pub last_flush_at : Option ℕ
  pub last_error : List Text

abbrev pub hot_key : HotItem → Text
hot_key item = item.project ++ codes ":" ++ item.file

-- The entry of a key that was not there.
unfoldable pub new_entry : ℕ → ℕ → HotItem → HotEntry
new_entry now_iso now item = record {
  project = item.project;
  file = item.file;
  topic_path = item.topic_path;
  topic_tags = item.topic_tags;
  summary = item.summary;
  last_hash = item.content_hash;
  last_size = item.content_length;
  letta_session = item.letta_session;
  letta_admit = item.letta_admit;
  letta_context = item.letta_context;
  qdrant_collection = item.qdrant_collection;
  events_since_flush = 0;
  bytes_since_flush = 0;
  first_seen_at = now_iso;
  last_seen_at = now_iso;
  last_flush = 0;
  last_seen = now;
}

-- The entry after one more write.
unfoldable pub seen_again : ℕ → ℕ → HotItem → HotEntry → HotEntry
seen_again now_iso now item e = record e {
  topic_path = item.topic_path;
  topic_tags = item.topic_tags;
  summary = item.summary;
  last_hash = item.content_hash;
  last_size = item.content_length;
  letta_session = item.letta_session;
  letta_admit = item.letta_admit;
  letta_context = item.letta_context;
  qdrant_collection = item.qdrant_collection;
  last_seen_at = now_iso;
  last_seen = now;
  events_since_flush = e.events_since_flush + 1;
  bytes_since_flush = e.bytes_since_flush + item.content_length;
}

unfoldable pub enqueue_hot_memory_rollup : ℕ → ℕ → HotItem → HotState → HotState
enqueue_hot_memory_rollup now_iso now item s =
    let e = or_else (lookup (hot_key item) s.entries) (new_entry now_iso now item) in
    let entries = assign (hot_key item) (seen_again now_iso now item e) s.entries in
    record s {
      entries = entries;
      pending_keys = length entries;
      total_buffered = s.total_buffered + 1;
    }

-- `normalized.rsplit("/", 1)`: the directory, where there is one, and the base name.
unfoldable pub rsplit_slash : Text → Option Text × Text
rsplit_slash [] = (none, [])
rsplit_slash (c ∷ s) =
    let (directory, base) = rsplit_slash s in
    elim directory [
      | some d ↦ (some (c ∷ d), base)
      | none ↦ if c == slash then (some [], base) else (none, c ∷ base)
    ]

-- `base` without ".json" at its end
unfoldable pub stem_of : Text → Text
stem_of base = if ends_with base (codes ".json") then take (length base - 5) base else base

-- `suffix` is HOT_MEMORY_ROLLUP_SUFFIX.
module _ (unquote : Text → Text) (suffix : Text) where
  unfoldable pub rollup_name : Text → Text
  rollup_name base = if ends_with base suffix then base else stem_of base ++ suffix

  abbrev rollup_path : Option Text × Text → Text
  rollup_path (none, base) = codes "_rollups/" ++ rollup_name base
  rollup_path (some [], base) = codes "_rollups/" ++ rollup_name base
  rollup_path (some (c ∷ d), base) = (c ∷ d) ++ codes "/_rollups/" ++ rollup_name base

  unfoldable pub build_hot_memory_rollup_file : Text → Reply Text
  unfolding rollup_name rsplit_slash
  build_hot_memory_rollup_file file_name = do
    normalized ← normalize_memory_path unquote file_name
    reply (
        if is_empty normalized
        then codes "_rollups/hot__rollup.json"
        else rollup_path (rsplit_slash normalized))

-- The object whose text is written; `iso` is the text of a moment.
unfoldable pub build_hot_memory_rollup_content : (ℕ → Text) → ℕ → HotEntry → Json
build_hot_memory_rollup_content iso now e = obj (
    field (codes "kind") (str (codes "high_frequency_rollup")) (
      field (codes "project") (str e.project) (
        field (codes "source_file") (str e.file) (
          field (codes "source_content_sha256") e.last_hash (
            field (codes "source_size_bytes") (int (pos e.last_size)) (
              field (codes "topic_path") e.topic_path (
                field (codes "topic_tags") e.topic_tags (
                  field (codes "summary") (str e.summary) (
                    field (codes "events_since_last_rollup") (int (pos e.events_since_flush)) (
                      field (codes "bytes_since_last_rollup") (int (pos e.bytes_since_flush)) (
                        field (codes "first_seen_at") (str (iso e.first_seen_at)) (
                          field (codes "last_seen_at") (str (iso e.last_seen_at))
                            (field (codes "rollup_generated_at") (str (iso now)) end)))))))))))))
