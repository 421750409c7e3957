-- ===== src/Writing/Accepting.antt =====
-- `write_memory` where the write is new, and the whole handler.
use context_lattice.Prelude.{
  Bool, List, Option, Reply, Text, [], false, http_error, if◌then◌else◌, is_some, none, not, reply,
  some, ◌&&◌, ◌++◌, ◌+◌, ◌∷◌,
}
use context_lattice.Rollups.{build_hot_memory_rollup_file, enqueue_hot_memory_rollup}
use context_lattice.Dedupe.{should_skip_duplicate_memory_write, should_skip_unchanged_latest_hash}
use context_lattice.Writing.{
  MemoryWrite, Moment, Warning, WriteAnswer, WriteConfig, WriteState, is_full, rollup_buffered,
  secrets_redacted,
}
use context_lattice.Writing.Handler.{
  Draft, answer_duplicate, answer_unchanged, dedupe_key, draft_of, is_hot_rollup, mongo_warning,
  seed_if_failed, warning_if,
}
use context_lattice.Writing.Deciding.{
  LettaDecision, backlog_warnings, bank_write, hot_item, letta_context, letta_decision,
  record_letta_admission_drop, status_of_new,
}

module _ (config : WriteConfig) where
  abbrev new_answer : Moment → Draft → LettaDecision → Option Text → List Warning → WriteAnswer
  new_answer m d l rollup_file more = record {
    event_id = m.event_id;
    warnings =
        warning_if d.redacted secrets_redacted
        ++ mongo_warning config m d m.mongo_error
        ++ l.warnings
        ++ more;
    fanout = status_of_new config m d l;
    deduped = false;
    latest_hash_unchanged = false;
    rollup_file = rollup_file;
  }

  -- A write of a hot file goes to the rollups.
  abbrev pub buffer_under :
      Moment → Draft → LettaDecision → WriteState → Reply Text → Reply WriteAnswer × WriteState
  buffer_under m d l s (http_error code) = (http_error code, s)
  buffer_under m d l s (reply rollup_file) =
      let s' = seed_if_failed config m d (letta_context config d) (record s {
        hot = enqueue_hot_memory_rollup m.now m.monotonic (hot_item config d l s) s.hot;
      }) in
      (
        reply (
            new_answer m d l (some rollup_file)
              (rollup_buffered rollup_file ∷ backlog_warnings config m.summary_after s')),
        s',
      )

  unfoldable pub buffer_write :
      Moment → Draft → LettaDecision → WriteState → Reply WriteAnswer × WriteState
  buffer_write m d l s =
      buffer_under m d l s
        (build_hot_memory_rollup_file config.unquote config.hot_rollup_suffix d.file)

  -- Any other write goes to the queue of the memory bank; then the handler awaits the write, where it
  -- has to.
  unfoldable pub queue_write :
      Moment → Draft → LettaDecision → WriteState → Reply WriteAnswer × WriteState
  queue_write m d l s =
      let queued =
        seed_if_failed config m d (letta_context config d) (record s {
          memory_bank_queue = s.memory_bank_queue ++ bank_write config m d l s ∷ [];
        }) in
      if is_full config.memory_bank_queue_max s.memory_bank_queue
      then (
        http_error 503,
        record s { memory_bank_queue_dropped = s.memory_bank_queue_dropped + 1 },
      )
      else if not config.memory_write_async && is_some m.write_error
      then (http_error 502, queued)
      else (reply (new_answer m d l none (backlog_warnings config m.summary_after queued)), queued)

  unfoldable pub write_new : Moment → Draft → WriteState → Reply WriteAnswer × WriteState
  write_new m d s =
      let l = letta_decision config m d s in
      let s' = record_letta_admission_drop l.dropped s in
      if is_hot_rollup config d then buffer_write m d l s' else queue_write m d l s'

  unfoldable pub check_latest : Draft → WriteState → Bool × WriteState
  check_latest d s =
      let (same, hashes) =
        should_skip_unchanged_latest_hash config.dedupe d.project d.file d.content_hash
          s.latest_hashes in
      if d.hot_file then (same, record s { latest_hashes = hashes }) else (false, s)

  unfoldable pub check_duplicate : Moment → Draft → WriteState → Bool × WriteState
  check_duplicate m d s =
      let (same, seen) =
        should_skip_duplicate_memory_write config.dedupe m.monotonic (dedupe_key config d)
          s.dedupe_seen in
      (same, record s { dedupe_seen = seen })

  unfoldable pub write_draft : Moment → Draft → WriteState → Reply WriteAnswer × WriteState
  write_draft m d s =
      let (unchanged, s1) = check_latest d s in
      let (duplicate, s2) = check_duplicate m d s1 in
      let (answer, s1') = answer_unchanged config m d s1 in
      if unchanged
      then (reply answer, s1')
      else if duplicate
      then (reply (answer_duplicate config m d), s2)
      else write_new m d s2

  abbrev pub write_drafted : Moment → WriteState → Reply Draft → Reply WriteAnswer × WriteState
  write_drafted m s (http_error code) = (http_error code, s)
  write_drafted m s (reply d) = write_draft m d s

  unfoldable pub write_memory : Moment → MemoryWrite → WriteState → Reply WriteAnswer × WriteState
  write_memory m request s = write_drafted m s (draft_of config request)
