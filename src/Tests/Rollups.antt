-- ===== src/Tests/Rollups.antt =====
-- The theorems on rollups at work.
use context_lattice.Prelude.{
  All, [], codes, contains, drop_while, false, fnmatch, length, lower, none, refl, reply, select,
  some, starts_with, text_eq, true, ◌+◌, ◌∷◌, ◌≡◌,
}
use context_lattice.Json.{arr, end, nil, str}
use context_lattice.Paths.{collapse, is_part, join, normalize_memory_path, path_parts, split}
use context_lattice.Caches.{assign, lookup}
use context_lattice.Admission.{ends_with, ends_with_any, lowered, matches_any_glob}
use context_lattice.Rollups.{
  HotItem, build_hot_memory_rollup_file, enqueue_hot_memory_rollup, is_hot_memory_file, new_entry,
  seen_again, stem_of,
}
use context_lattice.Rollups.Flush.{
  Sending, collect_due, flush_hot_memory_rollups, is_due_entry, send_all, send_failure, send_one,
}
use context_lattice.Rollups.Accounting.{event_tally, sum_of}
use context_lattice.Rollups.Conserving.{
  Conserved, Flow, ReachFlow, begin, buffer, buffering, collect, collecting, reach-Conserved,
  start_flow,
}
use context_lattice.Rollups.Draining.{
  Accepted, count_pending, flush-ReachFlow, forced_flush_lem, is_accepted,
}

abbrev item : HotItem
item = record {
  project = codes "p";
  file = codes "a/b__latest.json";
  topic_path = str (codes "a");
  topic_tags = arr nil;
  summary = codes "s";
  content_hash = str (codes "h");
  content_length = 7;
  letta_session = arr nil;
  letta_admit = true;
  letta_context = end;
  qdrant_collection = arr nil;
}

abbrev refusing : Sending
refusing = record {
  unquote = λ t. t;
  suffix = codes "__rollup.json";
  iso = λ n. [];
  http_text = λ n. codes "400";
  now_iso = 9;
  enqueue = λ write. some (codes "queue");
}

abbrev taking : Sending
taking = record refusing { enqueue = λ write. none }

hot_file :
    is_hot_memory_file (codes "*.tmp" ∷ []) (codes "__latest.json" ∷ []) (codes "A/B__LATEST.json")
    ≡ true
unfolding is_hot_memory_file matches_any_glob ends_with_any lower lowered fnmatch starts_with
hot_file = refl

rollup_file :
    build_hot_memory_rollup_file taking.unquote taking.suffix item.file
    ≡ reply (codes "a/_rollups/b__latest__rollup.json")
unfolding build_hot_memory_rollup_file normalize_memory_path path_parts contains select is_part
    split collapse drop_while text_eq join ends_with starts_with stem_of
rollup_file = refl

-- Two writes; the first flush sends none of them.
abbrev buffered : Flow
buffered = buffering 2 2_000_000 item (buffering 1 1_000_000 item start_flow)

buffered-reached : ReachFlow buffered
buffered-reached = buffer 2 2_000_000 item (buffer 1 1_000_000 item begin)

failed : (flush_hot_memory_rollups refusing 0 false 3_000_000 buffered.hot).0.0 ≡ 0
unfolding flush_hot_memory_rollups buffering enqueue_hot_memory_rollup collect_due send_all send_one
    send_failure build_hot_memory_rollup_file lookup assign text_eq new_entry seen_again
    is_due_entry normalize_memory_path contains path_parts select is_part split collapse drop_while
failed = refl

reach-Conserved_example : Conserved (collecting 0 false 3_000_000 buffered)
reach-Conserved_example = reach-Conserved (collect 0 false 3_000_000 buffered-reached)

flush-ReachFlow_example :
    let (report, after) = flush_hot_memory_rollups refusing 0 false 3_000_000 buffered.hot in
    let sent =
      select (is_accepted refusing) (collect_due 0 false 3_000_000 buffered.hot.entries).1 in
    ((g : Flow) × ReachFlow g
      × (g.in_flight ≡ [])
      × (g.hot ≡ after)
      × (g.accepted_events ≡ buffered.accepted_events + sum_of event_tally.of sent))
    × (sum_of event_tally.of after.entries + sum_of event_tally.of sent
        ≡ sum_of event_tally.of buffered.hot.entries)
    × (report.0 ≡ length sent)
    × (after.total_flushed ≡ buffered.hot.total_flushed + length sent)
unfolding buffering
flush-ReachFlow_example = flush-ReachFlow refusing 0 false 3_000_000 buffered buffered-reached refl

all_taken : All (Accepted taking) (collect_due 0 true 3_000_000 buffered.hot.entries).1
unfolding buffering enqueue_hot_memory_rollup collect_due send_failure build_hot_memory_rollup_file
    lookup assign text_eq new_entry seen_again is_due_entry normalize_memory_path contains
    path_parts select is_part split collapse drop_while
all_taken = (refl, tt)

forced_flush_example :
    (sum_of event_tally.of (flush_hot_memory_rollups taking 0 true 3_000_000 buffered.hot).1.entries
      ≡ 0)
    × ((flush_hot_memory_rollups taking 0 true 3_000_000 buffered.hot).0.0
        ≡ count_pending buffered.hot.entries)
    × ((flush_hot_memory_rollups taking 0 true 3_000_000 buffered.hot).0.2 ≡ [])
forced_flush_example = forced_flush_lem taking 0 3_000_000 buffered.hot all_taken
