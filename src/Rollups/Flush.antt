-- ===== src/Rollups/Flush.antt =====
-- `flush_hot_memory_rollups`: it takes the due counts out of the entries, enqueues one write for each,
-- and puts the counts back where that fails. Between these steps other tasks may run.
use context_lattice.Prelude.{
  Bool, List, Option, Text, [], codes, http_error, if◌then◌else◌, leb, length, ltb, max, none,
  reply, some, take, ℕ, ◌&&◌, ◌++◌, ◌+◌, ◌-◌, ◌==◌, ◌||◌, ◌∷◌,
}
use context_lattice.Json.{Fields, Json, put, str}
use context_lattice.Caches.{assign, lookup}
use context_lattice.Rollups.{
  HotEntry, HotState, build_hot_memory_rollup_content, build_hot_memory_rollup_file,
}

-- A write that waits for its turn: a key, and the snapshot of its entry.
abbrev pub Pending : Type 0
Pending = List (Text × HotEntry)

-- `interval` is HOT_MEMORY_ROLLUP_FLUSH_SECS, at least a second.
unfoldable pub is_due_entry : ℕ → Bool → ℕ → HotEntry → Bool
is_due_entry interval force now e =
    ltb 0 e.events_since_flush
    && (force || e.last_flush == 0 || leb (max 1_000_000 interval) (now - e.last_flush))

unfoldable pub reset_entry : ℕ → HotEntry → HotEntry
reset_entry now e = record e { events_since_flush = 0; bytes_since_flush = 0; last_flush = now }

-- The loop over the entries, under the lock.
unfoldable pub collect_due :
    ℕ → Bool → ℕ → List (Text × HotEntry) → List (Text × HotEntry) × Pending
unfolding is_due_entry reset_entry
collect_due interval force now [] = ([], [])
collect_due interval force now ((k, e) ∷ entries) =
    let (rest, pending) = collect_due interval force now entries in
    if is_due_entry interval force now e
    then ((k, reset_entry now e) ∷ rest, (k, e) ∷ pending)
    else ((k, e) ∷ rest, pending)

-- The counts of a snapshot go back to the entry of its key.
unfoldable pub put_back : HotEntry → HotEntry → HotEntry
put_back snapshot e = record e {
  events_since_flush = e.events_since_flush + snapshot.events_since_flush;
  bytes_since_flush = e.bytes_since_flush + snapshot.bytes_since_flush;
}

abbrev pub put_back_at : Text → HotEntry → Option HotEntry → HotState → HotState
put_back_at key snapshot none s = s
put_back_at key snapshot (some e) s = record s {
  entries = assign key (put_back snapshot e) s.entries;
}

unfoldable pub restore_counts : Text → HotEntry → HotState → HotState
restore_counts key snapshot s = put_back_at key snapshot (lookup key s.entries) s

-- What a turn does after the attempt: nothing, or the counts go back and the failure is recorded.
abbrev pub settle_one : Text → HotEntry → Option Text → HotState → Option Text × HotState
settle_one key e none s = (none, s)
settle_one key e (some why) s = (some (key ++ codes ": " ++ why), restore_counts key e s)

-- The write that is enqueued for a snapshot: what it takes from the snapshot unchanged is left there,
-- and its constants are left out.
pub record RollupWrite : Type 0 where
  pub snapshot : HotEntry
  pub rollup_file : Text
  pub content : Json
  pub summary : Text
  pub letta_context : Fields

abbrev letta_context_of : HotEntry → Text → Fields
letta_context_of e rollup_file = put (codes "source_kind") (str (codes "high_frequency_rollup")) (
    put (codes "rollup_file") (str rollup_file) (
      put (codes "topic_path") e.topic_path
        (put (codes "file") (str e.file) (put (codes "project") (str e.project) e.letta_context))))

-- The flushed writes and the failures, with those of the writes that come later.
abbrev pub count_sent : Option Text → ℕ × List Text × HotState → ℕ × List Text × HotState
count_sent none (flushed, failures, s) = (flushed + 1, failures, s)
count_sent (some why) (flushed, failures, s) = (flushed, why ∷ failures, s)

-- What a flush meets: the settings, the clock, the text of an HTTP error, and what
-- `_enqueue_memory_bank_write` raises.
pub record Sending : Type 0 where
  pub unquote : Text → Text
  pub suffix : Text
  pub iso : ℕ → Text
  pub http_text : ℕ → Text
  pub now_iso : ℕ
  pub enqueue : RollupWrite → Option Text

module _ (w : Sending) where
  unfoldable pub rollup_write : HotEntry → Text → RollupWrite
  rollup_write e rollup_file = record {
    snapshot = e;
    rollup_file = rollup_file;
    content = build_hot_memory_rollup_content w.iso w.now_iso e;
    summary = take 400 e.summary;
    letta_context = letta_context_of e rollup_file;
  }

  -- Why the write of a snapshot fails, if it does.
  unfoldable pub send_failure : HotEntry → Option Text
  unfolding rollup_write
  send_failure e = elim (build_hot_memory_rollup_file w.unquote w.suffix e.file) [
    | http_error code ↦ some (w.http_text code)
    | reply rollup_file ↦ w.enqueue (rollup_write e rollup_file)
  ]

  -- One turn of the loop over the pending writes: the failure, and the state.
  unfoldable pub send_one : Text × HotEntry → HotState → Option Text × HotState
  send_one (key, e) s = settle_one key e (send_failure e) s

  -- The flushed writes, the failures and the state, where no other task comes between.
  unfoldable pub send_all : Pending → HotState → ℕ × List Text × HotState
  unfolding send_one
  send_all [] s = (0, [], s)
  send_all (p ∷ pending) s =
      let (failure, s') = send_one p s in count_sent failure (send_all pending s')

  unfoldable pub finish_flush : ℕ → List Text → HotState → HotState
  finish_flush flushed failures s = record s {
    pending_keys = length s.entries;
    last_flush_at = some w.now_iso;
    last_flush_count = flushed;
    total_flushed = s.total_flushed + flushed;
    last_error = take 3 failures;
  }

  -- The number of flushed writes, that of attempts, at most ten failures, and the state.
  unfoldable pub flush_hot_memory_rollups : ℕ → Bool → ℕ → HotState → (ℕ × ℕ × List Text) × HotState
  unfolding collect_due send_all finish_flush
  flush_hot_memory_rollups interval force now s =
      let (entries, pending) = collect_due interval force now s.entries in
      let (flushed, failures, s') = send_all pending (record s { entries = entries }) in
      ((flushed, length pending, take 10 failures), finish_flush flushed failures s')
