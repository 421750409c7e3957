-- ===== src/Writing/Outcomes.antt =====
-- What every answer of `write_memory` says of the stores, and when it is given.
use context_lattice.Prelude.{
  Bool, Option, Reply, Text, [], codes, false, http_error, is_some, length, none, reply, some, true,
  ℕ, ◌++◌, ◌+◌, ◌∷◌, ◌≡◌,
}
use context_lattice.Json.{str}
use context_lattice.Caches.{lookup}
use context_lattice.Rollups.{HotEntry, HotState, build_hot_memory_rollup_file}
use context_lattice.Dedupe.{should_skip_duplicate_memory_write}
use context_lattice.Writing.{BankWrite, Moment, WriteAnswer, WriteConfig, WriteState, is_full}
use context_lattice.Writing.Handler.{Draft, dedupe_key, is_hot_rollup}
use context_lattice.Writing.Accepting.{check_latest}
use context_lattice.Writing.Keeping.{RawKept}

-- The tests for repeated writes, on the state before the call.
abbrev pub is_unchanged : WriteConfig → Draft → WriteState → Bool
is_unchanged config d s = (check_latest config d s).0

abbrev pub is_duplicate : WriteConfig → Moment → Draft → WriteState → Bool
is_duplicate config m d s =
    (should_skip_duplicate_memory_write config.dedupe m.monotonic (dedupe_key config d)
      s.dedupe_seen).0

-- The write is neither, and goes to the rollups or not.
abbrev pub IsNew : WriteConfig → Moment → Draft → WriteState → Bool → Type 0
IsNew config m d s hot =
    (is_unchanged config d s ≡ false)
    × (is_duplicate config m d s ≡ false)
    × (is_hot_rollup config d ≡ hot)

-- The queue of the memory bank and the rollups are as they were.
abbrev pub Unstored : WriteState → WriteState → Type 0
Unstored s s' = (s'.memory_bank_queue ≡ s.memory_bank_queue) × (s'.hot ≡ s.hot)

-- The queue of the memory bank has one more write at its end: the event's, with its content.
abbrev pub Queued : Moment → Draft → WriteState → WriteState → Type 0
Queued m d s s' =
    (w : BankWrite) × (w.event_id ≡ m.event_id)
    × (w.project ≡ d.project)
    × (w.file ≡ d.file)
    × (w.content ≡ d.content)
    × (w.summary ≡ d.summary)
    × (s'.memory_bank_queue ≡ s.memory_bank_queue ++ w ∷ [])
    × (s'.hot ≡ s.hot)

-- The key of a file in the rollups, and the events and bytes that wait there.
abbrev pub rollup_key : Draft → Text
rollup_key d = d.project ++ codes ":" ++ d.file

abbrev pub waiting_events : Option HotEntry → ℕ
waiting_events none = 0
waiting_events (some e) = e.events_since_flush

abbrev pub waiting_bytes : Option HotEntry → ℕ
waiting_bytes none = 0
waiting_bytes (some e) = e.bytes_since_flush

-- The rollups have one more event: the entry of the file is there, counts the write and its length, and
-- has its summary and its hash.
abbrev pub Collected : Draft → HotState → HotState → Type 0
Collected d before after =
    (after.total_buffered ≡ before.total_buffered + 1)
    × ((e : HotEntry) × (lookup (rollup_key d) after.entries ≡ some e)
        × (e.events_since_flush ≡ waiting_events (lookup (rollup_key d) before.entries) + 1)
        × (e.bytes_since_flush
            ≡ waiting_bytes (lookup (rollup_key d) before.entries) + length d.content)
        × (e.last_hash ≡ str d.content_hash)
        × (e.summary ≡ d.summary))

abbrev pub Buffered : Draft → WriteState → WriteState → Type 0
Buffered d s s' = (s'.memory_bank_queue ≡ s.memory_bank_queue) × Collected d s.hot s'.hot

-- What a call with a valid request ends with, from the state `s`.
pub data Outcome (config : WriteConfig) (m : Moment) (d : Draft) (s : WriteState)
    : Reply WriteAnswer → WriteState → Type 0 where
  unchanged :
      (a : WriteAnswer) (s' : WriteState)
      → is_unchanged config d s ≡ true
      → a.latest_hash_unchanged ≡ true
      → Unstored s s'
      → RawKept config m d s'
      → Outcome config m d s (reply a) s'
  duplicate :
      (a : WriteAnswer) (s' : WriteState)
      → is_unchanged config d s ≡ false
      → is_duplicate config m d s ≡ true
      → a.deduped ≡ true
      → Unstored s s'
      → Outcome config m d s (reply a) s'
  -- The name of the rollup is refused.
  unnamed :
      (code : ℕ) (s' : WriteState)
      → IsNew config m d s true
      → build_hot_memory_rollup_file config.unquote config.hot_rollup_suffix d.file
        ≡ http_error code
      → Unstored s s'
      → Outcome config m d s (http_error code) s'
  buffered :
      (a : WriteAnswer) (s' : WriteState)
      → IsNew config m d s true
      → a.deduped ≡ false
      → Buffered d s s'
      → RawKept config m d s'
      → Outcome config m d s (reply a) s'
  overflow :
      (s' : WriteState)
      → IsNew config m d s false
      → is_full config.memory_bank_queue_max s.memory_bank_queue ≡ true
      → Unstored s s'
      → Outcome config m d s (http_error 503) s'
  -- The write failed while the handler waited for it.
  write_failed :
      (s' : WriteState)
      → IsNew config m d s false
      → is_some m.write_error ≡ true
      → Queued m d s s'
      → RawKept config m d s'
      → Outcome config m d s (http_error 502) s'
  queued :
      (a : WriteAnswer) (s' : WriteState)
      → IsNew config m d s false
      → a.deduped ≡ false
      → Queued m d s s'
      → RawKept config m d s'
      → Outcome config m d s (reply a) s'

abbrev pub OutcomeOf :
    WriteConfig → Moment → Draft → WriteState → Reply WriteAnswer × WriteState → Type 0
OutcomeOf config m d s r = Outcome config m d s (r.0) (r.1)
