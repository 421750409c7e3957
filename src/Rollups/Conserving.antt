-- ===== src/Rollups/Conserving.antt =====
-- No buffered write is lost or counted twice, however buffering, flushes and failures interleave.
use mathlib.Core.Path.{subst}
use context_lattice.Prelude.{
  All, All-middle, All-without, Bool, List, Option, Text, [], ap, arith, none, refl, some, ℕ, ◌++◌,
  ◌+◌, ◌∙◌, ◌∷◌, ◌≡◌,
}
use context_lattice.Caches.{lookup}
use context_lattice.Rollups.{HotEntry, HotItem, HotState, enqueue_hot_memory_rollup}
use context_lattice.Rollups.Flush.{
  Pending, Sending, collect_due, finish_flush, put_back_at, restore_counts, send_failure, send_one,
  settle_one,
}
use context_lattice.Rollups.Keeping.{IsKept, kept-collect, kept-enqueue, kept-send}
use context_lattice.Rollups.Accounting.{
  Tally, byte_tally, count_accepted, event_tally, sum_of, sum_of-append, sum_of-collect,
  sum_of-enqueue, sum_of-send,
}

-- The process between its steps: the state, the writes that flushes have collected and not yet sent, and
-- the events and bytes that went out with accepted writes or came in.
pub record Flow : Type 0 where
  pub hot : HotState
  pub in_flight : Pending
  pub accepted_events : ℕ
  pub accepted_bytes : ℕ
  pub buffered_bytes : ℕ

abbrev pub empty_hot : HotState
empty_hot = record {
  entries = [];
  pending_keys = 0;
  total_buffered = 0;
  total_flushed = 0;
  last_flush_count = 0;
  last_flush_at = none;
  last_error = [];
}

abbrev pub start_flow : Flow
start_flow = record {
  hot = empty_hot;
  in_flight = [];
  accepted_events = 0;
  accepted_bytes = 0;
  buffered_bytes = 0;
}

unfoldable pub buffering : ℕ → ℕ → HotItem → Flow → Flow
buffering now_iso now item f = record f {
  hot = enqueue_hot_memory_rollup now_iso now item f.hot;
  buffered_bytes = f.buffered_bytes + item.content_length;
}

unfoldable pub collecting : ℕ → Bool → ℕ → Flow → Flow
collecting interval force now f = record f {
  hot = record f.hot { entries = (collect_due interval force now f.hot.entries).0 };
  in_flight = f.in_flight ++ (collect_due interval force now f.hot.entries).1;
}

-- A flush sends one of the writes that are in flight.
unfoldable pub sending : Sending → Pending → Text × HotEntry → Pending → Flow → Flow
sending w before p after f = record f {
  hot = (send_one w p f.hot).1;
  in_flight = before ++ after;
  accepted_events =
      f.accepted_events + count_accepted (send_one w p f.hot).0 (p.1).events_since_flush;
  accepted_bytes = f.accepted_bytes + count_accepted (send_one w p f.hot).0 (p.1).bytes_since_flush;
}

unfoldable pub finishing : Sending → ℕ → List Text → Flow → Flow
finishing w flushed failures f = record f { hot = finish_flush w flushed failures f.hot }

-- The processes that are reached, whatever tasks run between the steps of a flush.
pub data ReachFlow : Flow → Type 0 where
  begin : ReachFlow start_flow
  buffer :
      {f : Flow} (now_iso now : ℕ) (item : HotItem)
      → ReachFlow f
      → ReachFlow (buffering now_iso now item f)
  collect :
      {f : Flow} (interval : ℕ) (force : Bool) (now : ℕ)
      → ReachFlow f
      → ReachFlow (collecting interval force now f)
  send :
      {f : Flow} (w : Sending) (before : Pending) (p : Text × HotEntry) (after : Pending)
      → f.in_flight ≡ before ++ p ∷ after
      → ReachFlow f
      → ReachFlow (sending w before p after f)
  finish :
      {f : Flow} (w : Sending) (flushed : ℕ) (failures : List Text)
      → ReachFlow f
      → ReachFlow (finishing w flushed failures f)

-- One count over all: what was buffered is in an entry, in flight, or accepted.
abbrev pub Balanced : Tally → HotState → Pending → ℕ → ℕ → Type 0
Balanced t hot in_flight went buffered =
    buffered ≡ sum_of t.of hot.entries + sum_of t.of in_flight + went

pub record Conserved (f : Flow) : Type 0 where
  pub events : Balanced event_tally f.hot f.in_flight f.accepted_events f.hot.total_buffered
  pub bytes : Balanced byte_tally f.hot f.in_flight f.accepted_bytes f.buffered_bytes
  pub kept : All (IsKept f.hot.entries) f.in_flight

module _ (t : Tally) where
  buffer-Balanced :
      (now_iso now : ℕ) (item : HotItem) (s : HotState) (xs : Pending) (a b : ℕ)
      → Balanced t s xs a b
      → Balanced t (enqueue_hot_memory_rollup now_iso now item s) xs a (b + t.more item)
  buffer-Balanced now_iso now item s xs a b h = omega (arith, sum_of-enqueue t now_iso now item s)

  collect-Balanced :
      (interval : ℕ) (force : Bool) (now : ℕ) (s : HotState) (xs : Pending) (a b : ℕ)
      → Balanced t s xs a b
      → b
        ≡ sum_of t.of (collect_due interval force now s.entries).0
          + sum_of t.of (xs ++ (collect_due interval force now s.entries).1)
          + a
  collect-Balanced interval force now s xs a b h = omega (
    arith,
    sum_of-collect t.of interval force now s.entries (t.of-reset now),
    sum_of-append t.of xs (collect_due interval force now s.entries).1,
  )

  send-Balanced :
      (w : Sending) (before : Pending) (p : Text × HotEntry) (after xs : Pending)
      → (s : HotState) (a b : ℕ) → xs ≡ before ++ p ∷ after
      → IsKept s.entries p
      → Balanced t s xs a b
      → Balanced t
          (send_one w p s).1
          (before ++ after)
          (a + count_accepted (send_one w p s).0 (t.of (p.1)))
          b
  unfolding sum_of
  send-Balanced w before p after xs s a b e k h = omega (
    arith,
    sum_of-send t w p s k,
    ap (sum_of t.of) e,
    sum_of-append t.of before (p ∷ after),
    sum_of-append t.of before after,
  )

  start-Balanced : Balanced t empty_hot [] 0 0
  unfolding sum_of
  start-Balanced = omega arith

total_buffered-put_back_at :
    (key : Text) (e : HotEntry) (x : Option HotEntry) (s : HotState)
    → (put_back_at key e x s).total_buffered ≡ s.total_buffered
total_buffered-put_back_at key e none s = refl
total_buffered-put_back_at key e (some x) s = refl

total_buffered-settle :
    (key : Text) (e : HotEntry) (failure : Option Text) (s : HotState)
    → (settle_one key e failure s).1.total_buffered ≡ s.total_buffered
unfolding restore_counts
total_buffered-settle key e none s = refl
total_buffered-settle key e (some why) s = total_buffered-put_back_at key e (lookup key s.entries) s

pub total_buffered-send :
    (w : Sending) (p : Text × HotEntry) (s : HotState)
    → (send_one w p s).1.total_buffered ≡ s.total_buffered
unfolding send_one
total_buffered-send w (key, e) s = total_buffered-settle key e (send_failure w e) s

total_flushed-put_back_at :
    (key : Text) (e : HotEntry) (x : Option HotEntry) (s : HotState)
    → (put_back_at key e x s).total_flushed ≡ s.total_flushed
total_flushed-put_back_at key e none s = refl
total_flushed-put_back_at key e (some x) s = refl

total_flushed-settle :
    (key : Text) (e : HotEntry) (failure : Option Text) (s : HotState)
    → (settle_one key e failure s).1.total_flushed ≡ s.total_flushed
unfolding restore_counts
total_flushed-settle key e none s = refl
total_flushed-settle key e (some why) s = total_flushed-put_back_at key e (lookup key s.entries) s

pub total_flushed-send :
    (w : Sending) (p : Text × HotEntry) (s : HotState)
    → (send_one w p s).1.total_flushed ≡ s.total_flushed
unfolding send_one
total_flushed-send w (key, e) s = total_flushed-settle key e (send_failure w e) s

-- In every process that the steps reach, however writes, flushes and failures interleave: the number
-- of buffered events (totalBuffered) is that of the events in the entries, in flight and accepted; the
-- same holds of the bytes; and each write in flight has its entry, to which its counts can go back.
pub reach-Conserved : {f : Flow} → ReachFlow f → Conserved f
unfolding buffering collecting sending finishing enqueue_hot_memory_rollup finish_flush sum_of
    event_tally byte_tally
reach-Conserved begin = record {
  events = start-Balanced event_tally;
  bytes = start-Balanced byte_tally;
  kept = tt;
}
reach-Conserved (buffer {f} now_iso now item r) =
    let v = reach-Conserved r in
    record {
      events =
          buffer-Balanced event_tally now_iso now item f.hot f.in_flight f.accepted_events
            f.hot.total_buffered v.events;
      bytes =
          buffer-Balanced byte_tally now_iso now item f.hot f.in_flight f.accepted_bytes
            f.buffered_bytes v.bytes;
      kept = kept-enqueue f.in_flight now_iso now item f.hot v.kept;
    }
reach-Conserved (collect {f} interval force now r) =
    let v = reach-Conserved r in
    record {
      events =
          collect-Balanced event_tally interval force now f.hot f.in_flight f.accepted_events
            f.hot.total_buffered v.events;
      bytes =
          collect-Balanced byte_tally interval force now f.hot f.in_flight f.accepted_bytes
            f.buffered_bytes v.bytes;
      kept = kept-collect f.in_flight interval force now f.hot.entries v.kept;
    }
reach-Conserved (send {f} w before p after e r) =
    let v = reach-Conserved r in
    let kept = subst (All (IsKept f.hot.entries)) e v.kept in
    let here = All-middle (IsKept f.hot.entries) before p after kept in
    record {
      events =
          total_buffered-send w p f.hot
          ∙ send-Balanced event_tally w before p after f.in_flight f.hot f.accepted_events
              f.hot.total_buffered e here v.events;
      bytes =
          send-Balanced byte_tally w before p after f.in_flight f.hot f.accepted_bytes
            f.buffered_bytes e here v.bytes;
      kept =
          kept-send (before ++ after) w p f.hot
            (All-without (IsKept f.hot.entries) before p after kept);
    }
reach-Conserved (finish {f} w flushed failures r) =
    let v = reach-Conserved r in record { events = v.events; bytes = v.bytes; kept = v.kept }
