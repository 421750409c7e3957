-- ===== src/Rollups/Draining.antt =====
-- `flush_hot_memory_rollups` as a run of the steps.
use context_lattice.Prelude.{
  All, Bool, Bool-cases, List, Option, Text, [], ap, arith, if◌then◌else◌, inl, inr, is_some,
  length, ltb, none, not, refl, select, some, sym, true, ℕ, ◌++◌, ◌+◌, ◌∙◌, ◌∷◌, ◌≡◌,
}
use context_lattice.Rollups.{HotEntry, HotState}
use context_lattice.Rollups.Flush.{
  Pending, Sending, collect_due, count_sent, finish_flush, flush_hot_memory_rollups, is_due_entry,
  reset_entry, send_all, send_failure, send_one, settle_one,
}
use context_lattice.Rollups.Accounting.{count_accepted, event_tally, sum_of}
use context_lattice.Rollups.Conserving.{
  Flow, ReachFlow, collect, collecting, finish, finishing, reach-Conserved, send, sending,
  total_buffered-send, total_flushed-send,
}

-- The number of entries with an event to send.
unfoldable pub count_pending : List (Text × HotEntry) → ℕ
count_pending [] = 0
count_pending ((k, e) ∷ entries) =
    (if ltb 0 e.events_since_flush then 1 else 0) + count_pending entries

is_due_forced :
    (interval now : ℕ) (e : HotEntry)
    → is_due_entry interval true now e ≡ ltb 0 e.events_since_flush
unfolding is_due_entry
is_due_forced interval now e = ground arith

collect_drained :
    (interval now : ℕ) (d : List (Text × HotEntry))
    → sum_of event_tally.of (collect_due interval true now d).0 ≡ 0
unfolding collect_due sum_of event_tally reset_entry
collect_drained interval now [] = refl
collect_drained interval now ((k, e) ∷ d) = elim (Bool-cases (ltb 0 e.events_since_flush)) [
  | inl p ↦ rw (is_due_forced interval now e ∙ p) (omega (arith, collect_drained interval now d))
  | inr p ↦ rw (is_due_forced interval now e ∙ p) (grind (arith, collect_drained interval now d))
]

collect-count_pending :
    (interval now : ℕ) (d : List (Text × HotEntry))
    → length (collect_due interval true now d).1 ≡ count_pending d
unfolding collect_due count_pending
collect-count_pending interval now [] = refl
collect-count_pending interval now ((k, e) ∷ d) = elim (Bool-cases (ltb 0 e.events_since_flush)) [
  | inl p ↦
      rw (is_due_forced interval now e ∙ p, p) (omega (arith, collect-count_pending interval now d))
  | inr p ↦
      rw (is_due_forced interval now e ∙ p, p) (omega (arith, collect-count_pending interval now d))
]

module _ (w : Sending) where
  count_sent_same :
      (failure : Option Text) (r : ℕ × List Text × HotState) → (count_sent failure r).2 ≡ r.2
  count_sent_same none r = refl
  count_sent_same (some why) r = refl

  -- The writes that are accepted.
  abbrev pub is_accepted : Text × HotEntry → Bool
  is_accepted p = not (is_some (send_failure w (p.1)))

  accepted-events :
      (key : Text) (e : HotEntry) (failure : Option Text) (s : HotState)
      → count_accepted (settle_one key e failure s).0 (e.events_since_flush)
        ≡ (if not (is_some failure) then e.events_since_flush else 0)
  accepted-events key e none s = refl
  accepted-events key e (some why) s = refl

  sum_of-accepted :
      (p : Text × HotEntry) (pending : Pending)
      → sum_of event_tally.of (select is_accepted (p ∷ pending))
        ≡ (if is_accepted p then (p.1).events_since_flush else 0)
          + sum_of event_tally.of (select is_accepted pending)
  unfolding select sum_of event_tally
  sum_of-accepted p pending = elim (Bool-cases (is_accepted p)) [
    | inl h ↦ rw h refl
    | inr h ↦ rw h (omega arith)
  ]

  send-accepted :
      (p : Text × HotEntry) (s : HotState)
      → count_accepted (send_one w p s).0 ((p.1).events_since_flush)
        ≡ (if is_accepted p then (p.1).events_since_flush else 0)
  unfolding send_one
  send-accepted (key, e) s = accepted-events key e (send_failure w e) s

  send_all-ReachFlow :
      (pending : Pending) (f : Flow)
      → ReachFlow f
      → f.in_flight ≡ pending
      → (g : Flow) × ReachFlow g
        × (g.in_flight ≡ [])
        × (g.hot ≡ (send_all w pending f.hot).2)
        × (g.accepted_events
            ≡ f.accepted_events + sum_of event_tally.of (select is_accepted pending))
  unfolding send_all sending select sum_of
  send_all-ReachFlow [] f r e = (f, r, e, refl, omega arith)
  send_all-ReachFlow (p ∷ pending) f r e =
      let (g, q, d, h, n) =
        send_all-ReachFlow pending (sending w [] p pending f) (send w [] p pending e r) refl in
      (
        g,
        q,
        d,
        h
            ∙ sym (
                count_sent_same (send_one w p f.hot).0 (send_all w pending (send_one w p f.hot).1)),
        omega (arith, n, send-accepted p f.hot, sum_of-accepted p pending),
      )

  total_buffered-send_all :
      (pending : Pending) (s : HotState)
      → (send_all w pending s).2.total_buffered ≡ s.total_buffered
  unfolding send_all
  total_buffered-send_all [] s = refl
  total_buffered-send_all (p ∷ pending) s =
      let (failure, s') = send_one w p s in
      ap (λ r. r.total_buffered) (count_sent_same failure (send_all w pending s'))
      ∙ total_buffered-send_all pending s'
      ∙ total_buffered-send w p s

  total_flushed-send_all :
      (pending : Pending) (s : HotState) → (send_all w pending s).2.total_flushed ≡ s.total_flushed
  unfolding send_all
  total_flushed-send_all [] s = refl
  total_flushed-send_all (p ∷ pending) s =
      let (failure, s') = send_one w p s in
      ap (λ r. r.total_flushed) (count_sent_same failure (send_all w pending s'))
      ∙ total_flushed-send_all pending s'
      ∙ total_flushed-send w p s

  count_settled :
      (failure : Option Text) (s : HotState) (r : ℕ × List Text × HotState) (key : Text)
      (e : HotEntry)
      → (count_sent (settle_one key e failure s).0 r).0
        ≡ (if not (is_some failure) then r.0 + 1 else r.0)
  count_settled none s r key e = refl
  count_settled (some why) s r key e = refl

  count_sent_flushed :
      (p : Text × HotEntry) (s : HotState) (r : ℕ × List Text × HotState)
      → (count_sent (send_one w p s).0 r).0 ≡ (if is_accepted p then r.0 + 1 else r.0)
  unfolding send_one
  count_sent_flushed (key, e) s r = count_settled (send_failure w e) s r key e

  flushed-send_all :
      (pending : Pending) (s : HotState)
      → (send_all w pending s).0 ≡ length (select is_accepted pending)
  unfolding send_all select
  flushed-send_all [] s = refl
  flushed-send_all (p ∷ pending) s =
      let (failure, s') = send_one w p s in
      let n = count_sent_flushed p s (send_all w pending s') in
      ground (arith, n, flushed-send_all pending s')

  -- From a reached process with nothing in flight, `flush_hot_memory_rollups` is a run of the steps: some
  -- reached process has nothing in flight and the state that the flush returns. What went out meanwhile
  -- are the events of the collected entries whose write is accepted; all other events that were buffered
  -- and had not gone out are in the entries that the flush leaves; and the flush reports, and adds to
  -- `totalFlushed`, the number of the collected entries whose write is accepted.
  pub flush-ReachFlow :
      (interval : ℕ) (force : Bool) (now : ℕ) (f : Flow)
      → ReachFlow f
      → f.in_flight ≡ []
      → let report = (flush_hot_memory_rollups w interval force now f.hot).0 in
        let after = (flush_hot_memory_rollups w interval force now f.hot).1 in
        let sent = select is_accepted (collect_due interval force now f.hot.entries).1 in
        ((g : Flow) × ReachFlow g
          × (g.in_flight ≡ [])
          × (g.hot ≡ after)
          × (g.accepted_events ≡ f.accepted_events + sum_of event_tally.of sent))
        × (sum_of event_tally.of after.entries + sum_of event_tally.of sent
            ≡ sum_of event_tally.of f.hot.entries)
        × (report.0 ≡ length sent)
        × (after.total_flushed ≡ f.hot.total_flushed + length sent)
  unfolding flush_hot_memory_rollups finishing collecting finish_flush sum_of
  flush-ReachFlow interval force now f r e =
      let (entries, pending) = collect_due interval force now f.hot.entries in
      let c = collecting interval force now f in
      let c_reached = collect interval force now r in
      let (g, q, d, h, n) = send_all-ReachFlow pending c c_reached (ap (λ xs. xs ++ pending) e) in
      let (flushed, failures, s) = send_all w pending c.hot in
      let same : s.total_buffered ≡ f.hot.total_buffered = total_buffered-send_all pending c.hot in
      let before = (reach-Conserved r).events in
      let later = (reach-Conserved q).events in
      let sent = flushed-send_all pending c.hot in
      (
        (
          finishing w flushed failures g,
          finish w flushed failures q,
          d,
          ap (finish_flush w flushed failures) h,
          n,
        ),
        omega (
          arith,
          before,
          later,
          same,
          n,
          ap (sum_of event_tally.of) e,
          ap (sum_of event_tally.of) d,
          ap (λ x. sum_of event_tally.of x.entries) h,
          ap (λ x. x.total_buffered) h,
        ),
        sent,
        omega (arith, sent, total_flushed-send_all pending c.hot),
      )

  -- The write of the snapshot is accepted.
  abbrev pub Accepted : Text × HotEntry → Type 0
  Accepted p = send_failure w (p.1) ≡ none

  send_all-Accepted :
      (pending : Pending) (s : HotState)
      → All Accepted pending
      → send_all w pending s ≡ (length pending, [], s)
  unfolding send_all send_one
  send_all-Accepted [] s h = refl
  send_all-Accepted ((key, e) ∷ pending) s (h, hs) =
      rw (h, send_all-Accepted pending s hs) (ap (λ n. (n, [], s)) (omega arith))

  -- Where the write of every collected snapshot is accepted, a forced flush leaves no event in the
  -- entries, reports as flushed the number of entries that had an event, and reports no failure.
  pub forced_flush_lem :
      (interval now : ℕ) (s : HotState)
      → All Accepted (collect_due interval true now s.entries).1
      → (sum_of event_tally.of (flush_hot_memory_rollups w interval true now s).1.entries ≡ 0)
        × ((flush_hot_memory_rollups w interval true now s).0.0 ≡ count_pending s.entries)
        × ((flush_hot_memory_rollups w interval true now s).0.2 ≡ [])
  unfolding flush_hot_memory_rollups finish_flush
  forced_flush_lem interval now s h =
      let (entries, pending) = collect_due interval true now s.entries in
      rw (send_all-Accepted pending (record s { entries = entries }) h)
        (collect_drained interval now s.entries, collect-count_pending interval now s.entries, refl)
