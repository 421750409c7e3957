-- ===== src/Rollups/Accounting.antt =====
-- What the steps of the rollups do to a count that is summed over the entries.
use mathlib.Core.Bool.{false≢true}
use context_lattice.Prelude.{
  Bool, Bool-cases, List, Option, Text, [], ap, arith, inl, inr, is_some, none, or_else, refl, some,
  text_eq, true, ℕ, ◌++◌, ◌+◌, ◌∷◌, ◌≡◌,
}
use context_lattice.Caches.{assign, lookup}
use context_lattice.Rollups.{
  HotEntry, HotItem, HotState, enqueue_hot_memory_rollup, hot_key, new_entry, seen_again,
}
use context_lattice.Rollups.Flush.{
  Pending, Sending, collect_due, is_due_entry, put_back, put_back_at, reset_entry, restore_counts,
  send_failure, send_one, settle_one,
}
use context_lattice.Rollups.Keeping.{IsKept}

-- What a write that was accepted had.
abbrev pub count_accepted : Option Text → ℕ → ℕ
count_accepted none n = n
count_accepted (some why) n = 0

-- A count that is summed over entries.
module _ (m : HotEntry → ℕ) where
  unfoldable pub sum_of : List (Text × HotEntry) → ℕ
  sum_of [] = 0
  sum_of ((k, e) ∷ entries) = m e + sum_of entries

  pub sum_of-append : (xs ys : Pending) → sum_of (xs ++ ys) ≡ sum_of xs + sum_of ys
  unfolding sum_of
  sum_of-append [] ys = omega arith
  sum_of-append ((k, e) ∷ xs) ys = omega (arith, sum_of-append xs ys)

  -- What an entry had, where it was there.
  abbrev pub had : Option HotEntry → ℕ
  had none = 0
  had (some e) = m e

  sum_of-assign :
      (k : Text) (e : HotEntry) (d : List (Text × HotEntry))
      → sum_of (assign k e d) + had (lookup k d) ≡ sum_of d + m e
  unfolding sum_of assign lookup
  sum_of-assign k e [] = omega arith
  sum_of-assign k e ((j, x) ∷ d) = elim (Bool-cases (text_eq j k)) [
    | inl p ↦ rw p (omega arith)
    | inr p ↦ rw p (omega (arith, sum_of-assign k e d))
  ]

  pub sum_of-collect :
      (interval : ℕ) (force : Bool) (now : ℕ) (d : List (Text × HotEntry))
      → ((x : HotEntry) → m (reset_entry now x) ≡ 0)
      → sum_of (collect_due interval force now d).0 + sum_of (collect_due interval force now d).1
        ≡ sum_of d
  unfolding sum_of collect_due
  sum_of-collect interval force now [] z = omega arith
  sum_of-collect interval force now ((k, e) ∷ d) z =
      elim (Bool-cases (is_due_entry interval force now e)) [
        | inl p ↦ rw p (omega (arith, sum_of-collect interval force now d z, z e))
        | inr p ↦ rw p (omega (arith, sum_of-collect interval force now d z))
      ]

-- A count of an entry, and what one write adds to it.
pub record Tally : Type 0 where
  pub of : HotEntry → ℕ
  pub more : HotItem → ℕ
  pub of-new : (now_iso now : ℕ) (item : HotItem) → of (new_entry now_iso now item) ≡ 0
  pub of-seen :
      (now_iso now : ℕ) (item : HotItem) (e : HotEntry)
      → of (seen_again now_iso now item e) ≡ of e + more item
  pub of-reset : (now : ℕ) (e : HotEntry) → of (reset_entry now e) ≡ 0
  pub of-put_back : (snapshot e : HotEntry) → of (put_back snapshot e) ≡ of e + of snapshot

unfoldable pub event_tally : Tally
unfolding new_entry seen_again reset_entry put_back
event_tally = record {
  of = λ e. e.events_since_flush;
  more = λ item. 1;
  of-new = λ now_iso now item. refl;
  of-seen = λ now_iso now item e. refl;
  of-reset = λ now e. refl;
  of-put_back = λ snapshot e. refl;
}

unfoldable pub byte_tally : Tally
unfolding new_entry seen_again reset_entry put_back
byte_tally = record {
  of = λ e. e.bytes_since_flush;
  more = λ item. item.content_length;
  of-new = λ now_iso now item. refl;
  of-seen = λ now_iso now item e. refl;
  of-reset = λ now e. refl;
  of-put_back = λ snapshot e. refl;
}

module _ (t : Tally) where
  of-or_else :
      (now_iso now : ℕ) (item : HotItem) (x : Option HotEntry)
      → t.of (or_else x (new_entry now_iso now item)) ≡ had t.of x
  of-or_else now_iso now item none = t.of-new now_iso now item
  of-or_else now_iso now item (some e) = refl

  pub sum_of-enqueue :
      (now_iso now : ℕ) (item : HotItem) (s : HotState)
      → sum_of t.of (enqueue_hot_memory_rollup now_iso now item s).entries
        ≡ sum_of t.of s.entries + t.more item
  unfolding enqueue_hot_memory_rollup
  sum_of-enqueue now_iso now item s =
      let e = or_else (lookup (hot_key item) s.entries) (new_entry now_iso now item) in
      omega (
        arith,
        sum_of-assign t.of (hot_key item) (seen_again now_iso now item e) s.entries,
        t.of-seen now_iso now item e,
        of-or_else now_iso now item (lookup (hot_key item) s.entries),
      )

  sum_of-put_back_at :
      (key : Text) (snapshot : HotEntry) (x : Option HotEntry) (s : HotState)
      → lookup key s.entries ≡ x
      → is_some x ≡ true
      → sum_of t.of (put_back_at key snapshot x s).entries ≡ sum_of t.of s.entries + t.of snapshot
  sum_of-put_back_at key snapshot none s p h = absurd (false≢true h)
  sum_of-put_back_at key snapshot (some e) s p h = omega (
    arith,
    sum_of-assign t.of key (put_back snapshot e) s.entries,
    t.of-put_back snapshot e,
    ap (had t.of) p,
  )

  sum_of-restore :
      (key : Text) (snapshot : HotEntry) (s : HotState)
      → is_some (lookup key s.entries) ≡ true
      → sum_of t.of (restore_counts key snapshot s).entries ≡ sum_of t.of s.entries + t.of snapshot
  unfolding restore_counts
  sum_of-restore key snapshot s h = sum_of-put_back_at key snapshot (lookup key s.entries) s refl h

  sum_of-settle :
      (key : Text) (e : HotEntry) (failure : Option Text) (s : HotState)
      → IsKept s.entries (key, e)
      → sum_of t.of (settle_one key e failure s).1.entries
          + count_accepted (settle_one key e failure s).0 (t.of e)
        ≡ sum_of t.of s.entries + t.of e
  sum_of-settle key e none s h = refl
  sum_of-settle key e (some why) s h = omega (arith, sum_of-restore key e s h)

  pub sum_of-send :
      (w : Sending) (p : Text × HotEntry) (s : HotState)
      → IsKept s.entries p
      → sum_of t.of (send_one w p s).1.entries + count_accepted (send_one w p s).0 (t.of (p.1))
        ≡ sum_of t.of s.entries + t.of (p.1)
  unfolding send_one
  sum_of-send w (key, e) s h = sum_of-settle key e (send_failure w e) s h
