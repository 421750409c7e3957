-- ===== src/Rollups/Keeping.antt =====
-- The entry of a pending write stays: no step of the rollups removes a key.
use mathlib.Core.Path.{subst}
use context_lattice.Prelude.{
  All, All-append, All-imp, Bool, Bool-cases, List, Option, Text, [], arith, if◌then◌else◌, inl,
  inr, is_some, none, or_else, refl, some, sym, text_eq_refl, true, ℕ, ◌++◌, ◌∙◌, ◌∷◌, ◌≡◌,
}
use context_lattice.Caches.{assign, lookup}
use context_lattice.Rollups.{
  HotEntry, HotItem, HotState, enqueue_hot_memory_rollup, hot_key, new_entry, seen_again,
}
use context_lattice.Rollups.Flush.{
  Pending, Sending, collect_due, is_due_entry, put_back, put_back_at, restore_counts, send_failure,
  send_one, settle_one,
}

-- The key has an entry.
abbrev pub IsKept : List (Text × HotEntry) → Text × HotEntry → Type 0
IsKept d p = is_some (lookup (p.0) d) ≡ true

pub lookup-assign_kept :
    (k j : Text) (e : HotEntry) (d : List (Text × HotEntry))
    → is_some (lookup j d) ≡ true
    → is_some (lookup j (assign k e d)) ≡ true
unfolding lookup assign
lookup-assign_kept k j e [] h = cc
lookup-assign_kept k j e ((i, x) ∷ d) h = ground (arith, lookup-assign_kept k j e d)

pub lookup-collect :
    (interval : ℕ) (force : Bool) (now : ℕ) (j : Text) (d : List (Text × HotEntry))
    → is_some (lookup j (collect_due interval force now d).0) ≡ is_some (lookup j d)
unfolding lookup collect_due
lookup-collect interval force now j [] = refl
lookup-collect interval force now j ((i, x) ∷ d) =
    elim (Bool-cases (is_due_entry interval force now x)) [
      | inl p ↦ rw p (ground (arith, lookup-collect interval force now j d))
      | inr p ↦ rw p (ground (arith, lookup-collect interval force now j d))
    ]

lookup-put_back_at_kept :
    (key j : Text) (snapshot : HotEntry) (x : Option HotEntry) (s : HotState)
    → is_some (lookup j s.entries) ≡ true
    → is_some (lookup j (put_back_at key snapshot x s).entries) ≡ true
lookup-put_back_at_kept key j snapshot none s h = h
lookup-put_back_at_kept key j snapshot (some e) s h =
    lookup-assign_kept key j (put_back snapshot e) s.entries h

lookup-settle_kept :
    (key j : Text) (e : HotEntry) (failure : Option Text) (s : HotState)
    → is_some (lookup j s.entries) ≡ true
    → is_some (lookup j (settle_one key e failure s).1.entries) ≡ true
unfolding restore_counts
lookup-settle_kept key j e none s h = h
lookup-settle_kept key j e (some why) s h =
    lookup-put_back_at_kept key j e (lookup key s.entries) s h

lookup-later_kept :
    (i j : Text) (x : HotEntry) (d : List (Text × HotEntry))
    → is_some (lookup j d) ≡ true
    → is_some (lookup j ((i, x) ∷ d)) ≡ true
unfolding lookup
lookup-later_kept i j x d h = ground (arith, h)

-- What a flush collects has an entry.
collect-IsKept :
    (interval : ℕ) (force : Bool) (now : ℕ) (d : List (Text × HotEntry))
    → All (IsKept d) (collect_due interval force now d).1
unfolding collect_due lookup
collect-IsKept interval force now [] = tt
collect-IsKept interval force now ((k, e) ∷ d) =
    let later =
      All-imp (IsKept d) (IsKept ((k, e) ∷ d)) (collect_due interval force now d).1
        (λ (j, x) h. lookup-later_kept k j e d h) (collect-IsKept interval force now d) in
    elim (Bool-cases (is_due_entry interval force now e)) [
      | inl p ↦ rw p (
        subst (λ b. is_some (if b then some e else lookup k d) ≡ true) (sym (text_eq_refl k)) refl,
        later,
      )
      | inr p ↦ rw p later
    ]

module _ (xs : Pending) where
  pub kept-enqueue :
      (now_iso now : ℕ) (item : HotItem) (s : HotState)
      → All (IsKept s.entries) xs
      → All (IsKept (enqueue_hot_memory_rollup now_iso now item s).entries) xs
  unfolding enqueue_hot_memory_rollup
  kept-enqueue now_iso now item s =
      All-imp (IsKept s.entries) (IsKept (enqueue_hot_memory_rollup now_iso now item s).entries) xs
        (λ (j, x) h.
          lookup-assign_kept (hot_key item) j
            (seen_again now_iso now item
              (or_else (lookup (hot_key item) s.entries) (new_entry now_iso now item)))
            s.entries h)

  pub kept-collect :
      (interval : ℕ) (force : Bool) (now : ℕ) (d : List (Text × HotEntry))
      → All (IsKept d) xs
      → All
          (IsKept (collect_due interval force now d).0)
          (xs ++ (collect_due interval force now d).1)
  kept-collect interval force now d h =
      All-imp (IsKept d) (IsKept (collect_due interval force now d).0)
        (xs ++ (collect_due interval force now d).1)
        (λ (j, x) k. lookup-collect interval force now j d ∙ k)
        (All-append (IsKept d) xs (collect_due interval force now d).1 h
          (collect-IsKept interval force now d))

  pub kept-send :
      (w : Sending) (p : Text × HotEntry) (s : HotState)
      → All (IsKept s.entries) xs
      → All (IsKept (send_one w p s).1.entries) xs
  unfolding send_one
  kept-send w (key, e) s =
      All-imp (IsKept s.entries) (IsKept (send_one w (key, e) s).1.entries) xs
        (λ (j, x) h. lookup-settle_kept key j e (send_failure w e) s h)
