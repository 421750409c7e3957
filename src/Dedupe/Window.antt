-- ===== src/Dedupe/Window.antt =====
-- What `should_skip_duplicate_memory_write` remembers.
use mathlib.Core.Path.{subst}
use context_lattice.Prelude.{
  Bool, Bool-cases, Distinct, Distinct-select, List, Text, [], ap, arith, false, if◌then◌else◌, inl,
  inr, leb, length, ltb, max, none, occurs, refl, select, some, suc, sym, text_eq, text_eq_comm,
  text_eq_sound, true, ℕ, ◌-◌, ◌<◌, ◌∙◌, ◌∷◌, ◌≡◌, ◌≤◌,
}
use context_lattice.Caches.{assign, keys, lookup}
use context_lattice.Caches.Recency.{lookup-assign}
use context_lattice.Dedupe.{
  DedupeConfig, is_live, should_skip_duplicate_memory_write, trim_seen, within,
}

module _ {V : Type 0} where
  lookup-select-absent :
      (p : Text × V → Bool) (k : Text) (d : List (Text × V))
      → occurs text_eq k (keys d) ≡ false
      → lookup k (select p d) ≡ none
  unfolding lookup select occurs
  lookup-select-absent p k [] h = refl
  lookup-select-absent p k ((j, w) ∷ d) h = ground (arith, lookup-select-absent p k d)

  found_value :
      (k j : Text) (v w : V) (d : List (Text × V))
      → text_eq j k ≡ true
      → lookup k ((j, w) ∷ d) ≡ some v
      → w ≡ v
  unfolding lookup
  found_value k j v w d q e = ground (arith, e)

  lookup-select :
      (p : Text × V → Bool) (k : Text) (v : V) (d : List (Text × V))
      → Distinct text_eq (keys d)
      → lookup k d ≡ some v
      → lookup k (select p d) ≡ (if p (k, v) then some v else none)
  unfolding lookup select
  lookup-select p k v [] h e = cc
  lookup-select p k v ((j, w) ∷ d) h e = elim (Bool-cases (text_eq j k)) [
    | inl q ↦
        let same : j ≡ k = text_eq_sound j k q in
        let value : w ≡ v = found_value k j v w d q e in
        let gone =
          lookup-select-absent p k d (subst (λ i. occurs text_eq i (keys d) ≡ false) same h.0) in
        let test : p (k, v) ≡ p (j, w) = cc in
        rw test
          (elim (Bool-cases (p (j, w))) [ inl t ↦ rw t (rw q (ap some value)) | inr t ↦ rw t gone ])
    | inr q ↦ ground (arith, lookup-select p k v d h.1)
  ]

  length-assign : (k : Text) (v : V) (d : List (Text × V)) → length (assign k v d) ≤ suc (length d)
  unfolding assign
  length-assign k v [] = omega arith
  length-assign k v ((j, w) ∷ d) = ground (arith, length-assign k v d)

  length-select_le : (p : Text × V → Bool) (d : List (Text × V)) → length (select p d) ≤ length d
  unfolding select
  length-select_le p [] = omega arith
  length-select_le p (e ∷ d) = ground (arith, length-select_le p d)

  occurs-assign :
      (i k : Text) (v : V) (d : List (Text × V))
      → occurs text_eq i (keys d) ≡ false
      → text_eq k i ≡ false
      → occurs text_eq i (keys (assign k v d)) ≡ false
  unfolding occurs assign
  occurs-assign i k v [] h n = ground arith
  occurs-assign i k v ((j, w) ∷ d) h n = ground (arith, occurs-assign i k v d)

  Distinct-assign :
      (k : Text) (v : V) (d : List (Text × V))
      → Distinct text_eq (keys d)
      → Distinct text_eq (keys (assign k v d))
  unfolding occurs assign
  Distinct-assign k v [] h = (refl, tt)
  Distinct-assign k v ((j, w) ∷ d) h = elim (Bool-cases (text_eq j k)) [
    | inl q ↦ rw q h
    | inr q ↦ rw q (occurs-assign j k v d h.0 (text_eq_comm k j ∙ q), Distinct-assign k v d h.1)
  ]

expired_late :
    (config : DedupeConfig) (later : ℕ) (key : Text) (now : ℕ)
    → is_live config later (key, now) ≡ false
    → leb (later - now) config.window ≡ false
unfolding is_live
expired_late config later key now h = ground arith

within_live :
    (config : DedupeConfig) (later : ℕ) (key : Text) (now : ℕ)
    → within config.window later (if is_live config later (key, now) then some now else none)
      ≡ leb (later - now) config.window
within_live config later key now = elim (Bool-cases (is_live config later (key, now))) [
  | inl e ↦ rw e refl
  | inr e ↦ rw e (sym (expired_late config later key now e))
]

-- A write is skipped exactly where its key was written within the window: of two writes with one key,
-- `later` after `now`, the second is skipped where no more than the window lies between. The table may
-- hold anything before, but less than its bound.
pub duplicate_write_lem :
    (config : DedupeConfig) (now later : ℕ) (key : Text) (seen : List (Text × ℕ))
    → config.enabled ≡ true
    → 1 ≤ config.window
    → Distinct text_eq (keys seen)
    → length seen < max 100 config.max_keys
    → let after = (should_skip_duplicate_memory_write config now key seen).1 in
      ((should_skip_duplicate_memory_write config later key after).0
        ≡ leb (later - now) config.window)
      × (lookup key after ≡ some now)
unfolding should_skip_duplicate_memory_write trim_seen
duplicate_write_lem config now later key seen on w h short =
    let live = select (is_live config now) seen in
    let room : ltb (max 100 config.max_keys) (length (assign key now live)) ≡ false =
      ground
        (arith, length-assign key now live, length-select_le (is_live config now) seen, short) in
    let window : ltb 0 config.window ≡ true = ground arith in
    let distinct =
      Distinct-assign key now live
        (Distinct-select (λ (e : Text × ℕ). e.0) text_eq (is_live config now) seen h) in
    let again =
      lookup-select (is_live config later) key now (assign key now live) distinct
        (lookup-assign key now live) in
    rw (on, window, room, again) (within_live config later key now, lookup-assign key now live)
