-- ===== src/Writing/Repeating.antt =====
-- A write that is refused since the queue is full, and that the client sends again.
use mathlib.Core.Path.{subst}
use context_lattice.Prelude.{
  Bool-cases, Distinct, List, Reply, Text, ap, false, http_error, inl, inr, leb, length, max, none,
  refl, reply, sym, text_eq, true, ℕ, ◌-◌, ◌<◌, ◌∙◌, ◌≡◌, ◌≤◌,
}
use context_lattice.Caches.{keys}
use context_lattice.Dedupe.{should_skip_duplicate_memory_write}
use context_lattice.Dedupe.Window.{duplicate_write_lem}
use context_lattice.Writing.{
  BankWrite, MemoryWrite, Moment, WriteAnswer, WriteConfig, WriteState, is_full,
}
use context_lattice.Writing.Handler.{
  Draft, answer_duplicate, answer_unchanged, dedupe_key, draft_of,
}
use context_lattice.Writing.Deciding.{letta_decision, record_letta_admission_drop}
use context_lattice.Writing.Accepting.{
  check_duplicate, check_latest, queue_write, write_draft, write_memory, write_new,
}
use context_lattice.Writing.Keeping.{drop-Untouched, seed_if_failed-Untouched}
use context_lattice.Writing.Outcomes.{IsNew, Unstored, is_duplicate, is_unchanged}
use context_lattice.Writing.Answering.{check_latest-Unstored, check_latest-seen}

module _ (config : WriteConfig) (d : Draft) where
  -- A write whose key is known is answered as done, and stored nowhere.
  repeated-Unstored :
      (m : Moment) (s : WriteState)
      → is_duplicate config m d s ≡ true
      → ((a : WriteAnswer) × ((write_draft config m d s).0 ≡ reply a) × (a.deduped ≡ true))
        × Unstored s (write_draft config m d s).1
  unfolding write_draft check_duplicate answer_unchanged answer_duplicate
  repeated-Unstored m s h =
      let s1 = (check_latest config d s).1 in
      let first = check_latest-Unstored config d s in
      let u = seed_if_failed-Untouched config m d none s1 in
      let seen =
        ap
          (λ (t : List (Text × ℕ)).
            (should_skip_duplicate_memory_write config.dedupe m.monotonic (dedupe_key config d)
              t).0)
          (check_latest-seen config d s) in
      elim (Bool-cases (is_unchanged config d s)) [
        | inl p ↦ rw p ((_, refl, refl), (u.queue ∙ first.0, u.hot ∙ first.1))
        | inr p ↦ rw (p, seen ∙ h) ((_, refl, refl), first)
      ]

  -- The first call: an error, and the key stays among the recent writes.
  record Refused (m : Moment) (s : WriteState) (r : Reply WriteAnswer × WriteState) : Type 0 where
    error : r.0 ≡ http_error 503
    unstored : Unstored s (r.1)
    remembered :
        (r.1).dedupe_seen
        ≡ (should_skip_duplicate_memory_write config.dedupe m.monotonic
            (dedupe_key config d)
            s.dedupe_seen).1

  full-Refused :
      (m : Moment) (s : WriteState)
      → IsNew config m d s false
      → is_full config.memory_bank_queue_max s.memory_bank_queue ≡ true
      → Refused m s (write_draft config m d s)
  unfolding write_draft write_new queue_write check_duplicate
  full-Refused m s (p, q, hot) full =
      let s1 = (check_latest config d s).1 in
      let s2 = (check_duplicate config m d s1).1 in
      let l = letta_decision config m d s2 in
      let s3 = record_letta_admission_drop l.dropped s2 in
      let u = drop-Untouched l.dropped s2 in
      let first = check_latest-Unstored config d s in
      let seen = check_latest-seen config d s in
      let test =
        ap
          (λ (t : List (Text × ℕ)).
            (should_skip_duplicate_memory_write config.dedupe m.monotonic (dedupe_key config d)
              t).0)
          seen in
      let table =
        ap
          (λ (t : List (Text × ℕ)).
            (should_skip_duplicate_memory_write config.dedupe m.monotonic (dedupe_key config d)
              t).1)
          seen in
      let no_room : is_full config.memory_bank_queue_max s3.memory_bank_queue ≡ true =
        subst (λ (x : List BankWrite). is_full config.memory_bank_queue_max x ≡ true)
          (sym (u.queue ∙ first.0)) full in
      rw (p, test ∙ q, hot, no_room)
        (record {
          error = refl;
          unstored = (u.queue ∙ first.0, u.hot ∙ first.1);
          remembered = u.seen ∙ table;
        })

-- A new write finds the queue full and ends with 503; it is sent again within the window for repeated
-- writes. Then the client is told that it is done, as a duplicate, and no call has put it in the queue or
-- in the rollups. The recent writes may hold anything before, but fewer keys than their bound.
pub retried_write_lem :
    (config : WriteConfig) (m m' : Moment) (request : MemoryWrite) (d : Draft) (s : WriteState)
    → draft_of config request ≡ reply d
    → config.dedupe.enabled ≡ true
    → 1 ≤ config.dedupe.window
    → Distinct text_eq (keys s.dedupe_seen)
    → length s.dedupe_seen < max 100 config.dedupe.max_keys
    → IsNew config m d s false
    → is_full config.memory_bank_queue_max s.memory_bank_queue ≡ true
    → leb (m'.monotonic - m.monotonic) config.dedupe.window ≡ true
    → let first = write_memory config m request s in
      let again = write_memory config m' request (first.1) in
      (first.0 ≡ http_error 503)
      × ((a : WriteAnswer) × (again.0 ≡ reply a) × (a.deduped ≡ true))
      × (again.1.memory_bank_queue ≡ s.memory_bank_queue)
      × (again.1.hot ≡ s.hot)
unfolding write_memory
retried_write_lem config m m' request d s e on w distinct short new full soon =
    let f = full-Refused config d m s new full in
    let s' = (write_draft config m d s).1 in
    let known : is_duplicate config m' d s' ≡ true =
      ap
        (λ (t : List (Text × ℕ)).
          (should_skip_duplicate_memory_write config.dedupe m'.monotonic (dedupe_key config d) t).0)
        f.remembered
      ∙ (duplicate_write_lem config.dedupe m.monotonic m'.monotonic (dedupe_key config d)
          s.dedupe_seen on w distinct short).0
      ∙ soon in
    let again = repeated-Unstored config d m' s' known in
    rw e (f.error, again.0, again.1.0 ∙ f.unstored.0, again.1.1 ∙ f.unstored.1)
