-- ===== src/Writing/Answering.antt =====
-- Every run of `write_memory` has its outcome.
use mathlib.Core.Path.{subst}
use context_lattice.Prelude.{
  Bool, Bool-cases, List, Option, Reply, Text, [], ap, arith, contains, false, http_error, inl, inr,
  is_empty, is_some, length, none, not, or_else, refl, reply, some, sym, true, ℕ, ◌&&◌, ◌++◌, ◌+◌,
  ◌∙◌, ◌∷◌, ◌≡◌, ◌⊎◌,
}
use context_lattice.Caches.{lookup}
use context_lattice.Caches.Recency.{lookup-assign}
use context_lattice.Rollups.{
  HotEntry, HotItem, HotState, build_hot_memory_rollup_file, enqueue_hot_memory_rollup, new_entry,
  seen_again,
}
use context_lattice.Dedupe.{should_skip_duplicate_memory_write}
use context_lattice.Writing.{
  BankWrite, MemoryWrite, Moment, WriteAnswer, WriteConfig, WriteState, is_full,
}
use context_lattice.Writing.Handler.{
  Draft, answer_duplicate, answer_unchanged, dedupe_key, draft_of, is_hot_rollup, seed_if_failed,
}
use context_lattice.Writing.Deciding.{
  LettaDecision, bank_write, hot_item, letta_context, letta_decision, record_letta_admission_drop,
}
use context_lattice.Writing.Accepting.{
  buffer_under, buffer_write, check_duplicate, check_latest, queue_write, write_draft,
  write_drafted, write_memory, write_new,
}
use context_lattice.Writing.Keeping.{
  drop-Untouched, seed_if_failed-RawKept, seed_if_failed-Untouched,
}
use context_lattice.Writing.Outcomes.{
  Collected, IsNew, Outcome, OutcomeOf, Queued, Unstored, buffered, duplicate, is_duplicate,
  is_unchanged, overflow, queued, rollup_key, unchanged, unnamed, waiting_bytes, waiting_events,
  write_failed,
}

pub check_latest-Unstored :
    (config : WriteConfig) (d : Draft) (s : WriteState) → Unstored s (check_latest config d s).1
unfolding check_latest
check_latest-Unstored config d s = elim (Bool-cases d.hot_file) [
  | inl p ↦ rw p (refl, refl)
  | inr p ↦ rw p (refl, refl)
]

pub check_latest-seen :
    (config : WriteConfig) (d : Draft) (s : WriteState)
    → (check_latest config d s).1.dedupe_seen ≡ s.dedupe_seen
unfolding check_latest
check_latest-seen config d s = elim (Bool-cases d.hot_file) [
  | inl p ↦ rw p refl
  | inr p ↦ rw p refl
]

and-right : (a b : Bool) → (a && b) ≡ true → b ≡ true
and-right a b h = ground arith

found-events :
    (now_iso now : ℕ) (item : HotItem) (x : Option HotEntry)
    → (or_else x (new_entry now_iso now item)).events_since_flush ≡ waiting_events x
unfolding new_entry
found-events now_iso now item none = refl
found-events now_iso now item (some e) = refl

found-bytes :
    (now_iso now : ℕ) (item : HotItem) (x : Option HotEntry)
    → (or_else x (new_entry now_iso now item)).bytes_since_flush ≡ waiting_bytes x
unfolding new_entry
found-bytes now_iso now item none = refl
found-bytes now_iso now item (some e) = refl

enqueue-Collected :
    (config : WriteConfig) (now_iso now : ℕ) (d : Draft) (l : LettaDecision) (s : WriteState)
    → Collected d s.hot (enqueue_hot_memory_rollup now_iso now (hot_item config d l s) s.hot)
unfolding enqueue_hot_memory_rollup hot_item seen_again
enqueue-Collected config now_iso now d l s =
    let item = hot_item config d l s in
    let old = lookup (rollup_key d) s.hot.entries in
    let e = seen_again now_iso now item (or_else old (new_entry now_iso now item)) in
    (
      refl,
      (
        e,
        lookup-assign (rollup_key d) e s.hot.entries,
        ap (λ n. n + 1) (found-events now_iso now item old),
        ap (λ n. n + length d.content) (found-bytes now_iso now item old),
        refl,
        refl,
      ),
    )

-- `origin` is the state before the call, `s` the one where the parts begin.
module _ (config : WriteConfig) (m : Moment) (d : Draft) (origin : WriteState)
    (named : is_empty m.event_id ≡ false)
    (known : contains config.worker.fanout.targets config.worker.mongo_raw ≡ true) where
  buffer_under-Outcome :
      (l : LettaDecision) (s : WriteState) (r : Reply Text)
      → IsNew config m d origin true
      → build_hot_memory_rollup_file config.unquote config.hot_rollup_suffix d.file ≡ r
      → Unstored origin s
      → OutcomeOf config m d origin (buffer_under config m d l s r)
  unfolding enqueue_hot_memory_rollup
  buffer_under-Outcome l s (http_error code) new e same = unnamed code s new e same
  buffer_under-Outcome l s (reply file) new e same =
      let s1 : WriteState = record s {
        hot = enqueue_hot_memory_rollup m.now m.monotonic (hot_item config d l s) s.hot;
      } in
      let u = seed_if_failed-Untouched config m d (letta_context config d) s1 in
      buffered _ (seed_if_failed config m d (letta_context config d) s1) new refl
        (
          u.queue ∙ same.0,
          subst
              (λ (h : HotState).
                Collected d h (seed_if_failed config m d (letta_context config d) s1).hot)
              (same.1)
              (subst (λ (h : HotState). Collected d s.hot h) (sym u.hot)
                (enqueue-Collected config m.now m.monotonic d l s)),
        )
        (seed_if_failed-RawKept config m d (letta_context config d) s1 named known)

  queue_write-Outcome :
      (l : LettaDecision) (s : WriteState)
      → IsNew config m d origin false
      → Unstored origin s
      → OutcomeOf config m d origin (queue_write config m d l s)
  unfolding queue_write bank_write
  queue_write-Outcome l s new same =
      let w = bank_write config m d l s in
      let s1 : WriteState = record s { memory_bank_queue = s.memory_bank_queue ++ w ∷ [] } in
      let s2 = seed_if_failed config m d (letta_context config d) s1 in
      let u = seed_if_failed-Untouched config m d (letta_context config d) s1 in
      let placed : Queued m d origin s2 = (
        w,
        refl,
        refl,
        refl,
        refl,
        refl,
        u.queue ∙ ap (λ (q : List BankWrite). q ++ w ∷ []) (same.0),
        u.hot ∙ same.1,
      ) in
      let kept = seed_if_failed-RawKept config m d (letta_context config d) s1 named known in
      elim (Bool-cases (is_full config.memory_bank_queue_max s.memory_bank_queue)) [
        | inl p ↦ rw p (
            overflow _ new
              (subst (λ (q : List BankWrite). is_full config.memory_bank_queue_max q ≡ true)
                (same.0) p)
              same)
        | inr p ↦ elim (Bool-cases (not config.memory_write_async && is_some m.write_error)) [
          | inl q ↦
              rw (p, q)
                (write_failed s2 new
                  (and-right (not config.memory_write_async) (is_some m.write_error) q) placed kept)
          | inr q ↦ rw (p, q) (queued _ s2 new refl placed kept)
        ]
      ]

  write_new-Outcome :
      (s : WriteState)
      → is_unchanged config d origin ≡ false
      → is_duplicate config m d origin ≡ false
      → Unstored origin s
      → OutcomeOf config m d origin (write_new config m d s)
  unfolding write_new buffer_write
  write_new-Outcome s f g same =
      let l = letta_decision config m d s in
      let s1 = record_letta_admission_drop l.dropped s in
      let u = drop-Untouched l.dropped s in
      let same1 : Unstored origin s1 = (u.queue ∙ same.0, u.hot ∙ same.1) in
      elim (Bool-cases (is_hot_rollup config d)) [
        | inl p ↦ rw p (
            buffer_under-Outcome l s1
              (build_hot_memory_rollup_file config.unquote config.hot_rollup_suffix d.file)
              (f, g, p) refl same1)
        | inr p ↦ rw p (queue_write-Outcome l s1 (f, g, p) same1)
      ]

  answer_unchanged-Outcome :
      (s : WriteState)
      → is_unchanged config d origin ≡ true
      → Unstored origin s
      → OutcomeOf config m d origin
          (reply (answer_unchanged config m d s).0, (answer_unchanged config m d s).1)
  unfolding answer_unchanged
  answer_unchanged-Outcome s f same =
      let u = seed_if_failed-Untouched config m d none s in
      unchanged _ _ f refl (u.queue ∙ same.0, u.hot ∙ same.1)
        (seed_if_failed-RawKept config m d none s named known)

  write_draft-Outcome : OutcomeOf config m d origin (write_draft config m d origin)
  unfolding write_draft answer_duplicate check_duplicate
  write_draft-Outcome =
      let s1 = (check_latest config d origin).1 in
      let s2 = (check_duplicate config m d s1).1 in
      let first = check_latest-Unstored config d origin in
      let seen =
        ap
          (λ (t : List (Text × ℕ)).
            (should_skip_duplicate_memory_write config.dedupe m.monotonic (dedupe_key config d)
              t).0)
          (check_latest-seen config d origin) in
      elim (Bool-cases (is_unchanged config d origin)) [
        | inl p ↦ rw p (answer_unchanged-Outcome s1 p first)
        | inr p ↦ elim (Bool-cases (check_duplicate config m d s1).0) [
          | inl q ↦ rw (p, q) (duplicate _ s2 p (sym seen ∙ q) refl first)
          | inr q ↦ rw (p, q) (write_new-Outcome s2 p (sym seen ∙ q) first)
        ]
      ]

-- What a call ends with: the refusal of its request, or an outcome of its draft.
abbrev pub Answered :
    WriteConfig → Moment → MemoryWrite → WriteState → Reply WriteAnswer × WriteState → Type 0
Answered config m request s r =
    ((code : ℕ) × (draft_of config request ≡ http_error code) × (r ≡ (http_error code, s)))
    ⊎ ((d : Draft) × (draft_of config request ≡ reply d) × Outcome config m d s (r.0) (r.1))

-- Where the event has an id and the outbox knows the target of raw events, every call of `write_memory`
-- ends in one of these ways, each with its condition on the state before: the request is refused and
-- nothing changes; the content is that of the latest write, or a recent write had it, and nothing is
-- queued or buffered; a hot file's write is buffered once, or its rollup's name is refused; any other
-- write is queued once, or the queue is full and the answer is 503; or the queued write fails while the
-- call waits, and the answer is 502. Whenever the write is unchanged, buffered or queued, its raw
-- event is in Mongo or has a row in the outbox.
pub write_memory_lem :
    (config : WriteConfig) (m : Moment) (request : MemoryWrite) (s : WriteState)
    → is_empty m.event_id ≡ false
    → contains config.worker.fanout.targets config.worker.mongo_raw ≡ true
    → Answered config m request s (write_memory config m request s)
unfolding write_memory
write_memory_lem config m request s named known = go (draft_of config request) refl
  where
    go :
        (r : Reply Draft)
        → draft_of config request ≡ r
        → Answered config m request s (write_drafted config m s r)
    go (http_error code) e = inl (code, e, refl)
    go (reply d) e = inr (d, e, write_draft-Outcome config m d s named known)
