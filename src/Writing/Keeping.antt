-- ===== src/Writing/Keeping.antt =====
-- What the parts of `write_memory` leave alone.
use mathlib.Core.Path.{subst}
use context_lattice.Prelude.{
  Bool-cases, Option, Text, [], ap, codes, contains, false, find, inl, inr, is_empty, none, refl,
  some, sym, text_eq, true, ◌∷◌, ◌≡◌, ◌⊎◌,
}
use context_lattice.Json.{Fields, Json, get, obj, str, str_of, truthy}
use context_lattice.Outbox.{Job, Outbox, has_dedupe_key, pending}
use context_lattice.Outbox.Enqueue.{dedupe_key_of, enqueue_fanout_outbox, event_of}
use context_lattice.Outbox.Refreshing.{IsFresh, forced-IsFresh}
use context_lattice.Workers.{WorkerState}
use context_lattice.Workers.Errors.{with_outbox}
use context_lattice.Admission.{Admission}
use context_lattice.Writing.{Moment, WriteConfig, WriteState, is_full}
use context_lattice.Writing.Handler.{
  Draft, build_raw_memory_event, mongo_retry_payload, retry_event, seed_after, seed_if_failed,
  seed_mongo_retry, signal,
}
use context_lattice.Writing.Deciding.{record_letta_admission_drop}

-- The queue of the memory bank, the rollups and the recent writes are as they were.
pub record Untouched (s s' : WriteState) : Type 0 where
  pub queue : s'.memory_bank_queue ≡ s.memory_bank_queue
  pub hot : s'.hot ≡ s.hot
  pub seen : s'.dedupe_seen ≡ s.dedupe_seen

abbrev pub nothing_touched : (s : WriteState) → Untouched s s
nothing_touched s = record { queue = refl; hot = refl; seen = refl }

pub drop-Untouched :
    (a : Option Admission) (s : WriteState) → Untouched s (record_letta_admission_drop a s)
unfolding record_letta_admission_drop
drop-Untouched none s = nothing_touched s
drop-Untouched (some a) s = record { queue = refl; hot = refl; seen = refl }

pub drop-worker :
    (a : Option Admission) (s : WriteState) → (record_letta_admission_drop a s).worker ≡ s.worker
unfolding record_letta_admission_drop
drop-worker none s = refl
drop-worker (some a) s = refl

-- A field of a payload.
abbrev pub payload_field : Text → Json → Option Json
payload_field k (obj fs) = get k fs
payload_field k v = none

-- A pending row of the outbox retries the write of the raw event, and carries it: the id, the project,
-- the file and the content.
pub record RawQueued (config : WriteConfig) (m : Moment) (d : Draft) (o : Outbox) : Type 0 where
  pub row : Job
  pub found :
      find (has_dedupe_key (dedupe_key_of m.event_id config.worker.mongo_raw)) o.jobs ≡ some row
  pub waiting : row.status ≡ pending
  pub raw : Fields
  pub carried : payload_field (codes "raw_event") row.payload ≡ some (obj raw)
  pub raw_id : get (codes "event_id") raw ≡ some (str m.event_id)
  pub raw_project : get (codes "project") raw ≡ some (str d.project)
  pub raw_file : get (codes "file") raw ≡ some (str d.file)
  pub raw_content : get (codes "content_raw") raw ≡ some (str d.content)

-- The raw event is in Mongo, or a row of the outbox brings it there.
abbrev pub RawKept : WriteConfig → Moment → Draft → WriteState → Type 0
RawKept config m d s = (m.mongo_error ≡ none) ⊎ RawQueued config m d s.worker.outbox

module _ (config : WriteConfig) (m : Moment) (d : Draft) where
  signal-Untouched : (s : WriteState) → Untouched s (signal config m d s)
  unfolding signal
  signal-Untouched s =
      elim (Bool-cases (is_full config.memory_write_queue_max s.memory_write_queue)) [
        | inl p ↦ rw p (record { queue = refl; hot = refl; seen = refl })
        | inr p ↦ rw p (record { queue = refl; hot = refl; seen = refl })
      ]

  signal-worker : (s : WriteState) → (signal config m d s).worker ≡ s.worker
  unfolding signal
  signal-worker s = elim (Bool-cases (is_full config.memory_write_queue_max s.memory_write_queue)) [
    | inl p ↦ rw p refl
    | inr p ↦ rw p refl
  ]

  seed-Untouched :
      (context : Option Fields) (s : WriteState)
      → Untouched s (seed_mongo_retry config m d context s)
  unfolding seed_mongo_retry
  seed-Untouched context s =
      let r =
        enqueue_fanout_outbox config.worker.fanout m.now m.coalesce_cutoff true
          (retry_event config m d context s) (config.worker.mongo_raw ∷ []) s.worker.outbox in
      let u = signal-Untouched (record s { worker = with_outbox s.worker (r.1) }) in
      record { queue = u.queue; hot = u.hot; seen = u.seen }

  retry_event-event_id :
      (context : Option Fields) (s : WriteState)
      → is_empty m.event_id ≡ false
      → (retry_event config m d context s).event_id ≡ m.event_id
  unfolding retry_event event_of mongo_retry_payload get truthy text_eq str_of
  retry_event-event_id context s h = rw (h, h) refl

  fresh-RawQueued :
      (context : Option Fields) (s : WriteState) (o : Outbox)
      → is_empty m.event_id ≡ false
      → IsFresh
          (retry_event config m d context s)
          (dedupe_key_of (retry_event config m d context s).event_id config.worker.mongo_raw)
          o
      → RawQueued config m d o
  unfolding retry_event event_of mongo_retry_payload build_raw_memory_event get text_eq
  fresh-RawQueued context s o h f = record {
    row = f.row;
    found =
        subst
          (λ i. find (has_dedupe_key (dedupe_key_of i config.worker.mongo_raw)) o.jobs ≡ some f.row)
          (retry_event-event_id context s h) f.found;
    waiting = f.waiting;
    raw = build_raw_memory_event config m d;
    carried = ap (payload_field (codes "raw_event")) f.carries;
    raw_id = refl;
    raw_project = refl;
    raw_file = refl;
    raw_content = refl;
  }

  seed-RawQueued :
      (context : Option Fields) (s : WriteState)
      → is_empty m.event_id ≡ false
      → contains config.worker.fanout.targets config.worker.mongo_raw ≡ true
      → RawQueued config m d (seed_mongo_retry config m d context s).worker.outbox
  unfolding seed_mongo_retry with_outbox
  seed-RawQueued context s h c =
      let e = retry_event config m d context s in
      let r =
        enqueue_fanout_outbox config.worker.fanout m.now m.coalesce_cutoff true e
          (config.worker.mongo_raw ∷ []) s.worker.outbox in
      subst (λ (x : WorkerState). RawQueued config m d x.outbox)
        (sym (signal-worker (record s { worker = with_outbox s.worker (r.1) })))
        (fresh-RawQueued context s (r.1) h (
          forced-IsFresh config.worker.fanout m.now m.coalesce_cutoff e config.worker.mongo_raw
            s.worker.outbox c))

  seed_after-Untouched :
      (error : Option Text) (context : Option Fields) (s : WriteState)
      → Untouched s (seed_after config m d error context s)
  seed_after-Untouched none context s = nothing_touched s
  seed_after-Untouched (some error) context s = seed-Untouched context s

  pub seed_if_failed-Untouched :
      (context : Option Fields) (s : WriteState) → Untouched s (seed_if_failed config m d context s)
  unfolding seed_if_failed
  seed_if_failed-Untouched context s = seed_after-Untouched m.mongo_error context s

  seed_after-RawKept :
      (error : Option Text) (context : Option Fields) (s : WriteState)
      → is_empty m.event_id ≡ false
      → contains config.worker.fanout.targets config.worker.mongo_raw ≡ true
      → (error ≡ none) ⊎ RawQueued config m d (seed_after config m d error context s).worker.outbox
  seed_after-RawKept none context s h c = inl refl
  seed_after-RawKept (some error) context s h c = inr (seed-RawQueued context s h c)

  pub seed_if_failed-RawKept :
      (context : Option Fields) (s : WriteState)
      → is_empty m.event_id ≡ false
      → contains config.worker.fanout.targets config.worker.mongo_raw ≡ true
      → RawKept config m d (seed_if_failed config m d context s)
  unfolding seed_if_failed
  seed_if_failed-RawKept context s h c = seed_after-RawKept m.mongo_error context s h c
