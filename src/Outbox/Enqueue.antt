-- ===== src/Outbox/Enqueue.antt =====
-- `enqueue_fanout_outbox` and the coalescer's settings: one row for each target of an event, or an
-- update of a row that waits for the same file.
use context_lattice.Prelude.{
  Bool, List, Option, Text, [], codes, compare, contains, find, head?, if◌then◌else◌, is_empty, leb,
  ltb, none, not, or_else, order_by, select, some, text_eq, then_le, update_where, ℕ, ◌&&◌, ◌++◌,
  ◌+◌, ◌==◌, ◌||◌, ◌∷◌,
}
use context_lattice.Clock.{iso_leb, iso_rank}
use context_lattice.Json.{Fields, Json, arr, get, nil, obj, or_value, str_of, truthy}
use context_lattice.Outbox.{
  Job, Outbox, OutboxConfig, has_dedupe_key, has_job_id, is_waiting_job, pending, set_job,
}

-- What the body reads off `event_payload`, with the JSON text replaced by its value.
pub record FanoutEvent : Type 0 where
  pub event_id : Text
  pub project : Text
  pub file : Text
  pub summary : Text
  pub topic_path : Text
  pub topic_tags : Json
  pub payload : Json

-- `str(event_payload.get(k) or "")`
abbrev text_field : (Json → Text) → Text → Fields → Text
text_field repr k fs = elim (get k fs) [
  | none ↦ []
  | some v ↦ if truthy v then str_of repr v else []
]

-- `fresh` is the text of `uuid.uuid4().hex`, for an event without an id.
unfoldable pub event_of : (Json → Text) → Text → Fields → FanoutEvent
event_of repr fresh fs = record {
  event_id =
      let given_id = text_field repr (codes "event_id") fs in
      if is_empty given_id then fresh else given_id;
  project = text_field repr (codes "project") fs;
  file = text_field repr (codes "file") fs;
  summary = text_field repr (codes "summary") fs;
  topic_path = text_field repr (codes "topic_path") fs;
  topic_tags = or_else (or_value (get (codes "topic_tags") fs) none) (arr nil);
  payload = obj fs;
}

unfoldable pub coalescer_active : OutboxConfig → Text → Bool
coalescer_active config target =
    config.coalesce_enabled
    && contains config.coalesce_targets target
    && ltb 0 config.coalesce_window

unfoldable pub ignores_window : OutboxConfig → Text → Bool
ignores_window config target = config.coalesce_enabled && contains config.stale_targets target

unfoldable pub dedupe_key_of : Text → Text → Text
dedupe_key_of event_id target = event_id ++ (b':' ∷ target)

-- The counters of the result.
pub record Tally : Type 0 where
  pub inserted : ℕ
  pub requeued : ℕ
  pub existing : ℕ
  pub coalesced : ℕ
  pub coalesced_by_target : List (Text × ℕ)

abbrev pub zero_tally : Tally
zero_tally = record {
  inserted = 0;
  requeued = 0;
  existing = 0;
  coalesced = 0;
  coalesced_by_target = [];
}

-- `d[k] = int(d.get(k, 0) or 0) + n`
unfoldable pub add_count : Text → ℕ → List (Text × ℕ) → List (Text × ℕ)
add_count k n [] = (k, n) ∷ []
add_count k n ((j, m) ∷ d) =
    let rest = add_count k n d in if text_eq j k then (j, m + n) ∷ d else (j, m) ∷ rest

-- `ORDER BY updated_at DESC, id DESC`
abbrev newest_le : Job → Job → Bool
newest_le a b = then_le (compare (iso_rank b.updated_at) (iso_rank a.updated_at)) (leb b.id a.id)

-- The rows that the coalescer's query selects; `cutoff` is the start of the window.
unfoldable pub can_coalesce : OutboxConfig → ℕ → FanoutEvent → Text → Job → Bool
can_coalesce config cutoff event target j =
    text_eq j.target target
    && text_eq j.project event.project
    && text_eq j.file event.file
    && is_waiting_job j.status
    && (ignores_window config target || iso_leb cutoff j.updated_at)

unfoldable pub coalesce_row : ℕ → FanoutEvent → Job → Job
coalesce_row now event j = record j {
  payload = event.payload;
  summary = event.summary;
  topic_path = event.topic_path;
  topic_tags = event.topic_tags;
  next_attempt_at = now;
  updated_at = now;
}

unfoldable pub requeue_row : OutboxConfig → ℕ → FanoutEvent → Job → Job
requeue_row config now event j = record j {
  status = pending;
  attempts = 0;
  next_attempt_at = now;
  updated_at = now;
  last_error = none;
  completed_at = none;
  payload = event.payload;
  summary = event.summary;
  topic_path = event.topic_path;
  topic_tags = event.topic_tags;
  max_attempts = config.max_attempts;
}

unfoldable pub new_job : OutboxConfig → ℕ → FanoutEvent → Text → ℕ → Job
unfolding dedupe_key_of
new_job config now event target i = record {
  id = i;
  event_id = event.event_id;
  target = target;
  project = event.project;
  file = event.file;
  summary = event.summary;
  payload = event.payload;
  topic_path = event.topic_path;
  topic_tags = event.topic_tags;
  status = pending;
  attempts = 0;
  max_attempts = config.max_attempts;
  next_attempt_at = now;
  last_attempt_at = none;
  completed_at = none;
  last_error = none;
  created_at = now;
  updated_at = now;
  dedupe_key = dedupe_key_of event.event_id target;
}

module _ (config : OutboxConfig) (now cutoff : ℕ) (force : Bool) (event : FanoutEvent) where
  -- The row that the coalescer updates, if it runs for the target.
  unfoldable pub coalesced_job : Text → List Job → Option Job
  coalesced_job target jobs =
      if not force
        && not (is_empty event.project)
        && not (is_empty event.file)
        && coalescer_active config target
      then head? (order_by newest_le (select (can_coalesce config cutoff event target) jobs))
      else none

  -- An event that has its row already: counted, and put back where that is forced.
  unfoldable pub enqueue_existing : Job → Outbox → Tally → Tally × Outbox
  enqueue_existing row o t =
      if force
      then (
        record t { existing = t.existing + 1; requeued = t.requeued + 1 },
        set_job row.id (requeue_row config now event) o,
      )
      else (record t { existing = t.existing + 1 }, o)

  unfoldable pub enqueue_new : Text → Outbox → Tally → Tally × Outbox
  enqueue_new target o t = (
    record t { inserted = t.inserted + 1 },
    record o {
      jobs = o.jobs ++ new_job config now event target o.next_id ∷ [];
      next_id = o.next_id + 1;
    },
  )

  unfoldable pub enqueue_keyed : Text → Option Job → Outbox → Tally → Tally × Outbox
  enqueue_keyed target none o t = enqueue_new target o t
  enqueue_keyed target (some row) o t = enqueue_existing row o t

  -- The update of the coalescer wants the row to be waiting still. The transaction is one, so it is.
  unfoldable pub enqueue_target : Text → Option Job → Outbox → Tally → Tally × Outbox
  enqueue_target target none o t =
      enqueue_keyed target (find (has_dedupe_key (dedupe_key_of event.event_id target)) o.jobs) o t
  enqueue_target target (some row) o t = (
    record t {
      coalesced = t.coalesced + 1;
      coalesced_by_target = add_count target 1 t.coalesced_by_target;
    },
    record o {
      jobs =
          update_where (λ j. has_job_id row.id j && is_waiting_job j.status)
            (coalesce_row now event) o.jobs;
    },
  )

  -- The loop over the targets.
  unfoldable pub enqueue_targets : List Text → Outbox → Tally → Tally × Outbox
  enqueue_targets [] o t = (t, o)
  enqueue_targets (target ∷ rest) o t =
      let (t', o') = enqueue_target target (coalesced_job target o.jobs) o t in
      enqueue_targets rest o' t'

  unfoldable pub known_targets : List Text → List Text
  known_targets targets = select (contains config.targets) targets

  unfoldable pub enqueue_fanout_outbox : List Text → Outbox → Tally × Outbox
  enqueue_fanout_outbox targets o = enqueue_targets (known_targets targets) o zero_tally

-- `_record_fanout_coalesce_result`: the process-wide counters.
pub record CoalesceStats : Type 0 where
  pub total : ℕ
  pub by_target : List (Text × ℕ)

unfoldable pub add_counts : List (Text × ℕ) → List (Text × ℕ) → List (Text × ℕ)
unfolding add_count
add_counts [] d = d
add_counts ((k, n) ∷ more) d = add_counts more (if n == 0 then d else add_count k n d)

unfoldable pub record_coalesce_result : Tally → CoalesceStats → CoalesceStats
unfolding add_counts
record_coalesce_result t stats = if t.coalesced == 0 then stats else record {
  total = stats.total + t.coalesced;
  by_target = add_counts t.coalesced_by_target stats.by_target;
}
