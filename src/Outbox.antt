-- ===== src/Outbox.antt =====
-- The fanout outbox of services/orchestrator/app.py on its SQLite backend: the rows of the table
-- `fanout_outbox`, and the statements that all operations share.
pub mod Enqueue
pub mod Batch
pub mod Mark
pub mod Invariant
pub mod Preservation
pub mod Ready
pub mod Taking
pub mod Claiming
pub mod Refreshing
pub mod Counting
pub mod Reaching
pub mod Settling
pub mod Repeating
pub mod Retention
pub mod Sweeping
use context_lattice.Prelude.{
  Bool, List, Option, Text, [], false, find, has_key, map, text_eq, true, update_where, ℕ, ◌==◌,
}
use context_lattice.Json.{Json}

pub data JobStatus : Type 0 where
  pending retrying running succeeded failed : JobStatus

pub record Job : Type 0 where
  pub id : ℕ
  pub event_id : Text
  pub target : Text
  pub project : Text
  pub file : Text
  pub summary : Text
  pub payload : Json
  pub topic_path : Text
  pub topic_tags : Json
  pub status : JobStatus
  pub attempts : ℕ
  pub max_attempts : ℕ
  pub next_attempt_at : ℕ
  pub last_attempt_at : Option ℕ
  pub completed_at : Option ℕ
  pub last_error : Option Text
  pub created_at : ℕ
  pub updated_at : ℕ
  pub dedupe_key : Text

-- `next_id` is the value that AUTOINCREMENT gives to the next row.
pub record Outbox : Type 0 where
  pub jobs : List Job
  pub next_id : ℕ

abbrev pub empty_outbox : Outbox
empty_outbox = record { jobs = []; next_id = 1 }

-- The environment's settings, in microseconds where the source has seconds.
pub record OutboxConfig : Type 0 where
  pub targets : List Text
  pub letta : Text
  pub max_attempts : ℕ
  pub retry_base : ℕ
  pub retry_max : ℕ
  pub coalesce_enabled : Bool
  pub coalesce_window : ℕ
  pub coalesce_targets : List Text
  pub stale_targets : List Text

-- `status IN ('pending', 'retrying')`
abbrev pub is_waiting_job : JobStatus → Bool
is_waiting_job pending = true
is_waiting_job retrying = true
is_waiting_job _ = false

abbrev pub is_running_job : JobStatus → Bool
is_running_job running = true
is_running_job _ = false

-- `status IN ('pending', 'retrying', 'running')`
abbrev pub is_open : JobStatus → Bool
is_open running = true
is_open s = is_waiting_job s

abbrev pub same_id : ℕ → ℕ → Bool
same_id a b = a == b

-- `WHERE id = ?` and `WHERE dedupe_key = ?`
abbrev pub has_job_id : ℕ → Job → Bool
has_job_id i j = has_key (λ (r : Job). r.id) same_id i j

abbrev pub has_dedupe_key : Text → Job → Bool
has_dedupe_key k j = has_key (λ (r : Job). r.dedupe_key) text_eq k j

unfoldable pub find_job : ℕ → Outbox → Option Job
find_job i o = find (has_job_id i) o.jobs

-- `UPDATE fanout_outbox SET … WHERE id = ?`
unfoldable pub set_job : ℕ → (Job → Job) → Outbox → Outbox
set_job i f o = record o { jobs = update_where (has_job_id i) f o.jobs }

abbrev pub job_ids : List Job → List ℕ
job_ids js = map (λ j. j.id) js

abbrev pub dedupe_keys : List Job → List Text
dedupe_keys js = map (λ j. j.dedupe_key) js
