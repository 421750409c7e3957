-- ===== src/Tests/Fanout.antt =====
-- A small outbox.
use context_lattice.Prelude.{
  Option, Text, [], arith, codes, false, none, occurs, refl, some, text_eq, ℕ, ◌++◌, ◌∷◌,
}
use context_lattice.Json.{arr, end, nil, null, obj}
use context_lattice.Outbox.{Job, JobStatus, Outbox, OutboxConfig, pending, running}
use context_lattice.Outbox.Enqueue.{FanoutEvent}
use context_lattice.Outbox.Invariant.{IsValidOutbox}

abbrev pub outbox_config : OutboxConfig
outbox_config = record {
  targets = codes "qdrant" ∷ codes "letta" ∷ [];
  letta = codes "letta";
  max_attempts = 3;
  retry_base = 2_000_000;
  retry_max = 60_000_000;
  coalesce_enabled = false;
  coalesce_window = 5_000_000;
  coalesce_targets = codes "letta" ∷ [];
  stale_targets = [];
}

abbrev pub event : FanoutEvent
event = record {
  event_id = codes "e";
  project = codes "p";
  file = codes "f";
  summary = [];
  topic_path = [];
  topic_tags = arr nil;
  payload = obj end;
}

abbrev job : ℕ → Text → JobStatus → ℕ → Option ℕ → Job
job i target status attempts last = record {
  id = i;
  event_id = codes "e";
  target = target;
  project = codes "p";
  file = codes "f";
  summary = [];
  payload = null;
  topic_path = [];
  topic_tags = arr nil;
  status = status;
  attempts = attempts;
  max_attempts = 3;
  next_attempt_at = 10;
  last_attempt_at = last;
  completed_at = none;
  last_error = none;
  created_at = 5;
  updated_at = 5;
  dedupe_key = codes "e:" ++ target;
}

-- Waiting; running on its last attempt.
abbrev pub waiting_job : Job
waiting_job = job 1 (codes "qdrant") pending 0 none

abbrev pub running_job : Job
running_job = job 2 (codes "letta") running 3 (some 20)

abbrev pub outbox : Outbox
outbox = record { jobs = waiting_job ∷ running_job ∷ []; next_id = 3 }

pub outbox-IsValidOutbox : IsValidOutbox outbox
unfolding text_eq occurs
outbox-IsValidOutbox = record {
  rows = (
    record { below = omega arith; attempted = λ h. cc; closed = λ h. cc },
    (record { below = omega arith; attempted = λ _. refl; closed = λ h. cc }, tt),
  );
  keys = (refl, (refl, tt));
  dedupe = (refl, (refl, tt));
}
