-- ===== src/Tests/Queue.antt =====
-- A small task table.
use context_lattice.Prelude.{
  Bool, Option, Text, [], arith, codes, false, none, occurs, pos, refl, some, text_eq, true, ℕ, ◌∷◌,
}
use context_lattice.Tasks.{Status, Task, TaskConfig, TaskDb, blocked, queued, running}
use context_lattice.Tasks.Contract.{Contract}
use context_lattice.Tasks.Invariant.{IsValid}

abbrev pub config : TaskConfig
config = record {
  lease = 120_000_000;
  default_max_attempts = 4;
  retry_base = 2_000_000;
  retry_max = 300_000_000;
}

abbrev pub contract : Contract
contract = record {
  allowed_actions = codes "memory_write" ∷ codes "memory_search" ∷ [];
  callback_hosts = [];
  high_risk_actions = codes "payment" ∷ [];
  approval_gate = true;
  repr = λ v. codes "{}";
  urlparse = λ u. some (record { scheme = codes "https"; hostname = none });
}

abbrev pub from_iso : Text → Option ℕ
from_iso s = none

abbrev row : Text → Status → ℕ → ℕ → Option ℕ → Option Text → Bool → Task
row i s attempts max_attempts lease worker gated = record {
  id = i;
  title = codes "t";
  status = s;
  project = none;
  agent = none;
  priority = pos 1;
  payload = none;
  run_after = some 7;
  attempts = attempts;
  max_attempts = max_attempts;
  lease_expires_at = lease;
  claimed_by = worker;
  last_error = none;
  result = none;
  completed_at = none;
  created_at = 5;
  updated_at = 5;
  approval_required = gated;
  approved = false;
  risk_level = codes "low";
  action_type = none;
}

-- Waiting; running on its last attempt; waiting for an approval; running with attempts left.
abbrev pub fresh : Task
fresh = row (codes "a") queued 0 3 none none false

abbrev pub spent : Task
spent = row (codes "b") running 2 2 (some 50) (some (codes "w")) false

abbrev pub gated : Task
gated = row (codes "c") blocked 0 3 none none true

abbrev pub busy : Task
busy = row (codes "d") running 1 3 (some 500) (some (codes "v")) false

abbrev pub table : TaskDb
table = record { tasks = fresh ∷ spent ∷ gated ∷ busy ∷ []; events = [] }

pub table-IsValid : IsValid table
unfolding text_eq occurs
table-IsValid = record {
  rows = (
    record {
      within = omega arith;
      positive = omega arith;
      capped = omega arith;
      unclaimed = λ _. refl;
      unleased = λ _. refl;
      completed = λ h. cc;
    },
    (
      record {
        within = omega arith;
        positive = omega arith;
        capped = omega arith;
        unclaimed = λ h. cc;
        unleased = λ h. cc;
        completed = λ h. cc;
      },
      (
        record {
          within = omega arith;
          positive = omega arith;
          capped = omega arith;
          unclaimed = λ _. refl;
          unleased = λ _. refl;
          completed = λ h. cc;
        },
        (
          record {
            within = omega arith;
            positive = omega arith;
            capped = omega arith;
            unclaimed = λ h. cc;
            unleased = λ h. cc;
            completed = λ h. cc;
          },
          tt,
        ),
      ),
    ),
  );
  keys = (refl, (refl, (refl, (refl, tt))));
}
