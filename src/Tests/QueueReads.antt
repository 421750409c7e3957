-- ===== src/Tests/QueueReads.antt =====
-- The theorems on the queue's queries, on replays and approvals, and on repeated writes at work.
use context_lattice.Prelude.{
  [], arith, codes, count, false, find, has_key, length, lower, none, order_by, refl, select, some,
  sql_trim, starts_with, text_eq, true, ◌∷◌, ◌≡◌, ◌≤◌,
}
use context_lattice.Clock.{iso_leb, iso_rank}
use context_lattice.Tasks.{Task, TaskDb, failed, find_task}
use context_lattice.Tasks.Claim.{agent_accepts, can_claim, claim_transaction, is_internal}
use context_lattice.Tasks.Approval.{approve_task_record}
use context_lattice.Tasks.Replay.{replay_task_record}
use context_lattice.Tasks.Reopening.{approve_opens, replay_reopens}
use context_lattice.Tasks.Listing.{
  get_task_runtime_snapshot, is_dead, is_ready, list_deadletter_task_records, newest_first,
  project_passes,
}
use context_lattice.Caches.{lookup}
use context_lattice.Dedupe.{
  DedupeConfig, should_skip_duplicate_memory_write, should_skip_unchanged_latest_hash,
}
use context_lattice.Dedupe.Window.{duplicate_write_lem}
use context_lattice.Dedupe.Latest.{latest_hash_lem}
use context_lattice.Tests.Queue.{fresh, gated, spent, table, table-IsValid}

reads_program : Unit {0}
unfolding get_task_runtime_snapshot is_ready list_deadletter_task_records is_dead project_passes
    newest_first select order_by count iso_leb iso_rank find_task find text_eq has_key can_claim
    agent_accepts lower sql_trim starts_with is_internal claim_transaction
    should_skip_duplicate_memory_write should_skip_unchanged_latest_hash
reads_program = tt

abbrev gated_only : TaskDb
gated_only = record { tasks = gated ∷ []; events = [] }

abbrev dead : Task
dead = record fresh { status = failed; completed_at = some 9 }

replay_reopens_example :
    (u : Task) × (find_task
        (codes "b")
        (replay_task_record 60 (codes "b") none none false table table).1
      ≡ some u)
    × (can_claim 2_000_000 (codes "w") u ≡ false)
unfolding reads_program
replay_reopens_example =
    replay_reopens 60 2_000_000 (codes "b") (codes "w") none none false table table spent
      table-IsValid refl refl (omega arith)

approve_opens_example :
    (u : Task) × (find_task (codes "c") (approve_task_record 60 (codes "c") none none table table).1
      ≡ some u)
    × (can_claim 2_000_000 (codes "w") u ≡ true)
unfolding reads_program
approve_opens_example =
    approve_opens 60 2_000_000 (codes "c") (codes "w") none none table table gated refl refl

abbrev dedupe_config : DedupeConfig
dedupe_config = record {
  enabled = true;
  window = 120;
  max_keys = 10;
  hash_enabled = true;
  hash_max_keys = 10;
}

duplicate_write_example :
    let after = (should_skip_duplicate_memory_write dedupe_config 200 (codes "k") []).1 in
    ((should_skip_duplicate_memory_write dedupe_config 300 (codes "k") after).0 ≡ true)
    × (lookup (codes "k") after ≡ some 200)
duplicate_write_example =
    duplicate_write_lem dedupe_config 200 300 (codes "k") [] refl (omega arith) tt (omega arith)

latest_hash_example :
    let after =
      (should_skip_unchanged_latest_hash dedupe_config (codes "p") (codes "f") (codes "h") []).1 in
    ((should_skip_unchanged_latest_hash dedupe_config (codes "p") (codes "f") (codes "h") after).0
      ≡ true)
    × (length after ≤ 1000)
unfolding text_eq
latest_hash_example =
    latest_hash_lem dedupe_config (codes "p") (codes "f") (codes "h") (codes "h") [] refl
