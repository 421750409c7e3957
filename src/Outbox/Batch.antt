-- ===== src/Outbox/Batch.antt =====
-- `claim_fanout_batch`: a worker takes the rows that are due.
use context_lattice.Prelude.{
  Bool, List, Option, Text, [], compare, leb, max, min, none, not, order_by, select, some, take,
  text_eq, then_le, true, ℕ, ◌&&◌, ◌+◌, ◌∷◌,
}
use context_lattice.Clock.{iso_leb, iso_rank}
use context_lattice.Outbox.{Job, Outbox, find_job, is_waiting_job, running, set_job}

-- The filter on the target: one, all but one, or none.
pub data TargetFilter : Type 0 where
  any_target : TargetFilter
  only_target all_but_target : Text → TargetFilter

-- `if target: … elif exclude_target: …`
unfoldable pub target_filter : Option Text → Option Text → TargetFilter
target_filter (some (c ∷ s)) exclude = only_target (c ∷ s)
target_filter target (some (c ∷ s)) = all_but_target (c ∷ s)
target_filter target exclude = any_target

abbrev pub passes : TargetFilter → Text → Bool
passes any_target t = true
passes (only_target s) t = text_eq t s
passes (all_but_target s) t = not (text_eq t s)

unfoldable pub is_due_job : ℕ → TargetFilter → Job → Bool
is_due_job now filter j =
    is_waiting_job j.status && iso_leb j.next_attempt_at now && passes filter j.target

-- `ORDER BY next_attempt_at ASC, id ASC`
unfoldable pub job_le : Job → Job → Bool
job_le a b =
    then_le (compare (iso_rank a.next_attempt_at) (iso_rank b.next_attempt_at)) (leb a.id b.id)

unfoldable pub take_row : ℕ → ℕ → Job → Job
take_row now attempts j = record j {
  status = running;
  attempts = attempts;
  last_attempt_at = some now;
  updated_at = now;
}

unfoldable pub due_jobs : ℕ → ℕ → TargetFilter → List Job → List Job
due_jobs now limit filter jobs =
    take (max 1 (min limit 256)) (order_by job_le (select (is_due_job now filter) jobs))

abbrev pub add_found : Option Job → List Job → List Job
add_found none js = js
add_found (some j) js = j ∷ js

-- The loop over the selected rows: each is updated and read again.
unfoldable pub claim_rows : ℕ → List Job → Outbox → List Job × Outbox
claim_rows now [] o = ([], o)
claim_rows now (row ∷ rows) o =
    let o' = set_job row.id (take_row now (row.attempts + 1)) o in
    let (claimed_jobs, last) = claim_rows now rows o' in
    (add_found (find_job row.id o') claimed_jobs, last)

unfoldable pub claim_fanout_batch : ℕ → ℕ → Option Text → Option Text → Outbox → List Job × Outbox
claim_fanout_batch now limit target exclude_target o =
    claim_rows now (due_jobs now limit (target_filter target exclude_target) o.jobs) o
