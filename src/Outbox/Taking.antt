-- ===== src/Outbox/Taking.antt =====
-- The rows that `claim_fanout_batch` takes out of the table, one by one.
use context_lattice.Prelude.{
  All, Distinct, Distinct-order_by, Distinct-select, Distinct-take, Has, Has-order_by, Has-select,
  Has-take, List, Option, Text, [], ap, arith, count, false, find-Has, find-set_row,
  find-set_row_ne, inl, inr, length, length-order_by, length-select, length-take, map, max, min,
  occurs, order_by, refl, select, some, true, ℕ, ◌+◌, ◌∙◌, ◌∷◌, ◌≡◌,
}
use context_lattice.Outbox.{Job, Outbox, find_job, job_ids, same_id, set_job}
use context_lattice.Outbox.Batch.{
  TargetFilter, claim_fanout_batch, claim_rows, due_jobs, is_due_job, job_le, take_row,
  target_filter,
}
use context_lattice.Outbox.Invariant.{IsValidOutbox}

abbrev pub taken : ℕ → Job → Job
taken now j = take_row now (j.attempts + 1) j

pub same_id_sound : (a b : ℕ) → same_id a b ≡ true → a ≡ b
same_id_sound a b h = ground arith

same_id_refl : (a : ℕ) → same_id a a ≡ true
same_id_refl a = ground arith

same_id_comm : (a b : ℕ) → same_id a b ≡ same_id b a
same_id_comm a b = ground arith

take_row-id : (now n : ℕ) (j : Job) → (take_row now n j).id ≡ j.id
unfolding take_row
take_row-id now n j = refl

pub find_job-Has :
    (o : Outbox) (j : Job) → IsValidOutbox o → Has j o.jobs → find_job j.id o ≡ some j
unfolding find_job
find_job-Has o j v h = find-Has (λ r. r.id) same_id same_id_sound same_id_refl j o.jobs v.keys h

-- A row with another id is read as before.
pub find_job-set_job_ne :
    (i k : ℕ) (f : Job → Job) (o : Outbox)
    → ((j : Job) → (f j).id ≡ j.id)
    → same_id i k ≡ false
    → find_job k (set_job i f o) ≡ find_job k o
unfolding find_job set_job
find_job-set_job_ne i k f o same ne =
    find-set_row_ne (λ r. r.id) same_id i k f o.jobs same
      (λ y h. ground (arith, same_id_sound y i h))

pub find_job-set_job :
    (i : ℕ) (f : Job → Job) (o : Outbox) (j : Job)
    → ((u : Job) → (f u).id ≡ u.id)
    → find_job i o ≡ some j
    → find_job i (set_job i f o) ≡ some (f j)
unfolding find_job set_job
find_job-set_job i f o j same e = find-set_row (λ r. r.id) same_id i f o.jobs j same e

-- The rows are still as they were read when their turn comes.
abbrev AreStored : Outbox → List Job → Type 0
AreStored o rows = All (λ r. find_job r.id o ≡ some r) rows

stored_after :
    (now : ℕ) (row : Job) (rows : List Job) (o : Outbox)
    → occurs same_id row.id (job_ids rows) ≡ false
    → AreStored o rows
    → AreStored (set_job row.id (take_row now (row.attempts + 1)) o) rows
unfolding occurs
stored_after now row [] o d h = tt
stored_after now row (r ∷ rows) o d h = (
  find_job-set_job_ne row.id r.id _ o (take_row-id now (row.attempts + 1))
        (ground (arith, same_id_comm row.id r.id))
      ∙ h.0,
  stored_after now row rows o (ground arith) h.1,
)

claim_rows_lem :
    (now : ℕ) (rows : List Job) (o : Outbox)
    → Distinct same_id (job_ids rows)
    → AreStored o rows
    → (claim_rows now rows o).0 ≡ map (taken now) rows
unfolding claim_rows
claim_rows_lem now [] o d h = refl
claim_rows_lem now (row ∷ rows) o d h =
    let o' = set_job row.id (take_row now (row.attempts + 1)) o in
    rw
      (find_job-set_job row.id (take_row now (row.attempts + 1)) o row
        (take_row-id now (row.attempts + 1)) h.0)
      (ap (λ l. taken now row ∷ l)
        (claim_rows_lem now rows o' d.1 (stored_after now row rows o d.0 h.1)))

-- After the loop each selected row is stored as taken, and every other row is as before.
find_job-claim_rows :
    (now : ℕ) (rows : List Job) (o : Outbox) (k : ℕ)
    → occurs same_id k (job_ids rows) ≡ false
    → find_job k (claim_rows now rows o).1 ≡ find_job k o
unfolding claim_rows occurs
find_job-claim_rows now [] o k d = refl
find_job-claim_rows now (row ∷ rows) o k d =
    find_job-claim_rows now rows (set_job row.id (take_row now (row.attempts + 1)) o) k
      (ground arith)
    ∙ find_job-set_job_ne row.id k (take_row now (row.attempts + 1)) o
        (take_row-id now (row.attempts + 1)) (ground arith)

claim_rows-stored :
    (now : ℕ) (rows : List Job) (o : Outbox)
    → Distinct same_id (job_ids rows)
    → AreStored o rows
    → All (λ r. find_job r.id (claim_rows now rows o).1 ≡ some (taken now r)) rows
unfolding claim_rows
claim_rows-stored now [] o d h = tt
claim_rows-stored now (row ∷ rows) o d h =
    let o' = set_job row.id (take_row now (row.attempts + 1)) o in
    (
      find_job-claim_rows now rows o' row.id d.0
          ∙ find_job-set_job row.id (take_row now (row.attempts + 1)) o row
              (take_row-id now (row.attempts + 1)) h.0,
      claim_rows-stored now rows o' d.1 (stored_after now row rows o d.0 h.1),
    )

length-due_jobs :
    (now limit : ℕ) (filter : TargetFilter) (jobs : List Job)
    → length (due_jobs now limit filter jobs)
      ≡ min (max 1 (min limit 256)) (count (is_due_job now filter) jobs)
unfolding due_jobs
length-due_jobs now limit filter jobs = omega (
  arith,
  length-take (max 1 (min limit 256)) (order_by job_le (select (is_due_job now filter) jobs)),
  length-order_by job_le (select (is_due_job now filter) jobs),
  length-select (is_due_job now filter) jobs,
)

module _ (now limit : ℕ) (filter : TargetFilter) (o : Outbox) (v : IsValidOutbox o) where
  due_jobs-Distinct : Distinct same_id (job_ids (due_jobs now limit filter o.jobs))
  unfolding due_jobs
  due_jobs-Distinct =
      Distinct-take (λ r. r.id) same_id _ _
        (Distinct-order_by (λ r. r.id) same_id same_id_comm job_le _
          (Distinct-select (λ r. r.id) same_id (is_due_job now filter) o.jobs v.keys))

  pub due_jobs-Has :
      (j : Job)
      → Has j (due_jobs now limit filter o.jobs)
      → Has j o.jobs × (is_due_job now filter j ≡ true)
  unfolding due_jobs
  due_jobs-Has j h =
      (Has-select (is_due_job now filter) j o.jobs).0
        ((Has-order_by job_le j (select (is_due_job now filter) o.jobs)).0 (Has-take _ j _ h))

  due_jobs-AreStored : AreStored o (due_jobs now limit filter o.jobs)
  due_jobs-AreStored = go (due_jobs now limit filter o.jobs) (λ j h. (due_jobs-Has j h).0)
    where
      go : (l : List Job) → ((j : Job) → Has j l → Has j o.jobs) → AreStored o l
      go [] k = tt
      go (j ∷ l) k = (find_job-Has o j v (k j (inl refl)), go l (λ u h. k u (inr h)))

-- What a batch returns and stores, by the rows that the query selects.
pub claim_batch-rows :
    (now limit : ℕ) (target exclude_target : Option Text) (o : Outbox)
    → IsValidOutbox o
    → let rows = due_jobs now limit (target_filter target exclude_target) o.jobs in
      ((claim_fanout_batch now limit target exclude_target o).0 ≡ map (taken now) rows)
      × All
          (λ r.
            find_job r.id (claim_fanout_batch now limit target exclude_target o).1
            ≡ some (taken now r))
          rows
      × (length rows
          ≡ min
              (max 1 (min limit 256))
              (count (is_due_job now (target_filter target exclude_target)) o.jobs))
unfolding claim_fanout_batch
claim_batch-rows now limit target exclude_target o v =
    let filter = target_filter target exclude_target in
    let d = due_jobs-Distinct now limit filter o v in
    let s = due_jobs-AreStored now limit filter o v in
    (
      claim_rows_lem now _ o d s,
      claim_rows-stored now _ o d s,
      length-due_jobs now limit filter o.jobs,
    )

-- The rows that a batch leaves are as they were.
pub claim_batch-others :
    (now limit : ℕ) (target exclude_target : Option Text) (o : Outbox) (k : ℕ)
    → occurs same_id k (job_ids (due_jobs now limit (target_filter target exclude_target) o.jobs))
      ≡ false
    → find_job k (claim_fanout_batch now limit target exclude_target o).1 ≡ find_job k o
unfolding claim_fanout_batch
claim_batch-others now limit target exclude_target o k d = find_job-claim_rows now _ o k d
