-- ===== src/Tasks/Watching.antt =====
-- What the queries on the task tables tell: when there is no work, and which tasks are dead.
use context_lattice.Prelude.{
  Bool, Bool-cases, Has, Has-order_by, Has-select, List, Option, Text, [], arith, count, inl, inr,
  length, length-order_by, length-select, lower, max, min, none, order_by, refl, select, take,
  take-all, true, ℕ, ◌↔◌, ◌∙◌, ◌∷◌, ◌≡◌, ◌≤◌,
}
use context_lattice.Tasks.{Task, TaskConfig, TaskDb}
use context_lattice.Tasks.Claim.{can_claim, choose, claim_chosen, claim_transaction, worker_name_of}
use context_lattice.Tasks.Listing.{
  get_task_runtime_snapshot, is_dead, is_ready, list_deadletter_task_records, newest_first,
}

module _ (p q : Task → Bool) where
  count_mono : ((t : Task) → p t ≡ true → q t ≡ true) → (ts : List Task) → count p ts ≤ count q ts
  unfolding count
  count_mono h [] = omega arith
  count_mono h (t ∷ ts) = elim (Bool-cases (p t)) [
    | inl e ↦ rw (e, h t e) (omega (arith, count_mono h ts))
    | inr e ↦ rw e (ground (arith, count_mono h ts))
  ]

select-none : (p : Task → Bool) (ts : List Task) → count p ts ≡ 0 → select p ts ≡ []
unfolding count select
select-none p [] h = refl
select-none p (t ∷ ts) h = ground (arith, select-none p ts)

can_claim-is_ready :
    (now : ℕ) (key : Text) (t : Task) → can_claim now key t ≡ true → is_ready now t ≡ true
unfolding can_claim is_ready
can_claim-is_ready now key t h = ground arith

-- Where the snapshot of a moment counts no task as ready, no worker is given a task at that moment, and
-- the claim changes nothing.
nothing_ready :
    (config : TaskConfig) (now : ℕ) (worker : Option Text) (db : TaskDb)
    → (get_task_runtime_snapshot now db).queue_ready ≡ 0
    → claim_transaction config now worker db ≡ (none, db)
unfolding get_task_runtime_snapshot claim_transaction choose claim_chosen order_by
nothing_ready config now worker db h =
    let key = lower (worker_name_of worker) in
    let fewer =
      count_mono (can_claim now key) (is_ready now) (can_claim-is_ready now key) db.tasks in
    let empty : select (can_claim now key) db.tasks ≡ [] =
      select-none (can_claim now key) db.tasks (omega (arith, h, fewer)) in
    rw empty refl

-- The dead letters are tasks of the table that failed (of the project, where one is asked for). Where
-- there are no more of them than the limit (at least one, at most 500) they are all listed; the list
-- never passes that limit.
pub deadletter_exact :
    (project : Option Text) (limit : ℕ) (db : TaskDb) (t : Task)
    → count (is_dead project) db.tasks ≤ max 1 (min limit 500)
    → (Has t (list_deadletter_task_records project limit db)
        ↔ (Has t db.tasks × (is_dead project t ≡ true)))
      × (length (list_deadletter_task_records project limit db) ≡ count (is_dead project) db.tasks)
unfolding list_deadletter_task_records
deadletter_exact project limit db t fits =
    let dead = select (is_dead project) db.tasks in
    let sorted = order_by newest_first dead in
    let size : length sorted ≡ count (is_dead project) db.tasks =
      length-order_by newest_first dead ∙ length-select (is_dead project) db.tasks in
    let all : take (max 1 (min limit 500)) sorted ≡ sorted =
      take-all (max 1 (min limit 500)) sorted (omega (arith, size, fits)) in
    rw all (
      (
        λ h. (Has-select (is_dead project) t db.tasks).0 ((Has-order_by newest_first t dead).0 h),
        λ h. (Has-order_by newest_first t dead).1 ((Has-select (is_dead project) t db.tasks).1 h),
      ),
      size,
    )
