-- ===== src/Tasks/Recovering.antt =====
-- What `recover_expired_task_leases` does to every row, and how many rows it reports.
use mathlib.Core.Option
use mathlib.Core.Bool.{false≢true}
use mathlib.Core.Path.{subst}
use context_lattice.Prelude.{
  Bool, Bool-cases, Has, Has-order_by, Has-select, Has-take, List, Option, Option-cases, Text, [],
  ap, arith, contains, count, false, if◌then◌else◌, inl, inr, length, length-order_by,
  length-select, length-take, min, none, order_by, refl, select, some, suc, sym, take, take-all,
  text_eq, text_eq_refl, text_eq_sound, true, ℕ, ◌&&◌, ◌+◌, ◌∙◌, ◌∷◌, ◌≡◌, ◌≤◌,
}
use context_lattice.Clock.{iso_leb}
use context_lattice.Tasks.{
  Status, Task, TaskDb, approved, blocked, canceled, failed, find_task, ids, is_running, queued,
  running, succeeded,
}
use context_lattice.Tasks.Invariant.{
  IsKeyed, IsValid, find_task-Has_keyed, find_task-log_event, find_task-set_task_if,
}
use context_lattice.Tasks.Leases.{
  expired_rows, lease_due, lease_expired_by, lease_le, recover_expired_task_leases, recover_one,
  recover_rows, requeue_expired,
}

requeue_expired_twice :
    (now : ℕ) (t : Task) → requeue_expired now (requeue_expired now t) ≡ requeue_expired now t
unfolding requeue_expired
requeue_expired_twice now t = refl

find_task-recover_one :
    (now : ℕ) (i j : Text) (db : TaskDb)
    → find_task j (recover_one now i db)
      ≡ Option.map (λ t. if text_eq i j then requeue_expired now t else t) (find_task j db)
unfolding recover_one requeue_expired
find_task-recover_one now i j db =
    find_task-log_event j _ _ ∙ find_task-set_task_if i j (requeue_expired now) db (λ t. refl)

-- Requeueing is idempotent, so it does not matter how often an id is listed.
pub find_task-recover_rows :
    (now : ℕ) (is : List Text) (n : ℕ) (j : Text) (db : TaskDb)
    → find_task j (recover_rows now is n db).1
      ≡ Option.map (λ t. if contains is j then requeue_expired now t else t) (find_task j db)
unfolding recover_rows contains
find_task-recover_rows now [] n j db = elim (Option-cases (find_task j db)) [
  | inl e ↦ rw e
  | inr (t, e) ↦ rw e
]
find_task-recover_rows now (i ∷ is) n j db =
    find_task-recover_rows now is (n + 1) j (recover_one now i db)
    ∙ ap (Option.map (λ t. if contains is j then requeue_expired now t else t))
        (find_task-recover_one now i j db)
    ∙ once_more (find_task j db)
  where
    once_more :
        (o : Option Task)
        → Option.map
            (λ t. if contains is j then requeue_expired now t else t)
            (Option.map (λ t. if text_eq i j then requeue_expired now t else t) o)
          ≡ Option.map (λ t. if contains (i ∷ is) j then requeue_expired now t else t) o
    once_more none = refl
    once_more (some t) = ap some (ground (arith, requeue_expired_twice now t))

recover_rows_count :
    (now : ℕ) (is : List Text) (n : ℕ) (db : TaskDb) → (recover_rows now is n db).0 ≡ n + length is
unfolding recover_rows
recover_rows_count now [] n db = omega arith
recover_rows_count now (i ∷ is) n db =
    omega (arith, recover_rows_count now is (n + 1) (recover_one now i db))

length-ids : (ts : List Task) → length (ids ts) ≡ length ts
length-ids [] = refl
length-ids (t ∷ ts) = ap suc (length-ids ts)

-- The number that a recovery reports is the number of expired leases, cut at the limit.
pub recover-count :
    (now limit : ℕ) (db : TaskDb)
    → (recover_expired_task_leases now limit db).0
      ≡ min limit (count (lease_expired_by now) db.tasks)
unfolding recover_expired_task_leases expired_rows
recover-count now limit db = omega (
  arith,
  recover_rows_count now (ids (expired_rows now limit db.tasks)) 0 db,
  length-ids (expired_rows now limit db.tasks),
  length-take limit (order_by lease_le (select (lease_expired_by now) db.tasks)),
  length-order_by lease_le (select (lease_expired_by now) db.tasks),
  length-select (lease_expired_by now) db.tasks,
)

-- An id is listed exactly where its row is.
contains-ids : (ts : List Task) (t : Task) → Has t ts → contains (ids ts) t.id ≡ true
unfolding contains
contains-ids [] t h = absurd h
contains-ids (u ∷ us) t (inl e) = rw (ap (λ r. r.id) e) (rw (text_eq_refl t.id))
contains-ids (u ∷ us) t (inr h) = ground (arith, contains-ids us t h)

ids-contains :
    (ts : List Task) (i : Text) → contains (ids ts) i ≡ true → (t : Task) × Has t ts × (t.id ≡ i)
unfolding contains
ids-contains [] i h = cc
ids-contains (u ∷ us) i h = elim (Bool-cases (text_eq u.id i)) [
  | inl e ↦ (u, inl refl, text_eq_sound u.id i e)
  | inr e ↦ let (t, m, q) = ids-contains us i (ground arith) in (t, inr m, q)
]

-- A row of the table is known by its id.
same_row :
    (db : TaskDb) (t u : Task) → IsKeyed db → Has t db.tasks → Has u db.tasks → u.id ≡ t.id → u ≡ t
same_row db t u v ht hu e = cc (find_task-Has_keyed u db v hu, find_task-Has_keyed t db v ht)

module _ (now limit : ℕ) (db : TaskDb) (t : Task) (v : IsKeyed db) (h : Has t db.tasks) where
  -- Only rows whose lease has run out are listed.
  listed-expired :
      contains (ids (expired_rows now limit db.tasks)) t.id ≡ true → lease_expired_by now t ≡ true
  unfolding expired_rows
  listed-expired e =
      let (u, m, q) = ids-contains _ t.id e in
      let w = (Has-select (lease_expired_by now) u db.tasks).0 (
        (Has-order_by lease_le u (select (lease_expired_by now) db.tasks)).0
          (Has-take limit u _ m)) in
      subst (λ r. lease_expired_by now r ≡ true) (same_row db t u v h w.0 q) w.1

  -- All of them are listed where the limit covers them.
  expired-listed :
      count (lease_expired_by now) db.tasks ≤ limit
      → lease_expired_by now t ≡ true
      → contains (ids (expired_rows now limit db.tasks)) t.id ≡ true
  unfolding expired_rows
  expired-listed fits e =
      let sorted = order_by lease_le (select (lease_expired_by now) db.tasks) in
      let all : take limit sorted ≡ sorted = take-all limit sorted (
        omega (
          arith,
          length-order_by lease_le (select (lease_expired_by now) db.tasks),
          length-select (lease_expired_by now) db.tasks,
        )) in
      rw all (
        contains-ids sorted t (
          (Has-order_by lease_le t (select (lease_expired_by now) db.tasks)).1
            ((Has-select (lease_expired_by now) t db.tasks).1 (h, e))))

  -- A recovery leaves a row alone whose lease has not run out.
  pub recover-keeps :
      lease_expired_by now t ≡ false
      → find_task t.id (recover_expired_task_leases now limit db).1 ≡ some t
  unfolding recover_expired_task_leases
  recover-keeps e = elim (Bool-cases (contains (ids (expired_rows now limit db.tasks)) t.id)) [
    | inl q ↦ absurd (false≢true (sym e ∙ listed-expired q))
    | inr q ↦ find_task-recover_rows now _ 0 t.id db ∙ rw (find_task-Has_keyed t db v h) (rw q)
  ]

-- What each row becomes, where the limit covers all expired leases.
pub recover-exact :
    (now limit : ℕ) (db : TaskDb) (t : Task)
    → IsKeyed db
    → count (lease_expired_by now) db.tasks ≤ limit
    → Has t db.tasks
    → find_task t.id (recover_expired_task_leases now limit db).1
      ≡ some (if lease_expired_by now t then requeue_expired now t else t)
unfolding recover_expired_task_leases
recover-exact now limit db t v fits h = elim (Bool-cases (lease_expired_by now t)) [
  | inl e ↦
      find_task-recover_rows now _ 0 t.id db
      ∙ rw (find_task-Has_keyed t db v h) (rw (expired-listed now limit db t v h fits e, e))
  | inr e ↦ rw e (recover-keeps now limit db t v h e)
]

-- The lease of a running task has run out.
abbrev pub ran_out : ℕ → Status → Option ℕ → Bool
ran_out now running (some at) = iso_leb at now
ran_out now s lease = false

-- The row after the recovery: free and due again, or as it was.
abbrev pub Recovered : ℕ → Bool → Task → Task → Type 0
Recovered now false t u = u ≡ t
Recovered now true t u =
    (u.id ≡ t.id)
    × (u.status ≡ queued)
    × (u.lease_expires_at ≡ none)
    × (u.claimed_by ≡ none)
    × (u.run_after ≡ some now)
    × (u.attempts ≡ t.attempts)
    × (u.max_attempts ≡ t.max_attempts)
    × (u.payload ≡ t.payload)

ran_out-expired :
    (now : ℕ) (s : Status) (lease : Option ℕ)
    → (is_running s && lease_due now lease) ≡ ran_out now s lease
ran_out-expired now running none = refl
ran_out-expired now running (some at) = refl
ran_out-expired now queued lease = refl
ran_out-expired now approved lease = refl
ran_out-expired now blocked lease = refl
ran_out-expired now succeeded lease = refl
ran_out-expired now failed lease = refl
ran_out-expired now canceled lease = refl

Recovered-if :
    (now : ℕ) (t : Task) (b : Bool) → Recovered now b t (if b then requeue_expired now t else t)
unfolding requeue_expired
Recovered-if now t true = (refl, refl, refl, refl, refl, refl, refl, refl)
Recovered-if now t false = refl

-- Where the limit covers all expired leases: a running task whose lease has run out is queued again
-- by a recovery, due now, with no worker and no lease, and with its attempts and its payload kept;
-- every other row is as it was.
pub recover_lem :
    (now limit : ℕ) (db : TaskDb) (t : Task)
    → IsValid db
    → count (lease_expired_by now) db.tasks ≤ limit
    → Has t db.tasks
    → (u : Task) × (find_task t.id (recover_expired_task_leases now limit db).1 ≡ some u)
      × Recovered now (ran_out now t.status t.lease_expires_at) t u
unfolding lease_expired_by
recover_lem now limit db t v fits h = (
  if lease_expired_by now t then requeue_expired now t else t,
  recover-exact now limit db t v.keys fits h,
  subst (λ b. Recovered now b t (if lease_expired_by now t then requeue_expired now t else t))
      (ran_out-expired now t.status t.lease_expires_at)
      (Recovered-if now t (lease_expired_by now t)),
)
