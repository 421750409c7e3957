-- ===== src/Outbox/Invariant.antt =====
-- What holds of the table `fanout_outbox`: distinct ids below the next one, distinct dedupe keys, and
-- times of attempt and of completion where the status tells of them.
use mathlib.Core.Path.{subst}
use context_lattice.Prelude.{
  All, All-append, All-imp, All-select, All-update_where, Bool, Distinct, Distinct-append,
  Distinct-select, List, [], arith, false, find, find-none, is_some, keys-append, keys-update_where,
  none, occurs, refl, select, sym, text_eq, text_eq_comm, true, update_where, ℕ, ◌++◌, ◌+◌, ◌<◌,
  ◌∷◌, ◌≡◌,
}
use context_lattice.Outbox.{
  Job, JobStatus, Outbox, dedupe_keys, failed, has_dedupe_key, has_job_id, is_running_job, job_ids,
  same_id, set_job, succeeded,
}

abbrev pub is_closed : JobStatus → Bool
is_closed succeeded = true
is_closed failed = true
is_closed _ = false

pub record IsValidJob (next_id : ℕ) (j : Job) : Type 0 where
  pub below : j.id < next_id
  pub attempted : is_running_job j.status ≡ true → is_some j.last_attempt_at ≡ true
  pub closed : is_closed j.status ≡ true → is_some j.completed_at ≡ true

pub record IsValidOutbox (o : Outbox) : Type 0 where
  pub rows : All (IsValidJob o.next_id) o.jobs
  pub keys : Distinct same_id (job_ids o.jobs)
  pub dedupe : Distinct text_eq (dedupe_keys o.jobs)

abbrev pub KeepsKeys : (Job → Job) → Type 0
KeepsKeys f = (j : Job) → ((f j).id ≡ j.id) × ((f j).dedupe_key ≡ j.dedupe_key)

-- An update that leaves the keys alone and keeps the rows well formed.
pub update-IsValidOutbox :
    (p : Job → Bool) (f : Job → Job) (o : Outbox)
    → KeepsKeys f
    → ((j : Job) → p j ≡ true → IsValidJob o.next_id j → IsValidJob o.next_id (f j))
    → IsValidOutbox o
    → IsValidOutbox (record o { jobs = update_where p f o.jobs })
update-IsValidOutbox p f o same keep v = record {
  rows = All-update_where p (IsValidJob o.next_id) f o.jobs keep v.rows;
  keys =
      subst (Distinct same_id) (sym (keys-update_where _ same_id p f o.jobs (λ j. (same j).0)))
        v.keys;
  dedupe =
      subst (Distinct text_eq) (sym (keys-update_where _ text_eq p f o.jobs (λ j. (same j).1)))
        v.dedupe;
}

pub set_job-IsValidOutbox :
    (i : ℕ) (f : Job → Job) (o : Outbox)
    → KeepsKeys f
    → ((j : Job) → IsValidJob o.next_id j → IsValidJob o.next_id (f j))
    → IsValidOutbox o
    → IsValidOutbox (set_job i f o)
unfolding set_job
set_job-IsValidOutbox i f o same keep v =
    update-IsValidOutbox (has_job_id i) f o same (λ j _ h. keep j h) v

IsValidJob-later : (n : ℕ) (j : Job) → IsValidJob n j → IsValidJob (n + 1) j
IsValidJob-later n j v = record {
  below = omega (arith, v.below);
  attempted = v.attempted;
  closed = v.closed;
}

next_id-absent :
    (n : ℕ) (js : List Job) → All (IsValidJob n) js → occurs same_id n (job_ids js) ≡ false
unfolding occurs
next_id-absent n [] h = refl
next_id-absent n (j ∷ js) h = ground (arith, next_id-absent n js h.1, h.0.below)

same_id_comm : (a b : ℕ) → same_id a b ≡ same_id b a
same_id_comm a b = ground arith

-- A new row with the next id and a key of its own.
pub append-IsValidOutbox :
    (o : Outbox) (j : Job)
    → j.id ≡ o.next_id
    → find (has_dedupe_key j.dedupe_key) o.jobs ≡ none
    → IsValidJob (o.next_id + 1) j
    → IsValidOutbox o
    → IsValidOutbox (record o { jobs = o.jobs ++ j ∷ []; next_id = o.next_id + 1 })
append-IsValidOutbox o j e absent ok v = record {
  rows =
      All-append (IsValidJob (o.next_id + 1)) o.jobs (j ∷ [])
        (All-imp (IsValidJob o.next_id) (IsValidJob (o.next_id + 1)) o.jobs
          (IsValidJob-later o.next_id) v.rows)
        (ok, tt);
  keys = rw (keys-append (λ (r : Job). r.id) same_id o.jobs (j ∷ [])) (
      Distinct-append same_id same_id_comm j.id (job_ids o.jobs) v.keys
        (rw e (next_id-absent o.next_id o.jobs v.rows)));
  dedupe = rw (keys-append (λ (r : Job). r.dedupe_key) text_eq o.jobs (j ∷ [])) (
      Distinct-append text_eq text_eq_comm j.dedupe_key (dedupe_keys o.jobs) v.dedupe
        (find-none (λ (r : Job). r.dedupe_key) text_eq j.dedupe_key o.jobs absent));
}

-- Deleting rows.
pub select-IsValidOutbox :
    (p : Job → Bool) (o : Outbox)
    → IsValidOutbox o
    → IsValidOutbox (record o { jobs = select p o.jobs })
select-IsValidOutbox p o v = record {
  rows = All-select p (IsValidJob o.next_id) o.jobs v.rows;
  keys = Distinct-select (λ (j : Job). j.id) same_id p o.jobs v.keys;
  dedupe = Distinct-select (λ (j : Job). j.dedupe_key) text_eq p o.jobs v.dedupe;
}
