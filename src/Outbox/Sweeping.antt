-- ===== src/Outbox/Sweeping.antt =====
-- What a retention sweep deletes and keeps.
use mathlib.Core.Path.{subst}
use context_lattice.Prelude.{
  Bool, Bool-cases, List, Option, Text, [], ap, arith, contains, count, false, inl, inr, is_nil,
  length, ltb, not, or_else, refl, select, sym, true, ℕ, ◌&&◌, ◌+◌, ◌∙◌, ◌∷◌, ◌≡◌,
}
use context_lattice.Clock.{iso_leb, iso_rank}
use context_lattice.Outbox.{
  Job, JobStatus, Outbox, failed, is_open, pending, retrying, running, succeeded,
}
use context_lattice.Outbox.Retention.{
  Retention, delete_jobs, delete_stale, fanout_outbox_gc, is_failed_job, is_succeeded_job,
  old_failure, old_success, older, stale_open,
}
use context_lattice.Outbox.Invariant.{IsValidOutbox, select-IsValidOutbox}

abbrev by_status : JobStatus → Bool → Bool → Bool → Bool
by_status succeeded a b c = a
by_status failed a b c = b
by_status _ a b c = c

-- The stored text of a moment stands before that of another.
abbrev text_before : ℕ → ℕ → Bool
text_before at cutoff = ltb (iso_rank at) (iso_rank cutoff)

-- The rows that a sweep should delete, by their status: the time of a row's end, or of its last attempt,
-- or else that of its last change stands before the cutoff.
unfoldable pub is_collected : Retention → Job → Bool
is_collected r j =
    by_status j.status (text_before (or_else j.completed_at j.updated_at) r.succeeded_cutoff)
      (text_before (or_else j.completed_at j.updated_at) r.failed_cutoff)
      (contains r.stale_targets j.target
        && text_before (or_else j.last_attempt_at j.updated_at) r.stale_cutoff)

older-text_before : (at cutoff : ℕ) → older at cutoff ≡ text_before at cutoff
unfolding iso_leb
older-text_before at cutoff = ground arith

module _ (p q : Job → Bool) where
  select-select : (xs : List Job) → select q (select p xs) ≡ select (λ x. p x && q x) xs
  unfolding select
  select-select [] = refl
  select-select (x ∷ xs) = ground (arith, select-select xs)

  select-agree : ((x : Job) → p x ≡ q x) → (xs : List Job) → select p xs ≡ select q xs
  unfolding select
  select-agree h [] = refl
  select-agree h (x ∷ xs) = rw (h x, select-agree h xs) refl

delete_jobs-length :
    (p : Job → Bool) (xs : List Job)
    → length (delete_jobs p xs).0 + (delete_jobs p xs).1 ≡ length xs
unfolding delete_jobs select count
delete_jobs-length p [] = omega arith
delete_jobs-length p (x ∷ xs) = ground (arith, delete_jobs-length p xs)

pub select-all : (p : Job → Bool) (xs : List Job) → ((x : Job) → p x ≡ true) → select p xs ≡ xs
unfolding select
select-all p [] h = refl
select-all p (x ∷ xs) h = rw (h x, select-all p xs h) refl

contains-nil : (ts : List Text) (t : Text) → is_nil ts ≡ true → contains ts t ≡ false
unfolding contains
contains-nil [] t h = refl
contains-nil (s ∷ ts) t h = cc

stale_open-nil :
    (r : Retention) (j : Job) → is_nil r.stale_targets ≡ true → not (stale_open r j) ≡ true
unfolding stale_open
stale_open-nil r j h = rw (contains-nil r.stale_targets j.target h) refl

delete_stale-select :
    (r : Retention) (xs : List Job)
    → ((delete_stale r xs).0 ≡ select (λ j. not (stale_open r j)) xs)
      × (length (delete_stale r xs).0 + (delete_stale r xs).1 ≡ length xs)
unfolding delete_stale
delete_stale-select r xs = elim (Bool-cases (is_nil r.stale_targets)) [
  | inl e ↦
      rw e
        (sym (select-all (λ j. not (stale_open r j)) xs (λ j. stale_open-nil r j e)), omega arith)
  | inr e ↦ rw e (refl, delete_jobs-length (stale_open r) xs)
]

kinds :
    (s : JobStatus) (a b c d : Bool)
    → ((not (is_succeeded_job s && a) && not (is_failed_job s && b)) && not (c && is_open s && d))
      ≡ not (by_status s a b (c && d))
kinds succeeded a b c d = ground arith
kinds failed a b c d = ground arith
kinds pending a b c d = ground arith
kinds retrying a b c d = ground arith
kinds running a b c d = ground arith

three_kinds :
    (r : Retention) (j : Job)
    → ((not (old_success r j) && not (old_failure r j)) && not (stale_open r j))
      ≡ not (is_collected r j)
unfolding old_success old_failure stale_open is_collected
three_kinds r j =
    rw
      (
        ← older-text_before (or_else j.completed_at j.updated_at) r.succeeded_cutoff,
        ← older-text_before (or_else j.completed_at j.updated_at) r.failed_cutoff,
        ← older-text_before (or_else j.last_attempt_at j.updated_at) r.stale_cutoff,
      )
      (kinds j.status _ _ _ _)

sweep-select :
    (r : Retention) (vacuum : Option Text) (before left : ℕ) (o : Outbox)
    → ((fanout_outbox_gc r vacuum before left o).1).jobs
      ≡ select (λ j. not (is_collected r j)) o.jobs
unfolding fanout_outbox_gc delete_jobs
sweep-select r vacuum before left o =
    (delete_stale-select r _).0
    ∙ ap (select (λ j. not (stale_open r j)))
        (select-select (λ j. not (old_success r j)) (λ j. not (old_failure r j)) o.jobs)
    ∙ select-select _ (λ j. not (stale_open r j)) o.jobs
    ∙ select-agree _ (λ j. not (is_collected r j)) (λ j. three_kinds r j) o.jobs

sweep_totals :
    (r : Retention) (vacuum : Option Text) (before left : ℕ) (o : Outbox)
    → let (sweep, after) = fanout_outbox_gc r vacuum before left o in
      length after.jobs + sweep.deleted_total ≡ length o.jobs
unfolding fanout_outbox_gc
sweep_totals r vacuum before left o =
    let kept = (delete_jobs (old_success r) o.jobs).0 in
    let kept' = (delete_jobs (old_failure r) kept).0 in
    omega (
      arith,
      delete_jobs-length (old_success r) o.jobs,
      delete_jobs-length (old_failure r) kept,
      (delete_stale-select r kept').1,
    )

-- A sweep deletes exactly the rows that it should: old successes, old failures and, for the listed
-- targets, open rows that were not tried for long. It keeps the others and their order; the rows that
-- are left and the number that it reports as deleted, by kinds and in all, make up the table that the
-- transaction met; the table stays well formed. The other two totals are those of the counts before and
-- after the transaction, between which other tasks may run.
pub gc_exact :
    (r : Retention) (vacuum : Option Text) (before left : ℕ) (o : Outbox)
    → IsValidOutbox o
    → let (sweep, after) = fanout_outbox_gc r vacuum before left o in
      (after.jobs ≡ select (λ j. not (is_collected r j)) o.jobs)
      × (length after.jobs + sweep.deleted_total ≡ length o.jobs)
      × (sweep.deleted_succeeded + sweep.deleted_failed + sweep.deleted_stale ≡ sweep.deleted_total)
      × (sweep.before_total ≡ before)
      × (sweep.after_total ≡ left)
      × IsValidOutbox after
unfolding fanout_outbox_gc
gc_exact r vacuum before left o v =
    let e = sweep-select r vacuum before left o in
    let p = λ (j : Job). not (is_collected r j) in
    (
      e,
      sweep_totals r vacuum before left o,
      refl,
      refl,
      refl,
      subst (λ l. IsValidOutbox (record o { jobs = l })) (sym e) (select-IsValidOutbox p o v),
    )
