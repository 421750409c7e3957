-- ===== src/Outbox/Refreshing.antt =====
-- The rows of an event that is enqueued with force: new, or put back with the event's payload.
use context_lattice.Prelude.{
  All, Bool, Bool-cases, List, Option, Text, [], arith, contains, find, find-update_where, has_key,
  if◌then◌else◌, inl, inr, none, refl, select, some, text_eq_refl, true, ℕ, ◌++◌, ◌∙◌, ◌∷◌, ◌≡◌,
}
use context_lattice.Outbox.{Job, Outbox, OutboxConfig, has_dedupe_key, has_job_id, pending, set_job}
use context_lattice.Outbox.Enqueue.{
  FanoutEvent, Tally, coalesced_job, dedupe_key_of, enqueue_existing, enqueue_fanout_outbox,
  enqueue_keyed, enqueue_new, enqueue_target, enqueue_targets, known_targets, new_job, requeue_row,
  zero_tally,
}

-- Some row has the dedupe key, waits with no attempts, and carries the event.
pub record IsFresh (event : FanoutEvent) (key : Text) (o : Outbox) : Type 0 where
  pub row : Job
  pub found : find (has_dedupe_key key) o.jobs ≡ some row
  pub waiting : row.status ≡ pending
  pub untried : row.attempts ≡ 0
  pub carries : row.payload ≡ event.payload

find-append_some :
    (p : Job → Bool) (xs ys : List Job) (r : Job) → find p xs ≡ some r → find p (xs ++ ys) ≡ some r
unfolding find
find-append_some p [] ys r h = cc
find-append_some p (x ∷ xs) ys r h = ground (arith, find-append_some p xs ys r)

find-append_none :
    (p : Job → Bool) (xs : List Job) (y : Job)
    → find p xs ≡ none
    → p y ≡ true
    → find p (xs ++ y ∷ []) ≡ some y
unfolding find
find-append_none p [] y e h = rw h refl
find-append_none p (x ∷ xs) y e h = ground (arith, find-append_none p xs y)

module _ (config : OutboxConfig) (now cutoff : ℕ) (event : FanoutEvent) where
  abbrev put_again : ℕ → Job → Job
  put_again i x = if has_job_id i x then requeue_row config now event x else x

  find-requeue :
      (key : Text) (i : ℕ) (o : Outbox) (r : Job)
      → find (has_dedupe_key key) o.jobs ≡ some r
      → find (has_dedupe_key key) (set_job i (requeue_row config now event) o).jobs
        ≡ some (put_again i r)
  unfolding set_job requeue_row has_key
  find-requeue key i o r h =
      find-update_where (has_job_id i) (has_dedupe_key key) (requeue_row config now event) o.jobs
        (λ x. refl)
      ∙ rw h refl

  requeued-IsFresh :
      (key : Text) (i : ℕ) (o : Outbox)
      → IsFresh event key o
      → IsFresh event key (set_job i (requeue_row config now event) o)
  unfolding requeue_row
  requeued-IsFresh key i o f = record {
    row = put_again i f.row;
    found = find-requeue key i o f.row f.found;
    waiting = elim (Bool-cases (has_job_id i f.row)) [ inl p ↦ rw p refl | inr p ↦ rw p f.waiting ];
    untried = elim (Bool-cases (has_job_id i f.row)) [ inl p ↦ rw p refl | inr p ↦ rw p f.untried ];
    carries = elim (Bool-cases (has_job_id i f.row)) [ inl p ↦ rw p refl | inr p ↦ rw p f.carries ];
  }

  keyed-IsFresh :
      (key target : Text) (row : Option Job) (o : Outbox) (t : Tally)
      → IsFresh event key o
      → IsFresh event key (enqueue_keyed config now cutoff true event target row o t).1
  unfolding enqueue_keyed enqueue_new enqueue_existing
  keyed-IsFresh key target none o t f = record {
    row = f.row;
    found = find-append_some (has_dedupe_key key) o.jobs _ f.row f.found;
    waiting = f.waiting;
    untried = f.untried;
    carries = f.carries;
  }
  keyed-IsFresh key target (some row) o t f = requeued-IsFresh key row.id o f

  own-IsFresh :
      (target : Text) (row : Option Job) (o : Outbox) (t : Tally)
      → find (has_dedupe_key (dedupe_key_of event.event_id target)) o.jobs ≡ row
      → IsFresh event
          (dedupe_key_of event.event_id target)
          (enqueue_keyed config now cutoff true event target row o t).1
  unfolding enqueue_keyed enqueue_new enqueue_existing requeue_row new_job has_key
  own-IsFresh target none o t e = record {
    row = new_job config now event target o.next_id;
    found =
        find-append_none (has_dedupe_key (dedupe_key_of event.event_id target)) o.jobs
          (new_job config now event target o.next_id) e
          (text_eq_refl (dedupe_key_of event.event_id target));
    waiting = refl;
    untried = refl;
    carries = refl;
  }
  own-IsFresh target (some row) o t e =
      let here : has_job_id row.id row ≡ true = ground arith in
      record {
        row = requeue_row config now event row;
        found = find-requeue (dedupe_key_of event.event_id target) row.id o row e ∙ rw here refl;
        waiting = refl;
        untried = refl;
        carries = refl;
      }

  targets-IsFresh :
      (key : Text) (targets : List Text) (o : Outbox) (t : Tally)
      → IsFresh event key o
      → IsFresh event key (enqueue_targets config now cutoff true event targets o t).1
  unfolding enqueue_targets enqueue_target coalesced_job
  targets-IsFresh key [] o t f = f
  targets-IsFresh key (target ∷ rest) o t f =
      targets-IsFresh key rest _ _ (keyed-IsFresh key target _ o t f)

  pub targets-own-IsFresh :
      (targets : List Text) (o : Outbox) (t : Tally)
      → let r = enqueue_targets config now cutoff true event targets o t in
        All (λ target. IsFresh event (dedupe_key_of event.event_id target) (r.1)) targets
  unfolding enqueue_targets enqueue_target coalesced_job
  targets-own-IsFresh [] o t = tt
  targets-own-IsFresh (target ∷ rest) o t = (
    targets-IsFresh (dedupe_key_of event.event_id target) rest _ _ (own-IsFresh target _ o t refl),
    targets-own-IsFresh rest _ _,
  )

  -- A forced event has its row for a target that is configured.
  pub forced-IsFresh :
      (target : Text) (o : Outbox)
      → contains config.targets target ≡ true
      → IsFresh event
          (dedupe_key_of event.event_id target)
          (enqueue_fanout_outbox config now cutoff true event (target ∷ []) o).1
  unfolding enqueue_fanout_outbox known_targets select
  forced-IsFresh target o h = rw h (targets-own-IsFresh (target ∷ []) o zero_tally).0
