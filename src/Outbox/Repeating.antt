-- ===== src/Outbox/Repeating.antt =====
-- An event that is enqueued again without the coalescer.
use mathlib.Core.Option
use mathlib.Core.Bool.{false≢true}
use context_lattice.Prelude.{
  All, Bool, List, Option, Option-cases, Text, [], ap, arith, contains, count, false, find,
  find-update_where, has_key, if◌then◌else◌, inl, inr, is_some, length, length-select, none, refl,
  select, some, sym, text_eq_refl, true, ℕ, ◌++◌, ◌+◌, ◌∙◌, ◌∷◌, ◌≡◌,
}
use context_lattice.Outbox.{Job, Outbox, OutboxConfig, has_dedupe_key, has_job_id, set_job}
use context_lattice.Outbox.Enqueue.{
  FanoutEvent, Tally, coalesced_job, coalescer_active, dedupe_key_of, enqueue_existing,
  enqueue_fanout_outbox, enqueue_keyed, enqueue_new, enqueue_target, enqueue_targets, known_targets,
  new_job, requeue_row, zero_tally,
}

-- Some row has the dedupe key.
abbrev pub IsPresent : Text → Outbox → Type 0
IsPresent key o = is_some (find (has_dedupe_key key) o.jobs) ≡ true

find-append :
    (p : Job → Bool) (xs ys : List Job)
    → is_some (find p xs) ≡ true
    → is_some (find p (xs ++ ys)) ≡ true
unfolding find
find-append p [] ys h = cc
find-append p (x ∷ xs) ys h = ground (arith, find-append p xs ys)

find-append_last :
    (p : Job → Bool) (xs : List Job) (y : Job) → p y ≡ true → is_some (find p (xs ++ y ∷ [])) ≡ true
unfolding find
find-append_last p [] y h = rw h refl
find-append_last p (x ∷ xs) y h = ground (arith, find-append_last p xs y h)

module _ (config : OutboxConfig) (now cutoff : ℕ) (event : FanoutEvent) where
  new_job-has_dedupe_key :
      (target : Text) (i : ℕ)
      → has_dedupe_key (dedupe_key_of event.event_id target) (new_job config now event target i)
        ≡ true
  unfolding new_job has_key
  new_job-has_dedupe_key target i = text_eq_refl (dedupe_key_of event.event_id target)

  set_job-IsPresent :
      (key : Text) (i : ℕ) (o : Outbox)
      → IsPresent key o
      → IsPresent key (set_job i (requeue_row config now event) o)
  unfolding set_job requeue_row has_key
  set_job-IsPresent key i o h =
      rw
        (find-update_where (has_job_id i) (has_dedupe_key key) (requeue_row config now event) o.jobs
          (λ r. refl))
        (go (find (has_dedupe_key key) o.jobs) h)
    where
      go :
          (r : Option Job)
          → is_some r ≡ true
          → is_some
              (Option.map (λ x. if has_job_id i x then requeue_row config now event x else x) r)
            ≡ true
      go none e = e
      go (some r) e = refl

  existing-IsPresent :
      (force : Bool) (key : Text) (row : Job) (o : Outbox) (t : Tally)
      → IsPresent key o
      → IsPresent key (enqueue_existing config now cutoff force event row o t).1
  unfolding enqueue_existing
  existing-IsPresent true key row o t h = set_job-IsPresent key row.id o h
  existing-IsPresent false key row o t h = h

  keyed-IsPresent :
      (force : Bool) (key target : Text) (row : Option Job) (o : Outbox) (t : Tally)
      → IsPresent key o
      → IsPresent key (enqueue_keyed config now cutoff force event target row o t).1
  unfolding enqueue_keyed enqueue_new
  keyed-IsPresent force key target none o t h = find-append (has_dedupe_key key) o.jobs _ h
  keyed-IsPresent force key target (some row) o t h = existing-IsPresent force key row o t h

  keyed-own :
      (force : Bool) (target : Text) (row : Option Job) (o : Outbox) (t : Tally)
      → find (has_dedupe_key (dedupe_key_of event.event_id target)) o.jobs ≡ row
      → IsPresent
          (dedupe_key_of event.event_id target)
          (enqueue_keyed config now cutoff force event target row o t).1
  unfolding enqueue_keyed enqueue_new
  keyed-own force target none o t e =
      find-append_last _ o.jobs _ (new_job-has_dedupe_key target o.next_id)
  keyed-own force target (some row) o t e = existing-IsPresent force _ row o t (rw e refl)

  module _ (off : config.coalesce_enabled ≡ false) where
    coalesced_job-off :
        (force : Bool) (target : Text) (jobs : List Job)
        → coalesced_job config now cutoff force event target jobs ≡ none
    unfolding coalesced_job coalescer_active
    coalesced_job-off force target jobs = ground (arith, off)

    target-IsPresent :
        (force : Bool) (key target : Text) (o : Outbox) (t : Tally)
        → IsPresent key o
        → IsPresent key
            (enqueue_target config now cutoff force event target
              (coalesced_job config now cutoff force event target o.jobs)
              o
              t).1
    unfolding enqueue_target
    target-IsPresent force key target o t h =
        rw (coalesced_job-off force target o.jobs) (keyed-IsPresent force key target _ o t h)

    target-own :
        (force : Bool) (target : Text) (o : Outbox) (t : Tally)
        → IsPresent
            (dedupe_key_of event.event_id target)
            (enqueue_target config now cutoff force event target
              (coalesced_job config now cutoff force event target o.jobs)
              o
              t).1
    unfolding enqueue_target
    target-own force target o t =
        rw (coalesced_job-off force target o.jobs) (keyed-own force target _ o t refl)

    targets-IsPresent :
        (force : Bool) (key : Text) (targets : List Text) (o : Outbox) (t : Tally)
        → IsPresent key o
        → IsPresent key (enqueue_targets config now cutoff force event targets o t).1
    unfolding enqueue_targets
    targets-IsPresent force key [] o t h = h
    targets-IsPresent force key (target ∷ rest) o t h =
        targets-IsPresent force key rest _ _ (target-IsPresent force key target o t h)

    -- After the loop each of its targets has its row.
    targets-own :
        (force : Bool) (targets : List Text) (o : Outbox) (t : Tally)
        → let r = enqueue_targets config now cutoff force event targets o t in
          All (λ target. IsPresent (dedupe_key_of event.event_id target) (r.1)) targets
    unfolding enqueue_targets
    targets-own force [] o t = tt
    targets-own force (target ∷ rest) o t = (
      targets-IsPresent force _ rest _ _ (target-own force target o t),
      targets-own force rest _ _,
    )

    target-unchanged :
        (target : Text) (o : Outbox) (t : Tally)
        → IsPresent (dedupe_key_of event.event_id target) o
        → enqueue_target config now cutoff false event target
            (coalesced_job config now cutoff false event target o.jobs)
            o
            t
          ≡ (record t { existing = t.existing + 1 }, o)
    unfolding enqueue_target enqueue_keyed enqueue_existing
    target-unchanged target o t h =
        rw (coalesced_job-off false target o.jobs)
          (elim (Option-cases
            (find (has_dedupe_key (dedupe_key_of event.event_id target)) o.jobs)) [
              | inl e ↦ absurd (false≢true (sym (ap is_some e) ∙ h))
              | inr (row, e) ↦ rw e refl
            ])

    -- Targets that have their rows leave the table alone.
    targets-unchanged :
        (targets : List Text) (o : Outbox) (t : Tally)
        → All (λ target. IsPresent (dedupe_key_of event.event_id target) o) targets
        → let r = enqueue_targets config now cutoff false event targets o t in
          (r.1 ≡ o) × ((r.0).existing ≡ t.existing + length targets)
    unfolding enqueue_targets
    targets-unchanged [] o t h = (refl, omega arith)
    targets-unchanged (target ∷ rest) o t h =
        let ih = targets-unchanged rest o (record t { existing = t.existing + 1 }) h.1 in
        rw (enqueue_targets, target-unchanged target o t h.0) (ih.0, omega (arith, ih.1))

-- Without the coalescer, an event that was enqueued (forced or not) has a row for each configured
-- target, and enqueueing it again unforced at any later moment changes nothing: all targets are counted
-- as existing.
pub enqueue_twice :
    (config : OutboxConfig) (now cutoff later later_cutoff : ℕ) (force : Bool) (event : FanoutEvent)
    (targets : List Text) (o : Outbox)
    → config.coalesce_enabled ≡ false
    → let first = enqueue_fanout_outbox config now cutoff force event targets o in
      let again = enqueue_fanout_outbox config later later_cutoff false event targets (first.1) in
      All
        (λ target. IsPresent (dedupe_key_of event.event_id target) (first.1))
        (select (contains config.targets) targets)
      × (again.1 ≡ first.1)
      × ((again.0).existing ≡ count (contains config.targets) targets)
unfolding enqueue_fanout_outbox known_targets
enqueue_twice config now cutoff later later_cutoff force event targets o off =
    let known = select (contains config.targets) targets in
    let present = targets-own config now cutoff event off force known o zero_tally in
    let same = targets-unchanged config later later_cutoff event off known _ zero_tally present in
    (present, same.0, omega (arith, same.1, length-select (contains config.targets) targets))
