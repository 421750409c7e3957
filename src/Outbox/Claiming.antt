-- ===== src/Outbox/Claiming.antt =====
-- What `claim_fanout_batch` returns and stores.
use mathlib.Core.Bool.{false≢true}
use mathlib.Core.Path.{subst}
use context_lattice.Prelude.{
  All, All-Has, All-intro, Bool-cases, Has, List, Option, Text, [], ap, count, false, inl, inr,
  length, map, max, min, refl, some, sym, true, ℕ, ◌+◌, ◌∙◌, ◌∷◌, ◌≡◌,
}
use context_lattice.Outbox.{Job, Outbox, find_job, running, same_id}
use context_lattice.Outbox.Batch.{
  TargetFilter, claim_fanout_batch, due_jobs, is_due_job, take_row, target_filter,
}
use context_lattice.Outbox.Invariant.{IsValidOutbox}
use context_lattice.Outbox.Preservation.{claim_batch-IsValidOutbox}
use context_lattice.Outbox.Ready.{count-agree, is_ready, is_ready-due}
use context_lattice.Outbox.Taking.{
  claim_batch-rows, due_jobs-Has, find_job-Has, same_id_sound, taken,
}

-- A row of the table that the batch has taken: it was ready, and is stored as the batch returns it.
pub record IsTaken (now : ℕ) (target exclude : Option Text) (o after : Outbox) (r : Job)
    : Type 0 where
  pub present : Has r o.jobs
  pub ready : is_ready now target exclude r ≡ true
  pub stored : find_job r.id after ≡ some (taken now r)
  pub kept_id : (taken now r).id ≡ r.id
  pub runs : (taken now r).status ≡ running
  pub attempted : (taken now r).last_attempt_at ≡ some now
  pub counted : (taken now r).attempts ≡ r.attempts + 1
  pub same_payload : (taken now r).payload ≡ r.payload

-- A batch is made of rows of the table that wait, whose time has come and whose target is wanted, at
-- most 256 and at most the limit (one, where the limit is zero), and as many as there are within that.
-- Each comes back with its id and its payload, running, attempted now and with one attempt more, and so
-- it is stored.
pub claim_batch_exact :
    (now limit : ℕ) (target exclude_target : Option Text) (o : Outbox)
    → IsValidOutbox o
    → let rows = due_jobs now limit (target_filter target exclude_target) o.jobs in
      let r = claim_fanout_batch now limit target exclude_target o in
      (r.0 ≡ map (taken now) rows)
      × All (IsTaken now target exclude_target o (r.1)) rows
      × (length rows
          ≡ min (max 1 (min limit 256)) (count (is_ready now target exclude_target) o.jobs))
unfolding take_row
claim_batch_exact now limit target exclude_target o v =
    let filter = target_filter target exclude_target in
    let rows = due_jobs now limit filter o.jobs in
    let b = claim_batch-rows now limit target exclude_target o v in
    (
      b.0,
      All-intro _ rows (λ r h.
          let m = due_jobs-Has now limit filter o v r h in
          record {
            present = m.0;
            ready = sym (is_ready-due now target exclude_target r) ∙ m.1;
            stored = All-Has _ r rows b.1 h;
            kept_id = refl;
            runs = refl;
            attempted = refl;
            counted = refl;
            same_payload = refl;
          }),
      b.2
          ∙ ap (min (max 1 (min limit 256))) (
              count-agree (is_due_job now filter) (is_ready now target exclude_target)
                (is_ready-due now target exclude_target) o.jobs),
    )

taken-not_due :
    (at now : ℕ) (filter : TargetFilter) (j : Job) → is_due_job at filter (taken now j) ≡ false
unfolding is_due_job take_row
taken-not_due at now filter j = refl

-- A job of a batch stays out of the next one, at whatever moment, limit and target it is asked for.
pub batches-disjoint :
    (now limit at size : ℕ) (target exclude_target target' exclude_target' : Option Text)
    (o : Outbox) (r : Job)
    → IsValidOutbox o
    → Has r (due_jobs now limit (target_filter target exclude_target) o.jobs)
    → let after = (claim_fanout_batch now limit target exclude_target o).1 in
      All
        (λ j. same_id j.id r.id ≡ false)
        (due_jobs at size (target_filter target' exclude_target') after.jobs)
batches-disjoint now limit at size target exclude_target target' exclude_target' o r v h =
    go (due_jobs at size (target_filter target' exclude_target') after.jobs) (λ j k. k)
  where
    after : Outbox
    after = (claim_fanout_batch now limit target exclude_target o).1

    w : IsValidOutbox after
    w = claim_batch-IsValidOutbox now limit target exclude_target o v

    stored : find_job r.id after ≡ some (taken now r)
    stored = All-Has _ r _ (claim_batch-rows now limit target exclude_target o v).1 h

    other :
        (j : Job)
        → Has j (due_jobs at size (target_filter target' exclude_target') after.jobs)
        → same_id j.id r.id ≡ false
    other j k =
        let m = due_jobs-Has at size (target_filter target' exclude_target') after w j k in
        elim (Bool-cases (same_id j.id r.id)) [
          | inl e ↦
              let q : j ≡ taken now r =
                cc (find_job-Has after j w m.0, stored, same_id_sound j.id r.id e) in
              absurd (
                false≢true (
                  sym (taken-not_due at now (target_filter target' exclude_target') r)
                  ∙ subst (λ u. is_due_job at (target_filter target' exclude_target') u ≡ true) q
                      m.1))
          | inr e ↦ e
        ]

    go :
        (l : List Job)
        → ((j : Job)
            → Has j l
            → Has j (due_jobs at size (target_filter target' exclude_target') after.jobs))
        → All (λ j. same_id j.id r.id ≡ false) l
    go [] k = tt
    go (j ∷ l) k = (other j (k j (inl refl)), go l (λ u h. k u (inr h)))
