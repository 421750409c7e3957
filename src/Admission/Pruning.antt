-- ===== src/Admission/Pruning.antt =====
-- What a prune of the outbox deletes and keeps.
use mathlib.Core.Bool.{false≢true}
use mathlib.Core.Path.{subst}
use context_lattice.Prelude.{
  All, All-intro, Bool, Bool-cases, Distinct, Distinct-order_by, Distinct-select, Distinct-take,
  Has, Has-order_by, Has-select, Has-take, List, Text, [], ap, arith, count, false, inl, inr, leb,
  leb→le, length, length-take, max, min, not, occurs, occurs-Has, order_by, refl, select, suc, sym,
  take-all, text_eq, true, ℕ, ◌&&◌, ◌+◌, ◌-◌, ◌∙◌, ◌∷◌, ◌≡◌, ◌≤◌, ◌⊎◌,
}
use context_lattice.Json.{Json}
use context_lattice.Outbox.{Job, JobStatus, Outbox, job_ids, same_id}
use context_lattice.Outbox.Retention.{delete_jobs}
use context_lattice.Outbox.Invariant.{IsValidOutbox, select-IsValidOutbox}
use context_lattice.Outbox.Taking.{find_job-Has, same_id_sound}
use context_lattice.Admission.{AdmissionConfig}
use context_lattice.Admission.Prune.{
  delete_by_ids, empty_scan, has_status, in_scope, normalized_statuses, prune_le,
  prune_letta_low_value_outbox, scan_rows,
}
use context_lattice.Admission.Counting.{count-picked, count-select, same_id_comm, same_id_refl}
use context_lattice.Admission.Scanning.{
  delete_by_ids-eq, ids_after, is_match, picked, scan_rows-picked,
}

module _ (config : AdmissionConfig) (repr : Json → Text) where
  module _ (statuses : List Text) (limit : ℕ) (o : Outbox) (v : IsValidOutbox o) where
    abbrev wanted : List JobStatus
    wanted = normalized_statuses statuses

    abbrev most : ℕ
    most = max 1 (min limit 250_000)

    -- The rows that the prune deletes.
    abbrev chosen : List Job
    chosen =
        picked config repr (suc (most - 1))
          (order_by prune_le (select (in_scope config repr wanted) o.jobs))

    chosen-Has :
        (j : Job)
        → Has j chosen
        → Has j o.jobs × (in_scope config repr wanted j ≡ true) × (is_match config repr j ≡ true)
    chosen-Has j h =
        let scoped = select (in_scope config repr wanted) o.jobs in
        let a =
          (Has-select (is_match config repr) j (order_by prune_le scoped)).0
            (Has-take (suc (most - 1)) j _ h) in
        let b =
          (Has-select (in_scope config repr wanted) j o.jobs).0
            ((Has-order_by prune_le j scoped).0 a.0) in
        (b.0, b.1, a.1)

    chosen-Distinct : Distinct same_id (job_ids chosen)
    chosen-Distinct =
        Distinct-take (λ r. r.id) same_id (suc (most - 1)) _
          (Distinct-select (λ r. r.id) same_id (is_match config repr) _
            (Distinct-order_by (λ r. r.id) same_id same_id_comm prune_le _
              (Distinct-select (λ r. r.id) same_id (in_scope config repr wanted) o.jobs v.keys)))

    chosen-count : count (λ j. occurs same_id j.id (job_ids chosen)) o.jobs ≡ length chosen
    chosen-count =
        count-picked chosen o.jobs chosen-Distinct v.keys
          (All-intro (λ y. Has y o.jobs) chosen (λ y h. (chosen-Has y h).0))

    -- A row with the id of a chosen row is chosen.
    id-chosen :
        (x : Job) (l : List Job)
        → ((y : Job) → Has y l → Has y o.jobs)
        → Has x o.jobs
        → occurs same_id x.id (job_ids l) ≡ true
        → Has x l
    unfolding occurs
    id-chosen x [] k h e = ground arith
    id-chosen x (y ∷ l) k h e = elim (Bool-cases (same_id y.id x.id)) [
      | inl p ↦
          let q : y ≡ x = cc (
            find_job-Has o x v h,
            find_job-Has o y v (k y (inl refl)),
            same_id_sound y.id x.id p,
          ) in
          inl q
      | inr p ↦ inr (id-chosen x l (λ z m. k z (inr m)) h (ground arith))
    ]

    -- What the scan finds, on a dry run as well.
    scan_lem :
        (dry_run : Bool)
        → let rows = order_by prune_le (select (in_scope config repr wanted) o.jobs) in
          let r = scan_rows config repr dry_run most rows empty_scan in
          (r.matched ≡ length chosen) × (r.delete_ids ≡ ids_after config repr dry_run [] chosen)
    scan_lem dry_run =
        let rows = order_by prune_le (select (in_scope config repr wanted) o.jobs) in
        let r =
          scan_rows-picked config repr dry_run most (most - 1) rows empty_scan (omega arith) in
        (omega (arith, r.0), r.1)

    -- The row is one that the prune may delete: it is Letta's, has a status asked for, and matches.
    abbrev pub is_prunable : Job → Bool
    is_prunable j =
        (text_eq j.target config.letta && has_status wanted j.status) && is_match config repr j

    both : (a b : Bool) → a ≡ true → b ≡ true → (a && b) ≡ true
    both a b e f = ground arith

    deleted-is_prunable :
        (x : Job)
        → Has x o.jobs
        → occurs same_id x.id (job_ids chosen) ≡ true
        → is_prunable x ≡ true
    unfolding in_scope
    deleted-is_prunable x h e =
        let c = chosen-Has x (id-chosen x chosen (λ y k. (chosen-Has y k).0) h e) in
        both _ _ c.1 c.2

    abbrev kept : List Job
    kept = select (λ j. not (occurs same_id j.id (job_ids chosen))) o.jobs

    kept-or : All (λ j. (is_prunable j ≡ true) ⊎ Has j kept) o.jobs
    kept-or = All-intro _ o.jobs (λ x h. elim (Bool-cases (occurs same_id x.id (job_ids chosen))) [
      | inl e ↦ inl (deleted-is_prunable x h e)
      | inr e ↦ inr ((Has-select _ x o.jobs).1 (h, rw e refl))
    ])

    pending_balance :
        count (in_scope config repr wanted) o.jobs
        ≡ count (in_scope config repr wanted) kept + length chosen
    unfolding in_scope
    pending_balance =
        count-select (in_scope config repr wanted) (λ j. occurs same_id j.id (job_ids chosen))
          o.jobs
          (All-intro _ o.jobs (λ x h. elim (Bool-cases (occurs same_id x.id (job_ids chosen))) [
            | inl e ↦ rw e (ground (arith, deleted-is_prunable x h e))
            | inr e ↦ rw e refl
          ]))
        ∙ ap (λ n. count (in_scope config repr wanted) kept + n) chosen-count

    abbrev matches : List Job
    matches =
        select (is_match config repr)
          (order_by prune_le (select (in_scope config repr wanted) o.jobs))

    -- A row that may be deleted stands among the matches.
    prunable-matches : (x : Job) → Has x o.jobs → is_prunable x ≡ true → Has x matches
    unfolding in_scope
    prunable-matches x h e =
        let scoped = select (in_scope config repr wanted) o.jobs in
        (Has-select (is_match config repr) x (order_by prune_le scoped)).1 (
          (Has-order_by prune_le x scoped).1
              ((Has-select (in_scope config repr wanted) x o.jobs).1 (h, ground arith)),
          ground arith,
        )

    nothing_left : length matches ≤ most → (x : Job) → Has x kept → is_prunable x ≡ false
    nothing_left le x h =
        let k = (Has-select (λ j. not (occurs same_id j.id (job_ids chosen))) x o.jobs).0 h in
        elim (Bool-cases (is_prunable x)) [
          | inl e ↦
              let all = take-all (suc (most - 1)) matches (omega (arith, le)) in
              let m = subst (λ l. Has x l) (sym all) (prunable-matches x k.0 e) in
              let c =
                occurs-Has (λ (r : Job). r.id) same_id same_id_sound same_id_refl x chosen m in
              absurd (false≢true (ap not (sym c) ∙ k.1))
          | inr e ↦ e
        ]

    -- As many rows as the limit allows, or every row that may be deleted.
    full_or_finished : (length chosen ≡ most) ⊎ All (λ j. is_prunable j ≡ false) kept
    full_or_finished = elim (Bool-cases (leb (length matches) most)) [
      | inl e ↦ inr (All-intro _ kept (λ x h. nothing_left (leb→le _ _ e) x h))
      | inr e ↦ inl (ground (arith, length-take (suc (most - 1)) matches))
    ]

    delete-chosen :
        let rows = order_by prune_le (select (in_scope config repr wanted) o.jobs) in
        let ids = (scan_rows config repr false most rows empty_scan).delete_ids in
        delete_by_ids config repr false ids o.jobs ≡ (kept, length chosen)
    unfolding delete_jobs
    delete-chosen =
        ap (λ ids. delete_by_ids config repr false ids o.jobs) (scan_lem false).1
        ∙ delete_by_ids-eq config repr (job_ids chosen) o.jobs
        ∙ ap (λ n. (kept, n)) chosen-count

    -- A row that a prune has read, may delete, and knows by the id.
    abbrev pub IsRead : Job → Type 0
    IsRead j = (r : Job) × Has r o.jobs × (is_prunable r ≡ true) × (same_id r.id j.id ≡ true)

    chosen-IsRead :
        (x : Job) (l : List Job)
        → ((y : Job) → Has y l → Has y o.jobs × (is_prunable y ≡ true))
        → occurs same_id x.id (job_ids l) ≡ true
        → IsRead x
    unfolding occurs
    chosen-IsRead x [] k e = cc
    chosen-IsRead x (y ∷ l) k e = elim (Bool-cases (same_id y.id x.id)) [
      | inl p ↦ (y, (k y (inl refl)).0, (k y (inl refl)).1, p)
      | inr p ↦ chosen-IsRead x l (λ z m. k z (inr m)) (ground arith)
    ]

    kept-or_IsRead :
        (busy : Outbox)
        → All
            (λ j. IsRead j ⊎ Has j (delete_by_ids config repr false (job_ids chosen) busy.jobs).0)
            busy.jobs
    unfolding delete_jobs in_scope
    kept-or_IsRead busy = rw (delete_by_ids-eq config repr (job_ids chosen) busy.jobs) (
        All-intro _ busy.jobs (λ x h. elim (Bool-cases (occurs same_id x.id (job_ids chosen))) [
          | inl e ↦
              inl (
                chosen-IsRead x chosen (λ y m. let c = chosen-Has y m in (c.0, both _ _ c.1 c.2)) e)
          | inr e ↦ inr ((Has-select _ x busy.jobs).1 (h, rw e refl))
        ]))

    -- Where no other task writes to the table meanwhile, a prune deletes only rows of Letta that have one of
    -- the statuses asked for and are excluded or of low value; all other rows stay. It deletes as many as
    -- its scan matched, at most the limit; where it stopped short of the limit, no such row is left. The
    -- rows that were pending are those that still are and those that were deleted, and the table stays
    -- well formed. A dry run finds as many rows and changes nothing. Where other tasks do write between the
    -- reading and the transaction, whatever table that meets: each of its rows stays that has not the id of
    -- a row which was of that kind when it was read.
    pub prune_lem :
        (busy : Outbox) (later : Outbox → Outbox)
        → let (report, after) =
            prune_letta_low_value_outbox config repr statuses limit false o o (λ x. x) o in
          let (dry, same) =
            prune_letta_low_value_outbox config repr statuses limit true o o (λ x. x) o in
          let (busy_report, busy_after) =
            prune_letta_low_value_outbox config repr statuses limit false o o later busy in
          All (λ j. (is_prunable j ≡ true) ⊎ Has j after.jobs) o.jobs
          × (report.deleted ≡ report.scan.matched)
          × (report.deleted ≤ most)
          × ((report.deleted ≡ most) ⊎ All (λ j. is_prunable j ≡ false) after.jobs)
          × (report.before_pending ≡ report.after_pending + report.deleted)
          × IsValidOutbox after
          × (dry.scan.matched ≡ report.scan.matched)
          × (same ≡ o)
          × All (λ j. IsRead j ⊎ Has j busy_after.jobs) busy.jobs
    unfolding prune_letta_low_value_outbox delete_jobs
    prune_lem busy later =
        let busy_kept =
          subst
            (λ ids.
              All (λ j. IsRead j ⊎ Has j (delete_by_ids config repr false ids busy.jobs).0)
                busy.jobs)
            (sym (scan_lem false).1) (kept-or_IsRead busy) in
        rw (delete-chosen, (scan_lem false).0, (scan_lem true).0)
          (
            kept-or,
            refl,
            omega (arith, length-take (suc (most - 1)) matches),
            full_or_finished,
            pending_balance,
            select-IsValidOutbox (λ j. not (occurs same_id j.id (job_ids chosen))) o v,
            refl,
            refl,
            busy_kept,
          )
