-- ===== src/Admission/Scanning.antt =====
-- What the loop of a prune picks, and the deletion of the rows with these ids.
use mathlib.Core.List.{append-nil, append_assoc}
use context_lattice.Prelude.{
  Bool, Bool-cases, List, Text, [], arith, false, if◌then◌else◌, inl, inr, leb, length, occurs,
  refl, select, suc, sym, take, true, zero, ℕ, ◌++◌, ◌+◌, ◌||◌, ◌∙◌, ◌∷◌, ◌≡◌,
}
use context_lattice.Json.{Json}
use context_lattice.Outbox.{Job, job_ids, same_id}
use context_lattice.Outbox.Retention.{delete_jobs}
use context_lattice.Outbox.Sweeping.{select-all}
use context_lattice.Admission.{AdmissionConfig}
use context_lattice.Admission.Prune.{
  Scan, count_match, delete_by_ids, is_excluded_row, is_low_value_row, scan_rows,
}
use context_lattice.Admission.Counting.{count-none}

module _ (config : AdmissionConfig) (repr : Json → Text) where
  -- The row is excluded from Letta, or of low value.
  abbrev pub is_match : Job → Bool
  is_match j = is_excluded_row config repr j || is_low_value_row config repr j

  -- The rows that the loop picks.
  abbrev pub picked : ℕ → List Job → List Job
  picked limit rows = take limit (select is_match rows)

  abbrev pub ids_after : Bool → List ℕ → List Job → List ℕ
  ids_after dry_run ids rows = if dry_run then ids else ids ++ job_ids rows

  ids_after-cons :
      (dry_run : Bool) (ids : List ℕ) (row : Job) (rows : List Job)
      → ids_after dry_run (if dry_run then ids else ids ++ row.id ∷ []) rows
        ≡ ids_after dry_run ids (row ∷ rows)
  ids_after-cons true ids row rows = refl
  ids_after-cons false ids row rows = append_assoc ids (row.id ∷ []) (job_ids rows)

  ids_after-nil : (dry_run : Bool) (ids : List ℕ) → ids ≡ ids_after dry_run ids []
  ids_after-nil true ids = refl
  ids_after-nil false ids = sym (append-nil ids)

  pub scan_rows-picked :
      (dry_run : Bool) (limit left : ℕ) (rows : List Job) (n : Scan)
      → limit ≡ n.matched + suc left
      → let r = scan_rows config repr dry_run limit rows n in
        (r.matched ≡ n.matched + length (picked (suc left) rows))
        × (r.delete_ids ≡ ids_after dry_run n.delete_ids (picked (suc left) rows))
  unfolding scan_rows select count_match
  scan_rows-picked dry_run limit left [] n e = (omega arith, ids_after-nil dry_run n.delete_ids)
  scan_rows-picked dry_run limit zero (row ∷ rows) n e = elim (Bool-cases (is_match row)) [
    | inl p ↦
        let full : leb limit (n.matched + 1) ≡ true = ground arith in
        rw (p, full) (omega arith, pick_one dry_run n.delete_ids)
    | inr p ↦
        rw p (scan_rows-picked dry_run limit zero rows (record n { scanned = n.scanned + 1 }) e)
  ]
    where
      pick_one :
          (d : Bool) (ids : List ℕ)
          → (if d then ids else ids ++ row.id ∷ []) ≡ ids_after d ids (row ∷ [])
      pick_one true ids = refl
      pick_one false ids = refl
  scan_rows-picked dry_run limit (suc left) (row ∷ rows) n e = elim (Bool-cases (is_match row)) [
    | inl p ↦
        let more : leb limit (n.matched + 1) ≡ false = ground arith in
        let n' = count_match config repr dry_run row (record n { scanned = n.scanned + 1 }) in
        let ih = scan_rows-picked dry_run limit left rows n' (omega arith) in
        rw (p, more)
          (
            omega (arith, ih.0),
            ih.1 ∙ ids_after-cons dry_run n.delete_ids row (take (suc left) (select is_match rows)),
          )
    | inr p ↦
        rw p
          (scan_rows-picked dry_run limit (suc left) rows (record n { scanned = n.scanned + 1 }) e)
  ]

  pub delete_by_ids-eq :
      (ids : List ℕ) (jobs : List Job)
      → delete_by_ids config repr false ids jobs ≡ delete_jobs (λ j. occurs same_id j.id ids) jobs
  unfolding delete_by_ids delete_jobs occurs
  delete_by_ids-eq [] jobs = rw (select-all (λ j. true) jobs (λ j. refl), count-none jobs) refl
  delete_by_ids-eq (i ∷ ids) jobs = refl
