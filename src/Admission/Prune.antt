-- ===== src/Admission/Prune.antt =====
-- `prune_letta_low_value_outbox` on the SQLite backend, with `_extract_source_kind_from_outbox_payload`.
use context_lattice.Prelude.{
  Bool, List, Option, Text, [], codes, compare, count, false, if◌then◌else◌, is_empty, is_nil,
  is_some, leb, lower, max, min, none, not, occurs, order_by, select, some, strip, text_eq, then_le,
  true, ℕ, ◌&&◌, ◌++◌, ◌+◌, ◌||◌, ◌∷◌,
}
use context_lattice.Clock.{iso_rank}
use context_lattice.Json.{Fields, Json, get, obj, or_value, str_of}
use context_lattice.Outbox.{Job, JobStatus, Outbox, pending, retrying, running, same_id}
use context_lattice.Outbox.Retention.{delete_jobs}
use context_lattice.Admission.{AdmissionConfig, is_low_value_memory_record, letta_exclusion}

module _ (repr : Json → Text) where
  -- `str(d.get(k) or "").strip()`
  abbrev stripped_field : Text → Fields → Text
  stripped_field key fields = elim (or_value (get key fields) none) [
    | none ↦ []
    | some v ↦ strip (str_of repr v)
  ]

  abbrev letta_context : Fields → Text
  letta_context fields = elim (get (codes "letta_context") fields) [
    | some (obj context) ↦ stripped_field (codes "source_kind") context
    | _ ↦ []
  ]

  unfoldable pub extract_source_kind_from_outbox_payload : Json → Text
  extract_source_kind_from_outbox_payload (obj fields) =
      if is_empty (letta_context fields)
      then stripped_field (codes "source_kind") fields
      else letta_context fields
  extract_source_kind_from_outbox_payload _ = []

unfoldable pub open_status : Text → Option JobStatus
open_status token =
    if text_eq token (codes "pending")
    then some pending
    else if text_eq token (codes "retrying")
    then some retrying
    else if text_eq token (codes "running")
    then some running
    else none

abbrev same_status : JobStatus → JobStatus → Bool
same_status pending pending = true
same_status retrying retrying = true
same_status running running = true
same_status _ _ = false

unfoldable pub has_status : List JobStatus → JobStatus → Bool
has_status [] s = false
has_status (r ∷ rs) s = same_status r s || has_status rs s

abbrev add_status : Option JobStatus → List JobStatus → List JobStatus
add_status none seen = seen
add_status (some s) seen = if has_status seen s then seen else seen ++ s ∷ []

normalized_from : List JobStatus → List Text → List JobStatus
unfolding open_status has_status
normalized_from seen [] = seen
normalized_from seen (s ∷ statuses) =
    normalized_from (add_status (open_status (lower (strip s))) seen) statuses

unfoldable pub normalized_statuses : List Text → List JobStatus
unfolding normalized_from
normalized_statuses statuses =
    let found = normalized_from [] statuses in
    if is_nil found then pending ∷ retrying ∷ [] else found

-- `ORDER BY updated_at ASC, id ASC`
unfoldable pub prune_le : Job → Job → Bool
prune_le a b = then_le (compare (iso_rank a.updated_at) (iso_rank b.updated_at)) (leb a.id b.id)

-- What the loop has counted, and the ids to delete.
pub record Scan : Type 0 where
  pub scanned : ℕ
  pub matched : ℕ
  pub matched_excluded : ℕ
  pub matched_low_value : ℕ
  pub delete_ids : List ℕ

abbrev pub empty_scan : Scan
empty_scan = record {
  scanned = 0;
  matched = 0;
  matched_excluded = 0;
  matched_low_value = 0;
  delete_ids = [];
}

pub record PruneReport : Type 0 where
  pub statuses : List JobStatus
  pub before_pending : ℕ
  pub after_pending : ℕ
  pub scan : Scan
  pub deleted : ℕ
  pub dry_run : Bool
  pub limit : ℕ

module _ (config : AdmissionConfig) (repr : Json → Text) where
  unfoldable pub is_excluded_row : Job → Bool
  is_excluded_row row = is_some (letta_exclusion config row.file row.topic_path)

  unfoldable pub is_low_value_row : Job → Bool
  is_low_value_row row =
      is_low_value_memory_record config row.file row.topic_path row.summary
        (extract_source_kind_from_outbox_payload repr row.payload) true

  -- `target = ? AND status IN (…)`
  unfoldable pub in_scope : List JobStatus → Job → Bool
  in_scope statuses row = text_eq row.target config.letta && has_status statuses row.status

  unfoldable pub count_match : Bool → Job → Scan → Scan
  count_match dry_run row n = record n {
    matched = n.matched + 1;
    matched_excluded = if is_excluded_row row then n.matched_excluded + 1 else n.matched_excluded;
    matched_low_value =
        if is_low_value_row row then n.matched_low_value + 1 else n.matched_low_value;
    delete_ids = if dry_run then n.delete_ids else n.delete_ids ++ row.id ∷ [];
  }

  abbrev next_scanned : Scan → Scan
  next_scanned n = record n { scanned = n.scanned + 1 }

  -- The loop over the rows, which ends when enough of them match.
  unfoldable pub scan_rows : Bool → ℕ → List Job → Scan → Scan
  unfolding count_match
  scan_rows dry_run limit [] n = n
  scan_rows dry_run limit (row ∷ rows) n =
      let n' = next_scanned n in
      let n'' = count_match dry_run row n' in
      let without_row = scan_rows dry_run limit rows n' in
      let with_row = scan_rows dry_run limit rows n'' in
      if not (is_excluded_row row || is_low_value_row row)
      then without_row
      else if leb limit n''.matched
      then n''
      else with_row

  -- `DELETE FROM fanout_outbox WHERE id IN (…)`, unless there is nothing to delete
  unfoldable pub delete_by_ids : Bool → List ℕ → List Job → List Job × ℕ
  delete_by_ids dry_run ids jobs =
      if dry_run || is_nil ids then (jobs, 0) else delete_jobs (λ j. occurs same_id j.id ids) jobs

  -- The rows are counted in `counted` and read in `read`; then the transaction deletes in `o`, and after
  -- `later`, what other tasks do meanwhile, the rows are counted again.
  unfoldable pub prune_letta_low_value_outbox :
      List Text
      → ℕ
      → Bool
      → (counted read : Outbox) → (later : Outbox → Outbox) → Outbox
      → PruneReport × Outbox
  unfolding scan_rows delete_by_ids
  prune_letta_low_value_outbox statuses limit dry_run counted read later o =
      let wanted = normalized_statuses statuses in
      let max_limit = max 1 (min limit 250_000) in
      let rows = order_by prune_le (select (in_scope wanted) read.jobs) in
      let scan = scan_rows dry_run max_limit rows empty_scan in
      let (kept, deleted) = delete_by_ids dry_run scan.delete_ids o.jobs in
      (
        record {
          statuses = wanted;
          before_pending = count (in_scope wanted) counted.jobs;
          after_pending =
              if dry_run
              then count (in_scope wanted) counted.jobs
              else count (in_scope wanted) (later (record o { jobs = kept })).jobs;
          scan = scan;
          deleted = deleted;
          dry_run = dry_run;
          limit = max_limit;
        },
        record o { jobs = kept },
      )
