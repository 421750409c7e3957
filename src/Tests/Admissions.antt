-- ===== src/Tests/Admissions.antt =====
-- The admission's and the prune's theorems at work.
use context_lattice.Prelude.{
  All, Has, Text, [], codes, false, fnmatch, is_some, ltb, not, refl, true, ◌&&◌, ◌+◌, ◌||◌, ◌∷◌,
  ◌≡◌, ◌≤◌, ◌⊎◌,
}
use context_lattice.Json.{Json}
use context_lattice.Outbox.{Outbox}
use context_lattice.Outbox.Invariant.{IsValidOutbox}
use context_lattice.Admission.{
  AdmissionConfig, fanout_target_outstanding_count, is_low_value_memory_record,
  letta_admission_should_enqueue, letta_exclusion,
}
use context_lattice.Admission.Prune.{prune_letta_low_value_outbox}
use context_lattice.Admission.Admitting.{admission_lem}
use context_lattice.Admission.Pruning.{IsRead, is_prunable, prune_lem}
use context_lattice.Tests.Fanout.{outbox, outbox-IsValidOutbox, waiting_job}

abbrev pub admission_config : AdmissionConfig
admission_config = record {
  low_value_topic_prefixes = codes "tmp" ∷ [];
  low_value_file_suffixes = codes "__latest.json" ∷ [];
  letta_excluded_file_patterns = codes "index__*.json" ∷ [];
  letta_excluded_topic_prefixes = codes "metrics" ∷ [];
  admission_enabled = true;
  backlog_soft_limit = 500;
  backlog_hard_limit = 1500;
  low_value_min_summary_chars = 80;
  letta = codes "letta";
}

abbrev repr : Json → Text
repr v = []

admission_example :
    let a =
      letta_admission_should_enqueue admission_config [] (codes "a.md") (codes "tmp/x") [] [] in
    let low_value =
      is_low_value_memory_record admission_config (codes "a.md") (codes "tmp/x") [] [] true in
    (a.admitted ≡ (
      not true
      || not (is_some (letta_exclusion admission_config (codes "a.md") (codes "tmp/x")))
        && (not low_value || ltb (fanout_target_outstanding_count [] (codes "letta")) 500)))
    × (is_some a.reason ≡ not a.admitted)
admission_example = admission_lem admission_config [] (codes "a.md") (codes "tmp/x") [] []

abbrev waiting_only : Outbox
waiting_only = record outbox { jobs = waiting_job ∷ [] }

prune_example :
    let (report, after) =
      prune_letta_low_value_outbox admission_config repr
        (codes "running" ∷ [])
        9
        false
        outbox
        outbox
        (λ x. x)
        outbox in
    let (dry, same) =
      prune_letta_low_value_outbox admission_config repr
        (codes "running" ∷ [])
        9
        true
        outbox
        outbox
        (λ x. x)
        outbox in
    let (busy_report, busy_after) =
      prune_letta_low_value_outbox admission_config repr
        (codes "running" ∷ [])
        9
        false
        outbox
        outbox
        (λ x. x)
        waiting_only in
    All
      (λ j.
        (is_prunable admission_config repr (codes "running" ∷ []) 9 outbox outbox-IsValidOutbox j
          ≡ true)
        ⊎ Has j after.jobs)
      outbox.jobs
    × (report.deleted ≡ report.scan.matched)
    × (report.deleted ≤ 9)
    × ((report.deleted ≡ 9)
        ⊎ All
            (λ j.
              is_prunable admission_config repr
                (codes "running" ∷ [])
                9
                outbox
                outbox-IsValidOutbox
                j
              ≡ false)
            after.jobs)
    × (report.before_pending ≡ report.after_pending + report.deleted)
    × IsValidOutbox after
    × (dry.scan.matched ≡ report.scan.matched)
    × (same ≡ outbox)
    × All
        (λ j.
          IsRead admission_config repr (codes "running" ∷ []) 9 outbox outbox-IsValidOutbox j
          ⊎ Has j busy_after.jobs)
        waiting_only.jobs
prune_example =
    prune_lem admission_config repr (codes "running" ∷ []) 9 outbox outbox-IsValidOutbox
      waiting_only (λ x. x)

-- A pattern, and what it matches.
glob_test : fnmatch (codes "index__a.json") (codes "index__[!b-z]*.json") ≡ true
unfolding fnmatch
glob_test = refl
