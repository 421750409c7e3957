-- ===== src/Admission.antt =====
-- Which memory records of services/orchestrator/app.py are worth sending to Letta:
-- `_is_low_value_memory_record`, `_is_letta_excluded_memory_record`, `_letta_admission_should_enqueue`
-- and, in Admission/Prune, `prune_letta_low_value_outbox`.
pub mod Prune
pub mod Admitting
pub mod Counting
pub mod Scanning
pub mod Pruning
use mathlib.Core.List.{reverse}
use context_lattice.Prelude.{
  Bool, List, Option, Text, [], codes, false, fnmatch, holds_text, if◌then◌else◌, is_empty, leb,
  length, lower, ltb, max, none, not, or_else, some, starts_with, strip, strip_by, text_eq, true, ℕ,
  ◌&&◌, ◌++◌, ◌+◌, ◌==◌, ◌||◌, ◌∷◌,
}
use context_lattice.Caches.{lookup}

pub record AdmissionConfig : Type 0 where
  pub low_value_topic_prefixes : List Text
  pub low_value_file_suffixes : List Text
  pub letta_excluded_file_patterns : List Text
  pub letta_excluded_topic_prefixes : List Text
  pub admission_enabled : Bool
  pub backlog_soft_limit : ℕ
  pub backlog_hard_limit : ℕ
  pub low_value_min_summary_chars : ℕ
  pub letta : Text

-- `normalized == prefix or normalized.startswith(f"{prefix}/")`, for some prefix
unfoldable pub under_any_prefix : List Text → Text → Bool
under_any_prefix [] t = false
under_any_prefix (p ∷ ps) t = text_eq t p || starts_with t (p ++ codes "/") || under_any_prefix ps t

-- `str(topic_path or "").strip().lower().strip("/")`
unfoldable pub normalized_topic : Text → Text
unfolding strip strip_by lower
normalized_topic t = strip_by (λ c. c == 47) (lower (strip t))

unfoldable pub looks_low_value_topic_path : AdmissionConfig → Text → Bool
unfolding under_any_prefix
looks_low_value_topic_path config topic_path =
    let normalized = normalized_topic topic_path in
    not (is_empty normalized) && under_any_prefix config.low_value_topic_prefixes normalized

unfoldable pub ends_with : Text → Text → Bool
ends_with s suffix = starts_with (reverse s) (reverse suffix)

unfoldable pub ends_with_any : List Text → Text → Bool
unfolding ends_with
ends_with_any [] s = false
ends_with_any (suffix ∷ rest) s = ends_with s suffix || ends_with_any rest s

-- `str(file_name or "").strip().lower()`
unfoldable pub lowered : Text → Text
unfolding strip strip_by lower
lowered s = lower (strip s)

unfoldable pub looks_low_value_file : AdmissionConfig → Text → Bool
unfolding ends_with_any
looks_low_value_file config file_name =
    let name = lowered file_name in
    not (is_empty name)
    && (holds_text (codes "/_rollups/") name || ends_with_any config.low_value_file_suffixes name)

matches_some : Text → List Text → Bool
matches_some name [] = false
matches_some name (pattern ∷ rest) =
    not (is_empty (lowered pattern)) && fnmatch name (lowered pattern) || matches_some name rest

unfoldable pub matches_any_glob : Text → List Text → Bool
unfolding matches_some
matches_any_glob value patterns =
    not (is_empty (lowered value)) && matches_some (lowered value) patterns

unfoldable pub looks_letta_excluded_topic_path : AdmissionConfig → Text → Bool
unfolding under_any_prefix
looks_letta_excluded_topic_path config topic_path =
    let normalized = normalized_topic topic_path in
    not (is_empty normalized) && under_any_prefix config.letta_excluded_topic_prefixes normalized

-- Why a record is refused.
pub data Refusal : Type 0 where
  excluded_file_pattern excluded_topic_prefix hard_backlog_low_value soft_backlog_low_value :
      Refusal

-- The reason why the record is excluded, if it is.
unfoldable pub letta_exclusion : AdmissionConfig → Text → Text → Option Refusal
letta_exclusion config file_name topic_path =
    if matches_any_glob file_name config.letta_excluded_file_patterns
    then some excluded_file_pattern
    else if looks_letta_excluded_topic_path config topic_path
    then some excluded_topic_prefix
    else none

-- A short summary of a file that changes often.
unfoldable pub is_short_churn : AdmissionConfig → Text → Text → Bool
unfolding ends_with
is_short_churn config file_name summary =
    let summary_len = length (strip summary) in
    (ends_with (lowered file_name) (codes ".json") || ends_with (lowered file_name) (codes ".log"))
    && ltb 0 summary_len
    && leb summary_len (max 1 config.low_value_min_summary_chars)

unfoldable pub is_low_value_memory_record :
    AdmissionConfig → Text → Text → Text → Text → Bool → Bool
unfolding is_short_churn
is_low_value_memory_record config file_name topic_path summary source_kind include_short_summary =
    text_eq (lowered source_kind) (codes "high_frequency_rollup")
    || looks_low_value_file config file_name
    || looks_low_value_topic_path config topic_path
    || include_short_summary && is_short_churn config file_name summary

-- `summary["by_target"]`: the number of rows of each status, by target.
abbrev pub FanoutSummary : Type 0
FanoutSummary = List (Text × List (Text × ℕ))

unfoldable pub fanout_target_outstanding_count : FanoutSummary → Text → ℕ
fanout_target_outstanding_count summary target_name = elim (lookup target_name summary) [
  | none ↦ 0
  | some counts ↦
      or_else (lookup (codes "pending") counts) 0
      + or_else (lookup (codes "retrying") counts) 0
      + or_else (lookup (codes "running") counts) 0
]

-- Whether the record is admitted, why not, and the backlog.
pub record Admission : Type 0 where
  pub admitted : Bool
  pub reason : Option Refusal
  pub backlog : ℕ

abbrev refused : Refusal → ℕ → Admission
refused why n = record { admitted = false; reason = some why; backlog = n }

-- The decision on a record of known value, from the limits.
unfoldable pub backlog_decision : AdmissionConfig → Bool → ℕ → Admission
backlog_decision config low_value backlog =
    let soft_limit = max 1 config.backlog_soft_limit in
    let hard_limit = max soft_limit config.backlog_hard_limit in
    if leb hard_limit backlog && low_value
    then refused hard_backlog_low_value backlog
    else if leb soft_limit backlog && low_value
    then refused soft_backlog_low_value backlog
    else record { admitted = true; reason = none; backlog = backlog }

unfoldable pub letta_admission_should_enqueue :
    AdmissionConfig → FanoutSummary → Text → Text → Text → Text → Admission
unfolding backlog_decision
letta_admission_should_enqueue config summary_cache file_name topic_path summary source_kind =
    let backlog = fanout_target_outstanding_count summary_cache config.letta in
    if not config.admission_enabled
    then record { admitted = true; reason = none; backlog = 0 }
    else elim (letta_exclusion config file_name topic_path) [
      | some why ↦ refused why backlog
      | none ↦
          backlog_decision config
            (is_low_value_memory_record config file_name topic_path summary source_kind true)
            backlog
    ]
