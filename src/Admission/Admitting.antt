-- ===== src/Admission/Admitting.antt =====
-- When a memory record is admitted to Letta's queue.
use context_lattice.Prelude.{Bool, Text, arith, is_some, ltb, max, not, true, ℕ, ◌&&◌, ◌||◌, ◌≡◌}
use context_lattice.Admission.{
  AdmissionConfig, FanoutSummary, backlog_decision, fanout_target_outstanding_count,
  is_low_value_memory_record, letta_admission_should_enqueue, letta_exclusion,
}

backlog_decision_lem :
    (config : AdmissionConfig) (low_value : Bool) (n : ℕ)
    → let a = backlog_decision config low_value n in
      (a.admitted ≡ (not low_value || ltb n (max 1 config.backlog_soft_limit)))
      × (is_some a.reason ≡ not a.admitted)
      × (a.backlog ≡ n)
unfolding backlog_decision
backlog_decision_lem config low_value n = (ground arith, ground arith, ground arith)

-- A record is admitted if admission control is off, or if it is not excluded by its file's name or topic
-- and either has some value or meets a backlog below the soft limit (at least one): the hard limit does
-- not decide, but only names the reason. A reason is given with each refusal and no other answer.
pub admission_lem :
    (config : AdmissionConfig) (cache : FanoutSummary)
    (file_name topic_path summary source_kind : Text)
    → let a =
        letta_admission_should_enqueue config cache file_name topic_path summary source_kind in
      let low_value =
        is_low_value_memory_record config file_name topic_path summary source_kind true in
      let backlog = fanout_target_outstanding_count cache config.letta in
      (a.admitted ≡ (
        not config.admission_enabled
        || not (is_some (letta_exclusion config file_name topic_path))
          && (not low_value || ltb backlog (max 1 config.backlog_soft_limit))))
      × (is_some a.reason ≡ not a.admitted)
unfolding letta_admission_should_enqueue
admission_lem config cache file_name topic_path summary source_kind =
    let low_value =
      is_low_value_memory_record config file_name topic_path summary source_kind true in
    let d =
      backlog_decision_lem config low_value (fanout_target_outstanding_count cache config.letta) in
    (ground (arith, d.0), ground (arith, d.1))
