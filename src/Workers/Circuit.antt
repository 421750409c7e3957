-- ===== src/Workers/Circuit.antt =====
-- When the workers switch Letta off.
use mathlib.Core.Path.{subst}
use context_lattice.Prelude.{
  All, Bool, Bool-cases, List, Text, [], arith, false, inl, inr, leb, length, max, refl, some, suc,
  text_eq, true, update_where, ℕ, ◌&&◌, ◌+◌, ◌<◌, ◌==◌, ◌∙◌, ◌∷◌, ◌≡◌, ◌≤◌,
}
use context_lattice.Outbox.{Job, Outbox}
use context_lattice.Outbox.Mark.{fail_letta_backlog, failed_row, in_backlog}
use context_lattice.Workers.{
  Raised, WorkerConfig, WorkerState, error_text, is_letta_permanent_error,
  is_letta_transient_server_error, is_mindsdb_permanent_error, record_letta_transient_failure,
  set_letta_runtime_disabled,
}
use context_lattice.Workers.Errors.{
  Moments, handle_fanout_job_error, handle_transient, is_letta_job,
}

-- A failure of Letta that may pass.
abbrev pub IsTransient : WorkerConfig → Job × Raised → Type 0
IsTransient config (job, exc) =
    (is_letta_job config job ≡ true)
    × (is_letta_permanent_error (error_text exc) ≡ false)
    × (is_letta_transient_server_error (error_text exc) ≡ true)

module _ (config : WorkerConfig) (m : Moments) where
  -- Failures one after another, with no success between.
  unfoldable pub handle_errors : List (Job × Raised) → WorkerState → WorkerState
  handle_errors [] s = s
  handle_errors ((job, exc) ∷ failures) s =
      handle_errors failures (handle_fanout_job_error config m job exc s)

  -- The state after one more transient failure, before the job is settled.
  abbrev counted_failure : Text → WorkerState → WorkerState
  counted_failure text s = record s {
    last_error = some text;
    letta_transient_error_streak = s.letta_transient_error_streak + 1;
  }

  transient-eq :
      (job : Job) (exc : Raised) (s : WorkerState)
      → config.letta_disable_on_transient_errors ≡ true
      → IsTransient config (job, exc)
      → handle_fanout_job_error config m job exc s
        ≡ handle_transient config m job (error_text exc) (
          leb (max 1 config.letta_transient_error_threshold) (s.letta_transient_error_streak + 1),
          counted_failure (error_text exc) s,
        )
  unfolding handle_fanout_job_error record_letta_transient_failure
  transient-eq job exc s on h = rw (h.0, h.1, on, h.2) refl

  -- Where Letta is not switched off, only the table and the counter change.
  handle_transient-untripped :
      (job : Job) (text : Text) (s : WorkerState)
      → let s' = handle_transient config m job text (false, s) in
        (s'.letta_transient_error_streak ≡ s.letta_transient_error_streak)
        × (s'.letta_runtime_enabled ≡ s.letta_runtime_enabled)
  unfolding handle_transient
  handle_transient-untripped job text s =
      elim (Bool-cases (text_eq job.target config.mindsdb && is_mindsdb_permanent_error text)) [
        | inl e ↦ rw e (elim (Bool-cases config.mindsdb_fail_open_on_permanent_error) [
          | inl f ↦ rw f (refl, refl)
          | inr f ↦ rw f (refl, refl)
        ])
        | inr e ↦ rw e (refl, refl)
      ]

  -- No row of Letta is left to do.
  abbrev pub IsCleared : Outbox → Type 0
  IsCleared o = All (λ j. in_backlog config.fanout j ≡ false) o.jobs

  cleared :
      (now : ℕ) (reason : Text) (jobs : List Job)
      → All
          (λ j. in_backlog config.fanout j ≡ false)
          (update_where (in_backlog config.fanout) (failed_row now reason) jobs)
  unfolding update_where failed_row
  cleared now reason [] = tt
  cleared now reason (j ∷ jobs) = elim (Bool-cases (in_backlog config.fanout j)) [
    | inl e ↦ rw e (ground arith, cleared now reason jobs)
    | inr e ↦ rw e (e, cleared now reason jobs)
  ]

  -- What the workers share after a row of failures, by whether these have reached the threshold.
  abbrev pub CircuitState : Bool → ℕ → WorkerState → Type 0
  CircuitState true streak s =
      (s.letta_runtime_enabled ≡ false) × (s.letta_transient_error_streak ≡ 0) × IsCleared s.outbox
  CircuitState false streak s =
      (s.letta_runtime_enabled ≡ true) × (s.letta_transient_error_streak ≡ streak)

  tripped-CircuitState :
      (job : Job) (text : Text) (s : WorkerState) (n : ℕ)
      → s.letta_runtime_enabled ≡ true
      → CircuitState true n (handle_transient config m job text (true, s))
  unfolding handle_transient set_letta_runtime_disabled fail_letta_backlog
  tripped-CircuitState job text s n e = rw e (refl, refl, cleared m.now _ s.outbox.jobs)

  one_failure :
      (job : Job) (exc : Raised) (s : WorkerState)
      → config.letta_disable_on_transient_errors ≡ true
      → IsTransient config (job, exc)
      → s.letta_runtime_enabled ≡ true
      → s.letta_transient_error_streak < max 1 config.letta_transient_error_threshold
      → let streak = s.letta_transient_error_streak + 1 in
        CircuitState
          (streak == max 1 config.letta_transient_error_threshold)
          streak
          (handle_fanout_job_error config m job exc s)
  one_failure job exc s on h e lt =
      let streak : ℕ = s.letta_transient_error_streak + 1 in
      let limit : ℕ = max 1 config.letta_transient_error_threshold in
      elim (Bool-cases (leb limit streak)) [
        | inl p ↦
            let n : (streak == limit) ≡ true = ground arith in
            rw (transient-eq job exc s on h, p, n)
              (tripped-CircuitState job _ (counted_failure (error_text exc) s) streak e)
        | inr p ↦
            let n : (streak == limit) ≡ false = ground arith in
            let u =
              handle_transient-untripped job (error_text exc)
                (counted_failure (error_text exc) s) in
            rw (transient-eq job exc s on h, p, n) (u.1 ∙ e, u.0)
      ]

  -- Letta is switched off by the failure that makes the row of transient failures as long as the
  -- threshold (at least one), and not before. Until then the streak counts the failures; then it starts
  -- again, and no job of Letta is left pending, retrying or running.
  pub letta_circuit :
      (failures : List (Job × Raised)) (s : WorkerState)
      → config.letta_disable_on_transient_errors ≡ true
      → All (IsTransient config) failures
      → s.letta_runtime_enabled ≡ true
      → s.letta_transient_error_streak < max 1 config.letta_transient_error_threshold
      → s.letta_transient_error_streak + length failures
        ≤ max 1 config.letta_transient_error_threshold
      → let streak = s.letta_transient_error_streak + length failures in
        CircuitState
          (streak == max 1 config.letta_transient_error_threshold)
          streak
          (handle_errors failures s)
  unfolding handle_errors
  letta_circuit [] s on h e lt le =
      let n : (s.letta_transient_error_streak + 0 == max 1 config.letta_transient_error_threshold)
          ≡ false =
        ground arith in
      rw n (e, omega arith)
  letta_circuit ((job, exc) ∷ []) s on h e lt le = one_failure job exc s on h.0 e lt
  letta_circuit ((job, exc) ∷ next ∷ failures) s on h e lt le =
      let limit : ℕ = max 1 config.letta_transient_error_threshold in
      let n : (s.letta_transient_error_streak + 1 == limit) ≡ false = ground arith in
      let one =
        subst
          (λ b.
            CircuitState b (s.letta_transient_error_streak + 1)
              (handle_fanout_job_error config m job exc s))
          n (one_failure job exc s on h.0 e lt) in
      let s' = handle_fanout_job_error config m job exc s in
      let total : s'.letta_transient_error_streak + suc (length failures)
          ≡ s.letta_transient_error_streak + suc (suc (length failures)) =
        omega (arith, one.1) in
      subst
        (λ k.
          CircuitState (k == limit) k
            (handle_errors failures (handle_fanout_job_error config m next.0 next.1 s')))
        total
        (letta_circuit (next ∷ failures) s' on h.1 one.0 (omega (arith, one.1, le))
          (omega (arith, one.1, le)))
