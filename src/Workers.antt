-- ===== src/Workers.antt =====
-- The fanout workers of services/orchestrator/app.py: the settings and the globals that they share, and
-- what they read from an error's text (`_is_letta_permanent_error`, `_is_letta_transient_server_error`,
-- `_is_mindsdb_permanent_error`).
pub mod Errors
pub mod Turn
pub mod Circuit
pub mod Effects
pub mod Steps
pub mod Outcomes
pub mod Grouping
pub mod Settling
pub mod Finishing
use context_lattice.Prelude.{
  Bool, Option, Text, [], all_digits, codes, decimal_value, drop, false, holds_text, if◌then◌else◌,
  is_empty, leb, length, lower, max, none, not, some, starts_with, strip, take, ℕ, ◌&&◌, ◌+◌, ◌==◌,
  ◌||◌, ◌∷◌,
}
use context_lattice.Outbox.{Outbox, OutboxConfig}

-- The settings of the environment. A target's name is a constant of the source.
pub record WorkerConfig : Type 0 where
  pub fanout : OutboxConfig
  pub qdrant : Text
  pub mindsdb : Text
  pub mongo_raw : Text
  pub langfuse : Text
  pub qdrant_bulk_size : ℕ
  pub mindsdb_bulk_size : ℕ
  pub mongo_bulk_size : ℕ
  pub langfuse_bulk_size : ℕ
  pub letta_bulk_size : ℕ
  pub batch_size : ℕ
  pub letta_auto_session_id : Text
  pub letta_require_api_key : Bool
  pub letta_api_key : Text
  pub letta_disable_on_transient_errors : Bool
  pub letta_transient_error_threshold : ℕ
  pub mindsdb_fail_open_on_permanent_error : Bool

-- The globals, and the table. `last_error` is `outbox_health["lastError"]`.
pub record WorkerState : Type 0 where
  pub outbox : Outbox
  pub letta_runtime_enabled : Bool
  pub letta_runtime_disabled_reason : Text
  pub letta_transient_error_streak : ℕ
  pub memory_write_queue_processed : ℕ
  pub last_error : Option Text

-- An exception: its text, and the name of its class.
pub record Raised : Type 0 where
  pub message : Text
  pub class_name : Text

-- `str(exc).strip() or exc.__class__.__name__`
unfoldable pub error_text : Raised → Text
error_text exc = if is_empty (strip exc.message) then exc.class_name else strip exc.message

unfoldable pub letta_config_enabled : WorkerConfig → Bool
letta_config_enabled config =
    not (is_empty config.letta_auto_session_id)
    && not (config.letta_require_api_key && is_empty config.letta_api_key)

unfoldable pub letta_target_enabled : WorkerConfig → WorkerState → Bool
unfolding letta_config_enabled
letta_target_enabled config s = letta_config_enabled config && s.letta_runtime_enabled

-- Three digits at the start of a text, on ASCII digits.
abbrev three_digits : Text → Option ℕ
three_digits s =
    if length (take 3 s) == 3 && all_digits (take 3 s)
    then some (decimal_value 0 (take 3 s))
    else none

abbrev or_option : Option ℕ → Option ℕ → Option ℕ
or_option none b = b
or_option (some a) b = some a

-- `re.search(r"status=(\d{3})", text)`: the first match.
unfoldable pub status_code : Text → Option ℕ
status_code [] = none
status_code (c ∷ s) =
    let rest = status_code s in
    or_option
      (if starts_with (c ∷ s) (codes "status=") then three_digits (drop 7 (c ∷ s)) else none) rest

abbrev pub status_passes : (ℕ → Bool) → Option ℕ → Bool
status_passes p none = false
status_passes p (some n) = p n

abbrev is_permanent_status : ℕ → Bool
is_permanent_status n =
    n == 400 || n == 401 || n == 403 || n == 404 || n == 405 || n == 410 || n == 422

unfoldable pub is_letta_permanent_error : Text → Bool
unfolding holds_text status_code
is_letta_permanent_error message =
    let text = lower message in
    status_passes is_permanent_status (status_code text)
    || holds_text (codes "not found") text
    || holds_text (codes "invalid_argument") text

unfoldable pub is_letta_transient_server_error : Text → Bool
unfolding holds_text status_code
is_letta_transient_server_error message =
    let text = lower message in
    status_passes (λ n. leb 500 n && leb n 599) (status_code text)
    || holds_text (codes "unknown error occurred") text
    || holds_text (codes "internal server error") text

unfoldable pub is_mindsdb_permanent_error : Text → Bool
unfolding holds_text
is_mindsdb_permanent_error message =
    let text = lower message in
    holds_text (codes "file is too small to be a well-formed file") text
    || holds_text (codes "verification of flatbuffer-encoded footer failed") text
    || holds_text (codes "lz4 compressed input contains more than one frame") text
    || holds_text (codes "expected to read") text
      && holds_text (codes "metadata bytes but got") text
    || holds_text (codes "unable to read") text && holds_text (codes "from end of file") text

unfoldable pub set_letta_runtime_disabled : Text → WorkerState → WorkerState
set_letta_runtime_disabled reason s =
    if s.letta_runtime_enabled
    then record s {
      letta_runtime_enabled = false;
      letta_transient_error_streak = 0;
      letta_runtime_disabled_reason = take 240 reason;
    }
    else s

unfoldable pub reset_letta_transient_error_streak : WorkerState → WorkerState
reset_letta_transient_error_streak s = record s { letta_transient_error_streak = 0 }

-- Whether the streak has reached the threshold, and the new streak.
unfoldable pub record_letta_transient_failure :
    WorkerConfig → Text → WorkerState → Bool × WorkerState
record_letta_transient_failure config text s =
    if not config.letta_disable_on_transient_errors
    then (false, s)
    else if not (is_letta_transient_server_error text)
    then (false, reset_letta_transient_error_streak s)
    else (
      leb (max 1 config.letta_transient_error_threshold) (s.letta_transient_error_streak + 1),
      record s { letta_transient_error_streak = s.letta_transient_error_streak + 1 },
    )
