-- ===== src/Messaging/Naming.antt =====
-- The only error of `_messaging_file_name` is a bad request.
use context_lattice.Prelude.{
  Bool, Bool-cases, Option, Reply, Text, arith, false, http_error, if◌then◌else◌, inl, inr,
  is_empty, none, refl, reply, some, true, ℕ, ◌>>=◌, ◌≡◌,
}
use context_lattice.Paths.{normalize_memory_path}
use context_lattice.Messaging.{MessagingConfig, message_file, messaging_file_name}

-- The code of an error; all errors here are bad requests.
abbrev pub code_or_400 : {A : Type 0} → Reply A → ℕ
code_or_400 (reply a) = 400
code_or_400 (http_error code) = code

normalize_code :
    (unquote : Text → Text) (value : Text) → code_or_400 (normalize_memory_path unquote value) ≡ 400
unfolding normalize_memory_path
normalize_code unquote value = ground arith

or_fallback_code :
    (b : Bool) (fallback : Reply Text) (n : Text)
    → code_or_400 fallback ≡ 400
    → code_or_400 (if b then fallback else reply n) ≡ 400
or_fallback_code true fallback n h = h
or_fallback_code false fallback n h = refl

bind_code :
    (m : Reply Text) (f : Text → Reply Text)
    → code_or_400 m ≡ 400
    → ((n : Text) → code_or_400 (f n) ≡ 400)
    → code_or_400 (m >>= f) ≡ 400
bind_code (reply a) f h k = k a
bind_code (http_error code) f h k = h

module _ (config : MessagingConfig) (unquote : Text → Text) (millis : ℕ) where
  message_file_code :
      (topic_path : Text) → code_or_400 (message_file config unquote millis topic_path) ≡ 400
  unfolding message_file
  message_file_code topic_path = normalize_code unquote _

  or_message : Text → Text → Reply Text
  or_message topic_path n =
      if is_empty n then message_file config unquote millis topic_path else reply n

  pub file_name_code :
      (topic_path : Text) (explicit : Option Text)
      → code_or_400 (messaging_file_name config unquote millis topic_path explicit) ≡ 400
  unfolding messaging_file_name or_message
  file_name_code topic_path none = message_file_code topic_path
  file_name_code topic_path (some explicit) = elim (Bool-cases (is_empty explicit)) [
    | inl e ↦ rw e (message_file_code topic_path)
    | inr e ↦ rw e (
        bind_code (normalize_memory_path unquote explicit) _ (normalize_code unquote explicit) (λ n.
          or_fallback_code (is_empty n) (message_file config unquote millis topic_path) n
            (message_file_code topic_path)))
  ]
