-- ===== src/Messaging.antt =====
-- Commands that arrive as chat messages: `_messaging_command_prefixes`, `_strip_messaging_prefix`,
-- `_messaging_topic_path`, `_messaging_file_name` and `_messaging_directive_int`. A dictionary of
-- directives is an association list.
pub mod Building
pub mod Blank
pub mod Accepted
pub mod Naming
pub mod Contracted
pub mod Prefixes
use context_lattice.Prelude.{
  Bool, List, Option, Reply, Text, [], codes, contains, drop, drop_while, false, if◌then◌else◌,
  is_empty, leb, length, lower, map, max, min, none, order_by, reply, select, some, starts_with,
  strip, text_eq, true, ℕ, ◌&&◌, ◌*◌, ◌++◌, ◌+◌, ◌-◌, ◌==◌, ◌>>=◌, ◌||◌, ◌∷◌,
}
use context_lattice.Json.{decimal}
use context_lattice.Paths.{normalize_memory_path, normalize_topic_path}
use context_lattice.Paths.Topics.{prefixes}
use context_lattice.Caches.{lookup}

pub record MessagingConfig : Type 0 where
  pub command_handle : Text
  pub telegram_bot_username : Text
  pub search_limit : ℕ
  pub provider_chat_model : Text
  pub topic_root : Text

-- `if prefix not in prefixes: prefixes.append(prefix)`
unfoldable pub add_new : List Text → List Text → List Text
add_new prefixes [] = prefixes
add_new prefixes (p ∷ ps) =
    add_new (if contains prefixes p then prefixes else prefixes ++ p ∷ []) ps

-- The configured handle with each of its marks.
unfoldable pub handle_prefixes : Text → List Text
handle_prefixes [] = []
handle_prefixes (c ∷ s) =
    if c == b'@'
    then (c ∷ s) ∷ s ∷ (b'/' ∷ s) ∷ []
    else if c == b'/'
    then (c ∷ s) ∷ s ∷ (b'@' ∷ s) ∷ []
    else (c ∷ s) ∷ (b'@' ∷ c ∷ s) ∷ (b'/' ∷ c ∷ s) ∷ []

abbrev pub default_prefixes : List Text
default_prefixes =
    codes "@contextlattice" ∷ codes "contextlattice" ∷ codes "/contextlattice" ∷ codes "/cl" ∷ []

-- The commands of a Telegram bot, for the prefixes that start with a slash.
unfoldable pub telegram_prefixes : Text → List Text → List Text
telegram_prefixes suffix prefixes =
    map (λ p. p ++ b'@' ∷ suffix) (select (λ p. starts_with p (codes "/")) prefixes)

unfoldable pub messaging_command_prefixes : MessagingConfig → List Text
unfolding add_new handle_prefixes telegram_prefixes
messaging_command_prefixes config =
    let prefixes =
      add_new (handle_prefixes (lower (strip config.command_handle))) default_prefixes in
    let suffix = lower (strip config.telegram_bot_username) in
    if is_empty suffix then prefixes else add_new prefixes (telegram_prefixes suffix prefixes)

-- `sorted(…, key=len, reverse=True)`: longer texts first, equal lengths in their order.
unfoldable pub longest_first : List Text → List Text
longest_first ps = order_by (λ a b. leb (length b) (length a)) ps

abbrev pub is_separator : ℕ → Bool
is_separator c = c == 32 || c == 9 || c == b',' || c == b':' || c == b'-'

unfoldable pub strip_any_prefix : List Text → Text → Option Text
strip_any_prefix [] raw = none
strip_any_prefix (p ∷ ps) raw =
    let rest = strip_any_prefix ps raw in
    if starts_with (lower raw) p then some (drop_while is_separator (drop (length p) raw)) else rest

unfoldable pub strip_messaging_prefix : MessagingConfig → Text → Bool → Option Text
unfolding strip_any_prefix longest_first
strip_messaging_prefix config text require_prefix =
    let raw = strip text in
    if is_empty raw
    then none
    else elim (strip_any_prefix (longest_first (messaging_command_prefixes config)) raw) [
      | some remainder ↦ some remainder
      | none ↦ if require_prefix then none else some raw
    ]

module _ (config : MessagingConfig) (unquote : Text → Text) where
  abbrev topic_of : Text → Reply Text
  topic_of s = normalize_topic_path unquote s

  unfoldable pub joined_topic : Text → Text → Reply Text
  joined_topic base source =
      if is_empty source || text_eq source config.topic_root
      then reply base
      else if text_eq base config.topic_root
      then reply source
      else topic_of (base ++ codes "/" ++ source)

  -- The topic of a channel and a source.
  unfoldable pub default_topic : Text → Text → Reply Text
  default_topic default_root source_id = do
    base ← topic_of default_root
    source ← topic_of source_id
    joined_topic base source

  abbrev or_default : Reply Text → Text → Reply Text
  or_default fallback normalized = if is_empty normalized then fallback else reply normalized

  unfoldable pub messaging_topic_path : Text → Text → Option Text → Reply Text
  unfolding default_topic joined_topic
  messaging_topic_path default_root source_id none = default_topic default_root source_id
  messaging_topic_path default_root source_id (some explicit) =
      if is_empty explicit then default_topic default_root source_id else do
        normalized ← topic_of explicit
        or_default (default_topic default_root source_id) normalized

  -- `millis` is the time in milliseconds.
  unfoldable pub message_file : ℕ → Text → Reply Text
  message_file millis topic_path =
      let folder =
        if text_eq topic_path config.topic_root then codes "channels/messaging" else topic_path in
      normalize_memory_path unquote (folder ++ codes "/msg_" ++ decimal millis ++ codes ".md")

  unfoldable pub messaging_file_name : ℕ → Text → Option Text → Reply Text
  unfolding message_file
  messaging_file_name millis topic_path none = message_file millis topic_path
  messaging_file_name millis topic_path (some explicit) =
      if is_empty explicit then message_file millis topic_path else do
        normalized ← normalize_memory_path unquote explicit
        or_default (message_file millis topic_path) normalized

-- `int(s)` of digits with single underscores between them; `after` says that a digit came before.
unfoldable pub int_digits : Bool → ℕ → Text → Option ℕ
int_digits after acc [] = if after then some acc else none
int_digits after acc (c ∷ s) =
    let digit = int_digits true (acc * 10 + (c - 48)) s in
    let underscore = int_digits false acc s in
    if leb 48 c && leb c 57 then digit else if c == b'_' && after then underscore else none

abbrev zero_of : Option ℕ → Option ℕ
zero_of none = none
zero_of (some n) = some 0

-- A negative number is read as zero, since the minimum that follows is never negative.
unfoldable pub int_of_text : Text → Option ℕ
unfolding int_digits
int_of_text [] = none
int_of_text (c ∷ s) =
    if c == b'-'
    then zero_of (int_digits false 0 s)
    else if c == b'+'
    then int_digits false 0 s
    else int_digits false 0 (c ∷ s)

abbrev bounded : ℕ → ℕ → ℕ → Option ℕ → ℕ
bounded default minimum maximum none = default
bounded default minimum maximum (some n) = max minimum (min maximum n)

unfoldable pub messaging_directive_int : List (Text × Text) → Text → ℕ → ℕ → ℕ → ℕ
unfolding int_of_text
messaging_directive_int directives key default minimum maximum = elim (lookup key directives) [
  | none ↦ default
  | some raw ↦ bounded default minimum maximum (int_of_text (strip raw))
]
