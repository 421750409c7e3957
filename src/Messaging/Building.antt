-- ===== src/Messaging/Building.antt =====
-- `_build_messaging_task_payload`: a task from the text behind "task create".
use context_lattice.Prelude.{
  Bool, List, Option, Reply, Text, [], codes, contains, drop_while, false, http_error,
  if◌then◌else◌, is_empty, is_space, lower, none, pos, refuse_if, reply, some, starts_with, strip,
  take, true, upper, ℕ, ◌++◌, ◌>>=◌, ◌>>◌, ◌∷◌,
}
use context_lattice.Json.{
  Fields, Json, bool, end, field, get, int, null, obj, or_value, str, str_of,
}
use context_lattice.Caches.{lookup}
use context_lattice.Messaging.{MessagingConfig, messaging_directive_int, messaging_file_name}

-- `s.split(maxsplit=1)`: the first word, and the text behind it without the space between.
unfoldable pub first_word : Text → Text
first_word [] = []
first_word (c ∷ s) = let rest = first_word s in if is_space c then [] else c ∷ rest

unfoldable pub after_word : Text → Text
after_word [] = []
after_word (c ∷ s) =
    let rest = after_word s in if is_space c then drop_while is_space (c ∷ s) else rest

abbrev pub one_of : List Text → Text → Bool
one_of names s = contains names s

-- Where the message came from.
pub record Origin : Type 0 where
  pub project : Text
  pub topic_path : Text
  pub channel : Text
  pub source_id : Text
  pub directives : List (Text × Text)

abbrev pub Built : Type 0
Built = Reply (Text × Fields)

unfoldable pub memory_write_payload : Origin → Text → Text → Fields
memory_write_payload from file content = field (codes "action") (str (codes "memory_write")) (
    field (codes "projectName") (str from.project) (
      field (codes "fileName") (str file) (
        field (codes "content") (str content)
          (field (codes "topic_path") (str from.topic_path) end))))

unfoldable pub memory_search_payload : Origin → ℕ → Text → Fields
memory_search_payload from limit query = field (codes "action") (str (codes "memory_search")) (
    field (codes "query") (str query) (
      field (codes "project") (str from.project) (
        field (codes "topic_path") (str from.topic_path) (
          field (codes "limit") (int (pos limit))
            (field (codes "include_preferences") (bool true) end)))))

unfoldable pub messaging_payload : Origin → Text → Fields
messaging_payload from text = field (codes "action") (str (codes "messaging_command")) (
    field (codes "text") (str text) (
      field (codes "channel") (str from.channel) (
        field (codes "source_id") (str from.source_id) (
          field (codes "project") (str from.project) (
            field (codes "topic_path") (str from.topic_path)
              (field (codes "require_prefix") (bool false) end))))))

unfoldable pub callback_payload : Origin → Text → Text → Fields
callback_payload from method url = field (codes "action") (str (codes "http_callback")) (
    field (codes "url") (str url) (
      field (codes "method") (str method) (
        field (codes "body")
          (obj (
            field (codes "source") (str (codes "messaging_task")) (
              field (codes "channel") (str from.channel)
                (field (codes "source_id") (str from.source_id) end))))
          end)))

-- `directives.get("model") or TASK_PROVIDER_CHAT_MODEL or None`
unfoldable pub chat_model : MessagingConfig → List (Text × Text) → Json
chat_model config directives =
    let configured =
      if is_empty config.provider_chat_model then null else str config.provider_chat_model in
    elim (lookup (codes "model") directives) [
      | none ↦ configured
      | some model ↦ if is_empty model then configured else str model
    ]

unfoldable pub provider_payload : Json → Text → Fields
provider_payload model prompt =
    field (codes "action") (str (codes "provider_chat"))
      (field (codes "prompt") (str prompt) (field (codes "model") model end))

abbrev pub remember_aliases : List Text
remember_aliases = codes "remember" ∷ codes "write" ∷ codes "save" ∷ []

abbrev pub recall_aliases : List Text
recall_aliases = codes "recall" ∷ codes "search" ∷ codes "find" ∷ []

abbrev pub messaging_aliases : List Text
messaging_aliases = codes "message" ∷ codes "command" ∷ codes "notify" ∷ []

abbrev pub callback_aliases : List Text
callback_aliases = codes "callback" ∷ codes "http" ∷ []

abbrev pub provider_aliases : List Text
provider_aliases = codes "provider" ∷ codes "chat" ∷ []

module _ (config : MessagingConfig) (unquote : Text → Text) (millis : ℕ) (from : Origin) where
  unfoldable pub build_remember : Text → Built
  build_remember remainder = do
    refuse_if (is_empty remainder) 400
    file ←
        messaging_file_name config unquote millis from.topic_path
          (lookup (codes "file") from.directives)
    reply (codes "Remember: " ++ take 72 remainder, memory_write_payload from file remainder)

  unfoldable pub build_recall : Text → Built
  build_recall remainder =
      let limit =
        messaging_directive_int from.directives (codes "limit") config.search_limit 1 50 in
      do
        refuse_if (is_empty remainder) 400
        reply (codes "Recall: " ++ take 72 remainder, memory_search_payload from limit remainder)

  unfoldable pub build_message : Text → Built
  build_message remainder = do
    refuse_if (is_empty remainder) 400
    reply (codes "Message: " ++ take 72 remainder, messaging_payload from remainder)

  abbrev callback_methods : List Text
  callback_methods = codes "GET" ∷ codes "POST" ∷ codes "PUT" ∷ codes "PATCH" ∷ codes "DELETE" ∷ []

  abbrev names_method : Text → Bool
  names_method remainder = contains callback_methods (upper (first_word remainder))

  unfoldable pub callback_method : Text → Text
  callback_method remainder =
      if names_method remainder then upper (first_word remainder) else codes "POST"

  unfoldable pub callback_url : Text → Text
  callback_url remainder =
      if names_method remainder then strip (after_word remainder) else remainder

  unfoldable pub build_callback : Text → Built
  unfolding callback_method callback_url
  build_callback remainder =
      let method = callback_method remainder in
      let url = callback_url remainder in
      do
        refuse_if (is_empty remainder) 400
        refuse_if (is_empty url) 400
        reply (
          codes "Callback: " ++ method ++ codes " " ++ take 60 url,
          callback_payload from method url,
        )

  unfoldable pub build_provider : Text → Built
  build_provider remainder = do
    refuse_if (is_empty remainder) 400
    reply (
      codes "Provider chat: " ++ take 60 remainder,
      provider_payload (chat_model config from.directives) remainder,
    )

  -- A text that is no JSON object.
  unfoldable pub build_from_words : Text → Built
  unfolding build_remember build_recall build_message build_callback build_provider
  build_from_words rendered =
      let sub_action = lower (strip (first_word rendered)) in
      let remainder = strip (after_word rendered) in
      if one_of remember_aliases sub_action
      then build_remember remainder
      else if one_of recall_aliases sub_action
      then build_recall remainder
      else if one_of messaging_aliases sub_action
      then build_message remainder
      else if one_of callback_aliases sub_action
      then build_callback remainder
      else if one_of provider_aliases sub_action
      then build_provider remainder
      else reply (codes "Task: " ++ take 72 rendered, messaging_payload from rendered)

  -- `str(payload.get("title") or payload.get("name") or "Queued task").strip() or "Queued task"`
  abbrev title_in : (Json → Text) → Fields → Text
  title_in repr payload =
      elim (or_value (get (codes "title") payload) (or_value (get (codes "name") payload) none)) [
        | none ↦ codes "Queued task"
        | some v ↦
            if is_empty (strip (str_of repr v)) then codes "Queued task" else strip (str_of repr v)
      ]

  -- `json.loads` gave this.
  unfoldable pub build_from_json : (Json → Text) → Option Json → Built
  build_from_json repr (some (obj payload)) = reply (title_in repr payload, payload)
  build_from_json repr _ = http_error 400

  unfoldable pub build_messaging_task_payload : (Json → Text) → (Text → Option Json) → Text → Built
  unfolding build_from_words build_from_json
  build_messaging_task_payload repr loads create_spec =
      let rendered = strip create_spec in
      if is_empty rendered
      then http_error 400
      else if starts_with rendered (codes "{")
      then build_from_json repr (loads rendered)
      else build_from_words rendered
