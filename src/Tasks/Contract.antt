-- ===== src/Tasks/Contract.antt =====
-- The contract of task payloads: `_normalize_task_action`, `_detect_action_type`,
-- `_detect_risk_level`, `_requires_approval`, `_task_validate_callback_url` and
-- `_validate_task_payload_contract`.
use mathlib.Core.Option
use context_lattice.Prelude.{
  Bool, List, Option, Reply, Text, [], codes, contains, false, http_error, if◌then◌else◌, is_empty,
  is_nil, lower, none, not, or_else, refuse_if, reply, some, strip, text_eq, true, upper, ◌&&◌,
  ◌>>=◌, ◌>>◌, ◌||◌, ◌∷◌,
}
use context_lattice.Json.{
  Fields, Json, arr, cons, get, null, obj, or_value, put, str, str_of, truthy,
}

-- What `urllib.parse.urlparse` reads off a URL: the scheme and, where there is one, the host.
pub record Url : Type 0 where
  pub scheme : Text
  pub hostname : Option Text

-- The environment's settings, and the standard library's parts that are not modelled: `repr` of a
-- list or an object, and `urlparse`, which raises ValueError on some texts (none).
pub record Contract : Type 0 where
  pub allowed_actions : List Text
  pub callback_hosts : List Text
  pub high_risk_actions : List Text
  pub approval_gate : Bool
  pub repr : Json → Text
  pub urlparse : Text → Option Url

abbrev pub memory_write : Text
memory_write = codes "memory_write"

abbrev pub memory_search : Text
memory_search = codes "memory_search"

abbrev pub messaging_command : Text
messaging_command = codes "messaging_command"

abbrev pub http_callback : Text
http_callback = codes "http_callback"

abbrev pub provider_chat : Text
provider_chat = codes "provider_chat"

-- The table `alias`.
abbrev aliases : List (Text × Text)
aliases =
    (codes "write", memory_write)
    ∷ (codes "remember", memory_write)
    ∷ (codes "search", memory_search)
    ∷ (codes "recall", memory_search)
    ∷ (codes "message", messaging_command)
    ∷ (codes "messaging", messaging_command)
    ∷ (codes "callback", http_callback)
    ∷ (codes "http", http_callback)
    ∷ (codes "provider", provider_chat)
    ∷ []

-- `alias.get(action, action)`
unfoldable pub alias_in : List (Text × Text) → Text → Text
alias_in [] action = action
alias_in ((short, long) ∷ rest) action =
    let r = alias_in rest action in if text_eq short action then long else r

unfoldable pub action_of : Text → Option Text
unfolding alias_in
action_of raw =
    let action = lower (strip raw) in
    if is_empty action then none else some (alias_in aliases action)

-- A text that is not blank, in lower case without white space around it.
unfoldable pub token_of : Text → Option Text
token_of s = if is_empty (strip s) then none else some (lower (strip s))

abbrev pub token_of_value : Option Json → Option Text
token_of_value (some (str s)) = token_of s
token_of_value _ = none

-- The first entry of `actions`, an object or a text.
unfoldable pub first_action : Option Json → Option Text
first_action (some (arr (cons (obj fs) rest))) = token_of_value (
    or_value (get (codes "type") fs)
      (or_value (get (codes "action") fs) (get (codes "category") fs)))
first_action (some (arr (cons (str s) rest))) = token_of s
first_action _ = none

abbrev pub or_option : Option Text → Option Text → Option Text
or_option none b = b
or_option (some a) b = some a

unfoldable pub detect_action_type : Fields → Option Text
unfolding first_action
detect_action_type fs =
    or_option
      (token_of_value (or_value (get (codes "action_type") fs) (get (codes "actionType") fs)))
      (first_action (get (codes "actions") fs))

module _ (contract : Contract) where
  unfoldable pub detect_risk_level : Option Fields → Text
  detect_risk_level none = codes "low"
  detect_risk_level (some fs) =
      elim (token_of_value (
        or_value (get (codes "risk_level") fs)
          (or_value (get (codes "riskLevel") fs) (get (codes "risk") fs)))) [
            | some level ↦ level
            | none ↦ elim (detect_action_type fs) [
              | none ↦ codes "low"
              | some action ↦
                  if contains contract.high_risk_actions action then codes "high" else codes "low"
            ]
          ]

  unfoldable pub requires_approval : Option Fields → Bool
  requires_approval payload =
      let level = detect_risk_level payload in
      contract.approval_gate && (text_eq level (codes "high") || text_eq level (codes "critical"))

  -- `str(v or "")`
  abbrev pub text_of : Option Json → Text
  text_of none = []
  text_of (some v) = if truthy v then str_of contract.repr v else []

  unfoldable pub normalize_task_action : Option Json → Option Text
  normalize_task_action none = none
  normalize_task_action (some null) = none
  normalize_task_action (some v) = action_of (str_of contract.repr v)

  -- A ValueError is not caught: the request ends as a server error.
  abbrev parsed_url : Option Url → Reply Url
  parsed_url none = http_error 500
  parsed_url (some parsed) = reply parsed

  abbrev check_url : Url → Reply (Unit {0})
  check_url parsed =
      let scheme = lower parsed.scheme in
      let host = lower (or_else parsed.hostname []) in
      do
        refuse_if (not (text_eq scheme (codes "http") || text_eq scheme (codes "https"))) 422
        refuse_if (is_empty host) 422
        refuse_if
            (not (is_nil contract.callback_hosts) && not (contains contract.callback_hosts host))
            422
        reply tt

  unfoldable pub validate_callback_url : Text → Reply (Unit {0})
  validate_callback_url url = parsed_url (contract.urlparse url) >>= check_url

  -- `str(a or b or "").strip()` of two keys, and of one.
  abbrev pub stripped : Fields → Text → Text
  stripped fs k = strip (text_of (get k fs))

  abbrev pub stripped_either : Fields → Text → Text → Text
  stripped_either fs k j = strip (text_of (or_value (get k fs) (get j fs)))

  unfoldable pub check_memory_write : Fields → Reply Fields
  check_memory_write fs =
      let project = stripped_either fs (codes "projectName") (codes "project") in
      let file = stripped_either fs (codes "fileName") (codes "file") in
      let content = stripped fs (codes "content") in
      do
        refuse_if (is_empty project || is_empty file || is_empty content) 422
        reply (
            put (codes "content") (str content)
              (put (codes "fileName") (str file) (put (codes "projectName") (str project) fs)))

  -- The branches that want one text: `memory_search` and `messaging_command`.
  unfoldable pub check_text : Text → Fields → Reply Fields
  check_text k fs = do
    refuse_if (is_empty (stripped fs k)) 422
    reply (put k (str (stripped fs k)) fs)

  abbrev methods : List Text
  methods = codes "GET" ∷ codes "POST" ∷ codes "PUT" ∷ codes "PATCH" ∷ codes "DELETE" ∷ []

  -- `str(normalized.get("method") or "POST").strip().upper()`
  abbrev method_of : Fields → Text
  method_of fs =
      upper (strip (text_of (or_value (get (codes "method") fs) (some (str (codes "POST"))))))

  unfoldable pub check_http_callback : Fields → Reply Fields
  unfolding validate_callback_url
  check_http_callback fs =
      let url = stripped fs (codes "url") in
      do
        refuse_if (is_empty url) 422
        validate_callback_url url
        refuse_if (not (contains methods (method_of fs))) 422
        reply (put (codes "method") (str (method_of fs)) (put (codes "url") (str url) fs))

  abbrev has_messages : Option Json → Bool
  has_messages (some (arr (cons v vs))) = true
  has_messages _ = false

  unfoldable pub check_provider_chat : Fields → Reply Fields
  check_provider_chat fs = do
    refuse_if
        (is_empty (stripped fs (codes "prompt")) && not (has_messages (get (codes "messages") fs)))
        422
    reply fs

  -- The `if`/`elif` chain on the action.
  unfoldable pub check_action : Text → Fields → Reply Fields
  unfolding check_memory_write check_text check_http_callback check_provider_chat
  check_action action fs =
      if text_eq action memory_write
      then check_memory_write fs
      else if text_eq action memory_search
      then check_text (codes "query") fs
      else if text_eq action messaging_command
      then check_text (codes "text") fs
      else if text_eq action http_callback
      then check_http_callback fs
      else if text_eq action provider_chat
      then check_provider_chat fs
      else reply fs

  -- The action that a payload names.
  unfoldable pub action_in : Fields → Option Text
  unfolding normalize_task_action
  action_in fs = normalize_task_action (
      or_value (get (codes "action") fs)
        (or_value (get (codes "action_type") fs) (Option.map str (detect_action_type fs))))

  unfoldable pub accept_action : Fields → Option Text → Reply Fields
  accept_action fs none = http_error 422
  accept_action fs (some action) = do
    refuse_if (not (contains contract.allowed_actions action)) 422
    check_action action
        (put (codes "action_type") (str action) (put (codes "action") (str action) fs))

  unfoldable pub validate_task_payload : Option Json → Reply (Option Fields)
  unfolding accept_action
  validate_task_payload none = reply none
  validate_task_payload (some (obj fs)) = do
    checked ← accept_action fs (action_in fs)
    reply (some checked)
  validate_task_payload (some v) = http_error 422
