-- ===== src/Messaging/Accepted.antt =====
-- The task queue accepts the payloads that are built from messages.
use mathlib.Core.Path.{subst}
use context_lattice.Prelude.{
  All, Bool, Bool-cases, List, Reply, Text, [], arith, codes, contains, drop_while, false,
  http_error, inl, inr, is_empty, is_space, lower, none, refl, reply, some, strip, strip_by,
  text_eq, text_eq_sound, true, upper, ℕ, ◌>>=◌, ◌∷◌, ◌≡◌,
}
use context_lattice.Json.{Fields, Json, get, obj, or_value, put, str, str_of, truthy}
use context_lattice.Tasks.Contract.{
  Contract, accept_action, action_in, action_of, alias_in, check_action, check_http_callback,
  check_memory_write, check_provider_chat, check_text, http_callback, memory_search, memory_write,
  messaging_command, normalize_task_action, provider_chat, text_of, validate_callback_url,
  validate_task_payload,
}
use context_lattice.Messaging.Building.{
  Origin, callback_payload, memory_search_payload, memory_write_payload, messaging_payload,
  provider_payload,
}

abbrev pub is_accepted {ℓ} : {A : Type ℓ} → Reply A → Bool
is_accepted (reply a) = true
is_accepted (http_error c) = false

-- The actions' names are read as they are.
search_named : action_of memory_search ≡ some memory_search
unfolding action_of alias_in strip strip_by drop_while is_space lower text_eq
search_named = refl

write_named : action_of memory_write ≡ some memory_write
unfolding action_of alias_in strip strip_by drop_while is_space lower text_eq
write_named = refl

message_named : action_of messaging_command ≡ some messaging_command
unfolding action_of alias_in strip strip_by drop_while is_space lower text_eq
message_named = refl

callback_named : action_of http_callback ≡ some http_callback
unfolding action_of alias_in strip strip_by drop_while is_space lower text_eq
callback_named = refl

chat_named : action_of provider_chat ≡ some provider_chat
unfolding action_of alias_in strip strip_by drop_while is_space lower text_eq
chat_named = refl

abbrev pub methods_known : List Text
methods_known = codes "GET" ∷ codes "POST" ∷ codes "PUT" ∷ codes "PATCH" ∷ codes "DELETE" ∷ []

pub contains_each :
    (P : Text → Type 0) (names : List Text)
    → All P names
    → (m : Text) → contains names m ≡ true
    → P m
unfolding contains
contains_each P [] a m h = cc
contains_each P (n ∷ names) a m h = elim (Bool-cases (text_eq n m)) [
  | inl e ↦ subst P (text_eq_sound n m e) a.0
  | inr e ↦ contains_each P names a.1 m (ground arith)
]

bind_accepted :
    (v : Reply (Unit {0})) (x : Fields)
    → is_accepted ((v >>= λ _. reply x) >>= λ c. reply (some c)) ≡ is_accepted v
bind_accepted (reply _) x = refl
bind_accepted (http_error code) x = refl

module _ (contract : Contract) where
  -- What the contract reads in a text field.
  field-strip : (s : Text) → strip (text_of contract (some (str s))) ≡ strip s
  unfolding truthy str_of
  field-strip [] = refl
  field-strip (c ∷ s) = refl

  either-strip : (s : Text) → strip (text_of contract (or_value (some (str s)) none)) ≡ strip s
  unfolding truthy str_of or_value
  either-strip [] = refl
  either-strip (c ∷ s) = refl

  pub accept_search :
      (from : Origin) (limit : ℕ) (query : Text)
      → contains contract.allowed_actions memory_search ≡ true
      → is_empty (strip query) ≡ false
      → is_accepted
          (validate_task_payload contract (some (obj (memory_search_payload from limit query))))
        ≡ true
  unfolding validate_task_payload accept_action action_in normalize_task_action check_action get put
      text_eq truthy or_value str_of check_text memory_search_payload
  accept_search from limit query a q = rw (search_named, a) (rw (field-strip query, q) refl)

  pub accept_message :
      (from : Origin) (text : Text)
      → contains contract.allowed_actions messaging_command ≡ true
      → is_empty (strip text) ≡ false
      → is_accepted (validate_task_payload contract (some (obj (messaging_payload from text))))
        ≡ true
  unfolding validate_task_payload accept_action action_in normalize_task_action check_action get put
      text_eq truthy or_value str_of check_text messaging_payload
  accept_message from text a q = rw (message_named, a) (rw (field-strip text, q) refl)

  pub accept_provider :
      (model : Json) (prompt : Text)
      → contains contract.allowed_actions provider_chat ≡ true
      → is_empty (strip prompt) ≡ false
      → is_accepted (validate_task_payload contract (some (obj (provider_payload model prompt))))
        ≡ true
  unfolding validate_task_payload accept_action action_in normalize_task_action check_action get put
      text_eq truthy or_value str_of check_provider_chat provider_payload
  accept_provider model prompt a q = rw (chat_named, a) (rw (field-strip prompt, q) refl)

  pub accept_write :
      (from : Origin) (file content : Text)
      → contains contract.allowed_actions memory_write ≡ true
      → is_empty (strip from.project) ≡ false
      → is_empty (strip file) ≡ false
      → is_empty (strip content) ≡ false
      → is_accepted
          (validate_task_payload contract (some (obj (memory_write_payload from file content))))
        ≡ true
  unfolding validate_task_payload accept_action action_in normalize_task_action check_action get put
      text_eq truthy or_value str_of check_memory_write memory_write_payload
  accept_write from file content a p f c =
      rw (write_named, a)
        (rw (either-strip from.project, either-strip file, field-strip content, p, f, c) refl)

  method_named :
      (m : Text)
      → contains methods_known m ≡ true
      → contains methods_known
          (upper (strip (text_of contract (or_value (some (str m)) (some (str (codes "POST")))))))
        ≡ true
  unfolding contains text_eq upper strip strip_by drop_while is_space truthy or_value str_of
  method_named m h =
      contains_each
        (λ t.
          contains methods_known
            (upper (strip (text_of contract (or_value (some (str t)) (some (str (codes "POST")))))))
          ≡ true)
        methods_known (refl, (refl, (refl, (refl, (refl, tt))))) m h

  pub accept_callback :
      (from : Origin) (method url : Text)
      → contains contract.allowed_actions http_callback ≡ true
      → contains methods_known method ≡ true
      → is_empty (strip url) ≡ false
      → is_accepted (validate_task_payload contract (some (obj (callback_payload from method url))))
        ≡ is_accepted (validate_callback_url contract (strip url))
  unfolding validate_task_payload accept_action action_in normalize_task_action check_action get put
      text_eq truthy or_value str_of check_http_callback callback_payload
  accept_callback from method url a m u =
      rw (callback_named, a)
        (rw (field-strip url, u)
          (rw (method_named method m)
            (bind_accepted (validate_callback_url contract (strip url)) _)))
