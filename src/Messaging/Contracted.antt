-- ===== src/Messaging/Contracted.antt =====
-- A task that is built from a message meets the contract of task payloads.
use context_lattice.Prelude.{
  All, Bool, Bool-cases, List, Option, Reply, Text, [], codes, contains, false, http_error,
  if◌then◌else◌, inl, inr, is_empty, lower, refl, refuse_if, reply, some, starts_with, strip, take,
  text_eq, true, upper, ℕ, ◌++◌, ◌>>=◌, ◌∙◌, ◌∷◌, ◌≡◌, ◌⊎◌,
}
use context_lattice.Json.{Fields, Json, get, obj, str}
use context_lattice.Tasks.Contract.{
  Contract, http_callback, memory_search, memory_write, messaging_command, provider_chat,
  validate_callback_url, validate_task_payload,
}
use context_lattice.Caches.{lookup}
use context_lattice.Messaging.{MessagingConfig, messaging_file_name}
use context_lattice.Messaging.Building.{
  Built, Origin, after_word, build_callback, build_from_words, build_message,
  build_messaging_task_payload, build_provider, build_recall, build_remember, callback_aliases,
  callback_method, callback_payload, callback_url, first_word, memory_write_payload,
  messaging_aliases, messaging_payload, one_of, provider_aliases, recall_aliases, remember_aliases,
}
use context_lattice.Messaging.Blank.{strip_twice-empty}
use context_lattice.Messaging.Accepted.{
  accept_callback, accept_message, accept_provider, accept_search, accept_write, is_accepted,
  methods_known,
}
use context_lattice.Messaging.Naming.{code_or_400, file_name_code}

-- The actions that messages ask for.
abbrev pub known_actions : List Text
known_actions =
    memory_write ∷ memory_search ∷ messaging_command ∷ http_callback ∷ provider_chat ∷ []

module _ (config : MessagingConfig) (unquote : Text → Text) (millis : ℕ) (from : Origin) where
  module _ (contract : Contract) where
    -- The payload is a callback to a URL that the contract refuses.
    abbrev pub CallsRefusedUrl : Fields → Type 0
    CallsRefusedUrl payload =
        (url : Text) × (get (codes "action") payload ≡ some (str http_callback))
        × (get (codes "url") payload ≡ some (str url))
        × (is_accepted (validate_callback_url contract (strip url)) ≡ false)

    -- What a built task may be.
    abbrev pub IsSound : Built → Type 0
    IsSound (http_error code) = code ≡ 400
    IsSound (reply (title, payload)) =
        (is_accepted (validate_task_payload contract (some (obj payload))) ≡ true)
        ⊎ CallsRefusedUrl payload

    -- As a record, so that the built task shows in the type.
    record Sound (b : Built) : Type 0 where
      holds : IsSound b

    Sound-if : (b : Bool) (x y : Built) → IsSound x → Sound y → Sound (if b then x else y)
    Sound-if true x y h k = record { holds = h }
    Sound-if false x y h k = k

    -- A remainder that is empty is refused; another one is not blank.
    unless_empty :
        (r s : Text) (f : Built)
        → r ≡ strip s
        → (is_empty (strip r) ≡ false → IsSound f)
        → IsSound (refuse_if (is_empty r) 400 >>= λ _. f)
    unless_empty r s f e k = elim (Bool-cases (is_empty r)) [
      | inl p ↦ rw p refl
      | inr p ↦ rw p (k (rw e (strip_twice-empty s ∙ (rw (← e) p))))
    ]

    module _ (allowed : All (λ a. contains contract.allowed_actions a ≡ true) known_actions)
        (project : is_empty (strip from.project) ≡ false)
        (files : (f : Text)
          → messaging_file_name config unquote millis from.topic_path
              (lookup (codes "file") from.directives)
            ≡ reply f
          → is_empty (strip f) ≡ false) where
      write-IsSound :
          (r : Text) (m : Reply Text)
          → is_empty (strip r) ≡ false
          → code_or_400 m ≡ 400
          → ((f : Text) → m ≡ reply f → is_empty (strip f) ≡ false)
          → IsSound (
              m >>= λ file.
              reply (codes "Remember: " ++ take 72 r, memory_write_payload from file r))
      write-IsSound r (http_error code) h e k = e
      write-IsSound r (reply f) h e k =
          inl (accept_write contract from f r allowed.0 project (k f refl) h)

      remember-IsSound :
          (r s : Text) → r ≡ strip s → IsSound (build_remember config unquote millis from r)
      unfolding build_remember
      remember-IsSound r s e =
          unless_empty r s _ e
            (λ h. write-IsSound r _ h (file_name_code config unquote millis _ _) files)

      recall-IsSound :
          (r s : Text) → r ≡ strip s → IsSound (build_recall config unquote millis from r)
      unfolding build_recall
      recall-IsSound r s e =
          unless_empty r s _ e (λ h. inl (accept_search contract from _ r allowed.1.0 h))

      message-IsSound :
          (r s : Text) → r ≡ strip s → IsSound (build_message config unquote millis from r)
      unfolding build_message
      message-IsSound r s e =
          unless_empty r s _ e (λ h. inl (accept_message contract from r allowed.1.1.0 h))

      provider-IsSound :
          (r s : Text) → r ≡ strip s → IsSound (build_provider config unquote millis from r)
      unfolding build_provider
      provider-IsSound r s e =
          unless_empty r s _ e (λ h. inl (accept_provider contract _ r allowed.1.1.1.1.0 h))

      callback_url-strip :
          (r s : Text)
          → r ≡ strip s
          → (x : Text) × (callback_url config unquote millis from r ≡ strip x)
      unfolding callback_url
      callback_url-strip r s e = elim (Bool-cases (contains methods_known (upper (first_word r)))) [
        | inl p ↦ (after_word r, rw p refl)
        | inr p ↦ (s, rw p e)
      ]

      callback_method-known :
          (r : Text) → contains methods_known (callback_method config unquote millis from r) ≡ true
      unfolding callback_method contains text_eq
      callback_method-known r = elim (Bool-cases (contains methods_known (upper (first_word r)))) [
        | inl p ↦ rw p p
        | inr p ↦ rw p refl
      ]

      callback_payload-IsSound :
          (method url title : Text)
          → contains methods_known method ≡ true
          → is_empty (strip url) ≡ false
          → IsSound (reply (title, callback_payload from method url))
      unfolding callback_payload get text_eq
      callback_payload-IsSound method url title m u =
          elim (Bool-cases (is_accepted (validate_callback_url contract (strip url)))) [
            | inl e ↦ inl (accept_callback contract from method url allowed.1.1.1.0 m u ∙ e)
            | inr e ↦ inr (url, refl, refl, e)
          ]

      abbrev callback_title : Text → Text
      callback_title r =
          codes "Callback: "
          ++ callback_method config unquote millis from r
          ++ codes " "
          ++ take 60 (callback_url config unquote millis from r)

      callback-IsSound :
          (r s : Text) → r ≡ strip s → IsSound (build_callback config unquote millis from r)
      unfolding build_callback
      callback-IsSound r s e =
          let u = callback_url-strip r s e in
          unless_empty r s _ e (λ _.
            unless_empty (callback_url config unquote millis from r) u.0 _ u.1 (λ h.
              callback_payload-IsSound (callback_method config unquote millis from r)
                (callback_url config unquote millis from r) (callback_title r)
                (callback_method-known r) h))

      words-Sound :
          (s : Text)
          → is_empty (strip s) ≡ false
          → Sound (build_from_words config unquote millis from (strip s))
      unfolding build_from_words
      words-Sound s h =
          let r = strip (after_word (strip s)) in
          let x = after_word (strip s) in
          let sub_action = lower (strip (first_word (strip s))) in
          let message : Sound
              (reply (codes "Task: " ++ take 72 (strip s), messaging_payload from (strip s))) =
            record {
              holds =
                  inl (
                    accept_message contract from (strip s) allowed.1.1.0 (strip_twice-empty s ∙ h));
            } in
          Sound-if (one_of remember_aliases sub_action) _ _ (remember-IsSound r x refl) (
            Sound-if (one_of recall_aliases sub_action) _ _ (recall-IsSound r x refl) (
              Sound-if (one_of messaging_aliases sub_action) _ _ (message-IsSound r x refl) (
                Sound-if (one_of callback_aliases sub_action) _ _ (callback-IsSound r x refl) (
                  Sound-if (one_of provider_aliases sub_action) _ _ (provider-IsSound r x refl)
                    message))))

      -- Whatever text stands behind "task create", if it is no JSON object: the task that is built is one
      -- whose payload the queue's contract accepts, or a callback to a URL that the contract does not accept, or
      -- the request is answered with 400. The contract has to allow the five actions, and the project and the
      -- file's name must not be blank.
      pub build_messaging_task_lem :
          (repr : Json → Text) (loads : Text → Option Json) (create_spec : Text)
          → starts_with (strip create_spec) (codes "{") ≡ false
          → IsSound (build_messaging_task_payload config unquote millis from repr loads create_spec)
      unfolding build_messaging_task_payload
      build_messaging_task_lem repr loads create_spec brace =
          elim (Bool-cases (is_empty (strip create_spec))) [
            | inl e ↦ rw e refl
            | inr e ↦ rw (e, brace) (words-Sound create_spec e).holds
          ]
