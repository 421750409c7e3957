-- ===== src/Tests/Messages.antt =====
-- The theorems on messages and on stored bundles at work.
use mathlib.Core.Path.{subst}
use context_lattice.Prelude.{
  Option, Text, [], codes, contains, drop_while, false, if◌then◌else◌, is_empty, is_space, none,
  refl, reply, select, some, starts_with, strip, strip_by, sym, text_eq, true, ◌==◌, ◌∙◌, ◌∷◌, ◌≡◌,
  ◌⊎◌,
}
use context_lattice.Json.{Json, arr, decimal, end, field, nil, obj}
use context_lattice.Tasks.Contract.{
  Contract, http_callback, memory_search, memory_write, messaging_command, provider_chat,
}
use context_lattice.Paths.{collapse, is_part, join, normalize_memory_path, path_parts, split}
use context_lattice.Caches.{lookup}
use context_lattice.Caches.Bundles.{
  BackendStats, Bundle, Codec, bundle_value, found, json_clone, objects,
  retrieval_pathway_cache_backend_get, retrieval_pathway_cache_backend_set,
  serialize_retrieval_pathway_bundle, texts,
}
use context_lattice.Caches.Bundles.Storing.{ReadsBack, backend_set-get}
use context_lattice.Messaging.{
  MessagingConfig, message_file, messaging_command_prefixes, messaging_file_name,
  strip_messaging_prefix,
}
use context_lattice.Messaging.Building.{Origin, build_messaging_task_payload}
use context_lattice.Messaging.Contracted.{IsSound, build_messaging_task_lem}
use context_lattice.Messaging.Prefixes.{IsLongest, NoneStarts, behind, strip_messaging_prefix_lem}

abbrev config : MessagingConfig
config = record {
  command_handle = codes "@ContextLattice";
  telegram_bot_username = codes "ContextLattice";
  search_limit = 4;
  provider_chat_model = [];
  topic_root = codes "root";
}

abbrev from : Origin
from = record {
  project = codes "p";
  topic_path = codes "channels/x";
  channel = codes "telegram";
  source_id = codes "7";
  directives = [];
}

abbrev contract : Contract
contract = record {
  allowed_actions =
      memory_write ∷ memory_search ∷ messaging_command ∷ http_callback ∷ provider_chat ∷ [];
  callback_hosts = [];
  high_risk_actions = [];
  approval_gate = false;
  repr = λ v. [];
  urlparse = λ u. some (record { scheme = codes "https"; hostname = some u });
}

abbrev unquote : Text → Text
unquote s = s

written :
    messaging_file_name config unquote 5 from.topic_path (lookup (codes "file") from.directives)
    ≡ reply (codes "channels/x/msg_5.md")
unfolding messaging_file_name message_file normalize_memory_path path_parts decimal lookup text_eq
    contains select is_part split collapse drop_while join
written = refl

same : (f : Text) → reply (codes "channels/x/msg_5.md") ≡ reply f → codes "channels/x/msg_5.md" ≡ f
same f e = cc

message_file_name :
    (f : Text)
    → messaging_file_name config unquote 5 from.topic_path (lookup (codes "file") from.directives)
      ≡ reply f
    → is_empty (strip f) ≡ false
unfolding strip strip_by drop_while is_space
message_file_name f h = subst (λ t. is_empty (strip t) ≡ false) (same f (sym written ∙ h)) refl

abbrev repr : Json → Text
repr v = []

abbrev loads : Text → Option Json
loads s = none

build_messaging_task_example :
    IsSound config unquote 5 from contract
      (build_messaging_task_payload config unquote 5 from repr loads (codes "remember x"))
unfolding strip strip_by drop_while is_space starts_with contains text_eq
build_messaging_task_example =
    build_messaging_task_lem config unquote 5 from contract
      (refl, (refl, (refl, (refl, (refl, tt))))) refl message_file_name repr loads
      (codes "remember x") refl

strip_messaging_prefix_example :
    let raw = strip (codes "/cl recall a") in
    let known = messaging_command_prefixes config in
    ((p : Text) × IsLongest raw known p
      × (strip_messaging_prefix config (codes "/cl recall a") true ≡ some (behind p raw)))
    ⊎ (NoneStarts raw known × (strip_messaging_prefix config (codes "/cl recall a") true ≡ none))
unfolding strip strip_by drop_while is_space
strip_messaging_prefix_example = strip_messaging_prefix_lem config (codes "/cl recall a") true refl

-- A bundle with nothing in it, and a codec for the values that are written for it.
abbrev bundle : Bundle
bundle = record { results = []; retrieval_debug = end; warnings = [] }

abbrev whole : Json
whole = obj (
    field (codes "results") (arr nil)
      (field (codes "retrieval_debug") (obj end) (field (codes "warnings") (arr nil) end)))

abbrev dumps : Json → Text
dumps (arr items) = 1 ∷ []
dumps (obj end) = 2 ∷ []
dumps _ = 3 ∷ []

abbrev read_back : Text → Option Json
read_back [] = none
read_back (c ∷ s) = if c == 1 then some (arr nil) else if c == 2 then some (obj end) else some whole

abbrev codec : Codec
codec = record {
  dumps = dumps;
  loads = read_back;
  compress = λ s. s;
  decompress = λ s. some s;
  repr = repr;
}

abbrev stats : BackendStats
stats = record { hits = 0; misses = 0; errors = 0; writes = 0; write_errors = 0 }

codec-ReadsBack : ReadsBack codec bundle
unfolding bundle_value json_clone objects texts
codec-ReadsBack = record {
  results = refl;
  debug = refl;
  warnings = refl;
  whole = refl;
  bytes = refl;
}

backend_set-get_example :
    let (stored, n) = retrieval_pathway_cache_backend_set codec true true true bundle stats in
    let bytes = serialize_retrieval_pathway_bundle codec true bundle in
    (stored ≡ some bytes)
    × (n ≡ record stats { writes = 1 })
    × (retrieval_pathway_cache_backend_get codec true (found bytes) stats
        ≡ (some bundle, record stats { hits = 1 }))
backend_set-get_example = backend_set-get codec bundle codec-ReadsBack true stats stats
