-- ===== src/Caches/Bundles.antt =====
-- The backend of the pathway cache, on Redis: `_serialize_retrieval_pathway_bundle`,
-- `_deserialize_retrieval_pathway_bundle`, `_retrieval_pathway_cache_backend_get` and
-- `_retrieval_pathway_cache_backend_set`. Bytes are lists of numbers.
pub mod Storing
use context_lattice.Prelude.{
  Bool, List, Option, Text, [], codes, drop, false, if◌then◌else◌, none, or_else, some, starts_with,
  true, ℕ, ◌+◌, ◌∷◌,
}
use context_lattice.Json.{Fields, Items, Json, arr, cons, end, field, get, nil, obj, str, str_of}
use context_lattice.Paths.Clean.{accepted}

-- The text of a value as `json` and `orjson` write and read it, and `zlib`. A read may fail.
pub record Codec : Type 0 where
  pub dumps : Json → Text
  pub loads : Text → Option Json
  pub compress : Text → Text
  pub decompress : Text → Option Text
  pub repr : Json → Text

-- Results, the debug object and warnings.
pub record Bundle : Type 0 where
  pub results : List Fields
  pub retrieval_debug : Fields
  pub warnings : List Text

unfoldable pub objects : List Fields → Items
objects [] = nil
objects (fs ∷ rest) = cons (obj fs) (objects rest)

unfoldable pub texts : List Text → Items
texts [] = nil
texts (s ∷ rest) = cons (str s) (texts rest)

-- `[dict(row) for row in rows if isinstance(row, dict)]`
unfoldable pub rows_of : Items → List Fields
rows_of nil = []
rows_of (cons (obj fs) rest) = fs ∷ rows_of rest
rows_of (cons _ rest) = rows_of rest

abbrev with_prefix : ℕ → Text → Text
with_prefix c s = c ∷ b':' ∷ s

-- What a call of the client ends with, for a read.
pub data Answer : Type 0 where
  raised absent : Answer
  found : (blob : Text) → Answer

pub record BackendStats : Type 0 where
  pub hits : ℕ
  pub misses : ℕ
  pub errors : ℕ
  pub writes : ℕ
  pub write_errors : ℕ

module _ (codec : Codec) where
  unfoldable pub json_clone : Json → Json
  json_clone v = or_else (codec.loads (codec.dumps v)) v

  unfoldable pub bundle_value : Bundle → Json
  unfolding json_clone
  bundle_value b = obj (
      field (codes "results") (json_clone (arr (objects b.results))) (
        field (codes "retrieval_debug") (json_clone (obj b.retrieval_debug))
          (field (codes "warnings") (json_clone (arr (texts b.warnings))) end)))

  unfoldable pub serialize_retrieval_pathway_bundle : Bool → Bundle → Text
  unfolding bundle_value
  serialize_retrieval_pathway_bundle compressing b =
      let raw = codec.dumps (bundle_value b) in
      if compressing then with_prefix b'z' (codec.compress raw) else with_prefix b'j' raw

  -- The text inside the bytes; bytes without a mark are decompressed if they can be.
  unfoldable pub payload_bytes : Text → Option Text
  payload_bytes raw =
      if starts_with raw (codes "z:")
      then codec.decompress (drop 2 raw)
      else if starts_with raw (codes "j:")
      then some (drop 2 raw)
      else some (or_else (codec.decompress raw) raw)

  -- `[str(item) for item in items]`
  unfoldable pub texts_of : Items → List Text
  texts_of nil = []
  texts_of (cons v rest) = str_of codec.repr v ∷ texts_of rest

  abbrev rows_in : Json → List Fields
  rows_in (arr items) = rows_of items
  rows_in _ = []

  abbrev texts_in : Json → List Text
  texts_in (arr items) = texts_of items
  texts_in _ = []

  abbrev fields_in : Json → Fields
  fields_in (obj fs) = fs
  fields_in _ = end

  unfoldable pub bundle_from : Option Json → Option Json → Option Json → Option Bundle
  unfolding json_clone rows_of texts_of
  bundle_from (some (arr results)) (some (obj debug)) (some (arr warnings)) = some (record {
    results = rows_in (json_clone (arr results));
    retrieval_debug = fields_in (json_clone (obj debug));
    warnings = texts_in (json_clone (arr warnings));
  })
  bundle_from _ _ _ = none

  unfoldable pub bundle_of : Option Json → Option Bundle
  unfolding bundle_from
  bundle_of (some (obj parsed)) =
      bundle_from (get (codes "results") parsed) (get (codes "retrieval_debug") parsed)
        (get (codes "warnings") parsed)
  bundle_of _ = none

  unfoldable pub deserialize_retrieval_pathway_bundle : Text → Option Bundle
  unfolding payload_bytes bundle_of
  deserialize_retrieval_pathway_bundle [] = none
  deserialize_retrieval_pathway_bundle (c ∷ raw) = elim (payload_bytes (c ∷ raw)) [
    | none ↦ none
    | some s ↦ bundle_of (codec.loads s)
  ]

  abbrev answered : Option Bundle → BackendStats → Option Bundle × BackendStats
  answered none n = (none, record n { errors = n.errors + 1 })
  answered (some b) n = (some b, record n { hits = n.hits + 1 })

  -- `available` says that the backend is enabled and that there is a client.
  unfoldable pub retrieval_pathway_cache_backend_get :
      Bool → Answer → BackendStats → Option Bundle × BackendStats
  unfolding deserialize_retrieval_pathway_bundle
  retrieval_pathway_cache_backend_get false answer n = (none, n)
  retrieval_pathway_cache_backend_get true raised n = (none, record n { errors = n.errors + 1 })
  retrieval_pathway_cache_backend_get true absent n = (none, record n { misses = n.misses + 1 })
  retrieval_pathway_cache_backend_get true (found blob) n =
      answered (deserialize_retrieval_pathway_bundle blob) n

  -- The bytes that were stored, and the counters. `accepted` says that the client did not raise.
  unfoldable pub retrieval_pathway_cache_backend_set :
      Bool → Bool → Bool → Bundle → BackendStats → Option Text × BackendStats
  unfolding serialize_retrieval_pathway_bundle
  retrieval_pathway_cache_backend_set false compressing accepted b n = (none, n)
  retrieval_pathway_cache_backend_set true compressing accepted b n =
      if accepted
      then (
        some (serialize_retrieval_pathway_bundle compressing b),
        record n { writes = n.writes + 1 },
      )
      else (none, record n { write_errors = n.write_errors + 1 })
