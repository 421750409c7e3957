-- ===== src/Caches/Bundles/Storing.antt =====
-- A bundle that was stored is read back as it was.
use context_lattice.Prelude.{
  Bool, List, Text, [], ap, false, refl, some, starts_with, text_eq, true, ◌+◌, ◌∷◌, ◌≡◌,
}
use context_lattice.Json.{Fields, Json, arr, get, obj, str_of}
use context_lattice.Caches.Bundles.{
  BackendStats, Bundle, Codec, bundle_from, bundle_of, bundle_value,
  deserialize_retrieval_pathway_bundle, found, json_clone, objects,
  retrieval_pathway_cache_backend_get, retrieval_pathway_cache_backend_set, rows_of,
  serialize_retrieval_pathway_bundle, texts, texts_of,
}

-- What the code relies on, for the values that it writes: a value that was written is read, and bytes
-- that were compressed come back.
pub record ReadsBack (codec : Codec) (b : Bundle) : Type 0 where
  pub results : codec.loads (codec.dumps (arr (objects b.results))) ≡ some (arr (objects b.results))
  pub debug : codec.loads (codec.dumps (obj b.retrieval_debug)) ≡ some (obj b.retrieval_debug)
  pub warnings : codec.loads (codec.dumps (arr (texts b.warnings))) ≡ some (arr (texts b.warnings))
  pub whole : codec.loads (codec.dumps (bundle_value codec b)) ≡ some (bundle_value codec b)
  pub bytes :
      codec.decompress (codec.compress (codec.dumps (bundle_value codec b)))
      ≡ some (codec.dumps (bundle_value codec b))

rows_of-objects : (l : List Fields) → rows_of (objects l) ≡ l
unfolding rows_of objects
rows_of-objects [] = refl
rows_of-objects (fs ∷ l) = ap (λ r. fs ∷ r) (rows_of-objects l)

module _ (codec : Codec) (b : Bundle) (reads : ReadsBack codec b) where
  texts_of-texts : (l : List Text) → texts_of codec (texts l) ≡ l
  unfolding texts_of texts str_of
  texts_of-texts [] = refl
  texts_of-texts (s ∷ l) = ap (λ r. s ∷ r) (texts_of-texts l)

  read_clone : (v : Json) → codec.loads (codec.dumps v) ≡ some v → json_clone codec v ≡ v
  unfolding json_clone
  read_clone v e = rw e refl

  bundle_from-parts :
      bundle_from codec
        (some (arr (objects b.results)))
        (some (obj b.retrieval_debug))
        (some (arr (texts b.warnings)))
      ≡ some b
  unfolding bundle_from
  bundle_from-parts =
      rw
        (
          read_clone (arr (objects b.results)) reads.results,
          read_clone (obj b.retrieval_debug) reads.debug,
          read_clone (arr (texts b.warnings)) reads.warnings,
          rows_of-objects b.results,
          texts_of-texts b.warnings,
        )
        refl

  bundle_of-bundle_value : bundle_of codec (some (bundle_value codec b)) ≡ some b
  unfolding bundle_of bundle_value get text_eq
  bundle_of-bundle_value =
      rw
        (
          read_clone (arr (objects b.results)) reads.results,
          read_clone (obj b.retrieval_debug) reads.debug,
          read_clone (arr (texts b.warnings)) reads.warnings,
        )
        bundle_from-parts

  -- Serialising and reading back, compressed or not.
  pub deserialize-serialize :
      (compressing : Bool)
      → deserialize_retrieval_pathway_bundle codec
          (serialize_retrieval_pathway_bundle codec compressing b)
        ≡ some b
  unfolding deserialize_retrieval_pathway_bundle serialize_retrieval_pathway_bundle starts_with
  deserialize-serialize true = rw (reads.bytes, reads.whole) bundle_of-bundle_value
  deserialize-serialize false = rw (reads.whole) bundle_of-bundle_value

  -- Where the values and the bytes that are written can be read back, and there is a client that accepts the
  -- write: what a set stores, compressed or not, is exactly what a later get that finds it returns, with
  -- one write and one hit counted and no other counter changed.
  pub backend_set-get :
      (compressing : Bool) (n m : BackendStats)
      → let (stored, n') = retrieval_pathway_cache_backend_set codec true compressing true b n in
        let bytes = serialize_retrieval_pathway_bundle codec compressing b in
        (stored ≡ some bytes)
        × (n' ≡ record n { writes = n.writes + 1 })
        × (retrieval_pathway_cache_backend_get codec true (found bytes) m
            ≡ (some b, record m { hits = m.hits + 1 }))
  unfolding retrieval_pathway_cache_backend_set retrieval_pathway_cache_backend_get
  backend_set-get compressing n m = (refl, refl, rw (deserialize-serialize compressing) refl)
