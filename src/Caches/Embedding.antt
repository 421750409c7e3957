-- ===== src/Caches/Embedding.antt =====
-- The embedding cache: `_embedding_cache_key`, `_embedding_cache_get` and `_embedding_cache_set`.
use context_lattice.Prelude.{
  Bool, List, Option, Text, [], ap, arith, if◌then◌else◌, length, ltb, none, refl, some, true, ℕ,
  ◌&&◌, ◌++◌, ◌+◌, ◌∙◌, ◌∷◌, ◌≡◌,
}
use context_lattice.Caches.{evict, lookup, move_to_end, store}
use context_lattice.Caches.Recency.{length-move_to_end}
use context_lattice.Caches.Bounded.{
  IsBounded, evict-store-IsBounded, lookup-evict-store, move_to_end-IsBounded,
}
use context_lattice.Caches.Refinement.{evicting_refines, newest, store_all, store_evicting}

pub record EmbeddingConfig : Type 0 where
  pub enabled : Bool
  pub max_keys : ℕ
  pub provider : Text
  pub model : Text

-- `V` stands for `list[float]`.
pub record EmbeddingCache (V : Type 0) : Type 0 where
  pub entries : List (Text × V)
  pub hits : ℕ
  pub misses : ℕ
  pub evictions : ℕ

abbrev pub empty_cache : {V : Type 0} → EmbeddingCache V
empty_cache = record { entries = []; hits = 0; misses = 0; evictions = 0 }

abbrev pub is_active : EmbeddingConfig → Bool
is_active config = config.enabled && ltb 0 config.max_keys

-- `sha1` gives the hexadecimal digest of a text.
unfoldable pub embedding_cache_key : (Text → Text) → EmbeddingConfig → Text → Text
embedding_cache_key sha1 config text =
    sha1 (config.provider ++ (b'|' ∷ config.model ++ (b'|' ∷ text)))

module _ {V : Type 0} (config : EmbeddingConfig) where
  unfoldable pub embedding_found : Text → Option V → EmbeddingCache V → Option V × EmbeddingCache V
  embedding_found key none c = (none, record c { misses = c.misses + 1 })
  embedding_found key (some vector) c =
      (some vector, record c { entries = move_to_end key c.entries; hits = c.hits + 1 })

  unfoldable pub embedding_cache_get : Text → EmbeddingCache V → Option V × EmbeddingCache V
  unfolding embedding_found
  embedding_cache_get key c =
      if is_active config then embedding_found key (lookup key c.entries) c else (none, c)

  unfoldable pub embedding_cache_set : Text → V → EmbeddingCache V → EmbeddingCache V
  embedding_cache_set key vector c =
      let (kept, evicted) = evict config.max_keys (store key vector c.entries) in
      if is_active config then record c { entries = kept; evictions = c.evictions + evicted } else c

  -- Sets, one after the other.
  unfoldable pub embedding_cache_sets : List (Text × V) → EmbeddingCache V → EmbeddingCache V
  unfolding embedding_cache_set
  embedding_cache_sets [] c = c
  embedding_cache_sets (e ∷ es) c = embedding_cache_sets es (embedding_cache_set (e.0) (e.1) c)

  sets-entries :
      (es : List (Text × V)) (c : EmbeddingCache V)
      → is_active config ≡ true
      → (embedding_cache_sets es c).entries ≡ store_evicting config.max_keys es c.entries
  unfolding embedding_cache_sets embedding_cache_set store_evicting
  sets-entries [] c a = refl
  sets-entries (e ∷ es) c a =
      sets-entries es (embedding_cache_set (e.0) (e.1) c) a
      ∙ ap (store_evicting config.max_keys es) (rw a refl)

  -- After any sequence of sets an active cache holds the newest `max_keys` entries of the dictionary
  -- that evicts nothing.
  pub embedding_cache_sets_lem :
      (es : List (Text × V))
      → is_active config ≡ true
      → (embedding_cache_sets es empty_cache).entries ≡ newest config.max_keys (store_all es [])
  embedding_cache_sets_lem es a =
      sets-entries es empty_cache a ∙ evicting_refines config.max_keys es

  -- A vector that was set is found at once, as a hit, whatever a cache within its bound held before; the
  -- cache is within its bound again after both calls, and the get changes neither its length nor its
  -- evictions.
  pub embedding_cache_get-set :
      (key : Text) (vector : V) (c : EmbeddingCache V)
      → is_active config ≡ true
      → IsBounded config.max_keys c.entries
      → let after = embedding_cache_set key vector c in
        let r = embedding_cache_get key after in
        (r.0 ≡ some vector)
        × ((r.1).hits ≡ c.hits + 1)
        × ((r.1).misses ≡ c.misses)
        × ((r.1).evictions ≡ after.evictions)
        × (length (r.1).entries ≡ length after.entries)
        × IsBounded config.max_keys (r.1).entries
  unfolding embedding_cache_get embedding_cache_set
  embedding_cache_get-set key vector c a b =
      let found = lookup-evict-store config.max_keys key vector c.entries (ground arith) b in
      let after = evict-store-IsBounded config.max_keys key vector c.entries b in
      rw (a, found)
        (
          refl,
          refl,
          refl,
          refl,
          length-move_to_end key _,
          move_to_end-IsBounded config.max_keys key _ after,
        )
