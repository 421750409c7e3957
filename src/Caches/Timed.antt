-- ===== src/Caches/Timed.antt =====
-- The caches whose entries expire: `_letta_search_cache_get` and `_letta_search_cache_set`,
-- `_retrieval_template_cache_get` and `_retrieval_template_cache_set`, which are alike, and
-- `_retrieval_pathway_cache_get` and `_retrieval_pathway_cache_set`, which ask a backend as well.
use context_lattice.Prelude.{
  Bool, List, Option, Text, [], if◌then◌else◌, leb, ltb, none, some, ℕ, ◌&&◌, ◌+◌,
}
use context_lattice.Caches.{evict, lookup, move_to_end, remove, store}

pub record TimedConfig : Type 0 where
  pub enabled : Bool
  pub ttl : ℕ
  pub max_keys : ℕ

-- The payload of an entry.
pub record Expiring (V : Type 0) : Type 0 where
  pub expires_at : ℕ
  pub value : V

pub record TimedCache (V : Type 0) : Type 0 where
  pub entries : List (Text × Expiring V)
  pub hits : ℕ
  pub misses : ℕ
  pub evictions : ℕ

abbrev pub empty_timed : {V : Type 0} → TimedCache V
empty_timed = record { entries = []; hits = 0; misses = 0; evictions = 0 }

abbrev pub is_caching : TimedConfig → Bool
is_caching config = config.enabled && ltb 0 config.ttl && ltb 0 config.max_keys

module _ {V : Type 0} where
  abbrev pub expiring : ℕ → V → Expiring V
  expiring at v = record { expires_at = at; value = v }

  abbrev pub hit : Text → V → TimedCache V → Option V × TimedCache V
  hit key v c = (some v, record c { entries = move_to_end key c.entries; hits = c.hits + 1 })

  abbrev pub miss : TimedCache V → Option V × TimedCache V
  miss c = (none, record c { misses = c.misses + 1 })

  abbrev pub pop : Text → TimedCache V → TimedCache V
  pop key c = record c { entries = remove key c.entries }

  unfoldable pub timed_found :
      ℕ → Text → Option (Expiring V) → TimedCache V → Option V × TimedCache V
  timed_found now key none c = miss c
  timed_found now key (some entry) c =
      if leb entry.expires_at now then miss (pop key c) else hit key entry.value c

  unfoldable pub letta_search_cache_get :
      TimedConfig → ℕ → Text → TimedCache V → Option V × TimedCache V
  unfolding timed_found
  letta_search_cache_get config now key c =
      if is_caching config then timed_found now key (lookup key c.entries) c else (none, c)

  unfoldable pub letta_search_cache_set : TimedConfig → ℕ → Text → V → TimedCache V → TimedCache V
  letta_search_cache_set config now key v c =
      let (kept, evicted) =
        evict config.max_keys (store key (expiring (now + config.ttl) v) c.entries) in
      if is_caching config
      then record c { entries = kept; evictions = c.evictions + evicted }
      else c

  unfoldable pub retrieval_template_cache_get :
      TimedConfig → ℕ → Text → TimedCache V → Option V × TimedCache V
  unfolding letta_search_cache_get
  retrieval_template_cache_get config now key c = letta_search_cache_get config now key c

  unfoldable pub retrieval_template_cache_set :
      TimedConfig → ℕ → Text → V → TimedCache V → TimedCache V
  unfolding letta_search_cache_set
  retrieval_template_cache_set config now key v c = letta_search_cache_set config now key v c

  -- What the backend answers is kept with a new expiry; these evictions are not counted.
  unfoldable pub pathway_backend :
      TimedConfig → ℕ → Text → Option V → TimedCache V → Option V × TimedCache V
  pathway_backend config later key none c = miss c
  pathway_backend config later key (some v) c = (
    some v,
    record c {
      entries = (evict config.max_keys (store key (expiring (later + config.ttl) v) c.entries)).0;
      hits = c.hits + 1;
    },
  )

  unfoldable pub pathway_found :
      TimedConfig
      → ℕ
      → ℕ
      → Text
      → Option V
      → Option (Expiring V)
      → TimedCache V
      → Option V × TimedCache V
  unfolding pathway_backend
  pathway_found config now later key backend none c = pathway_backend config later key backend c
  pathway_found config now later key backend (some entry) c =
      if leb entry.expires_at now
      then pathway_backend config later key backend (pop key c)
      else hit key entry.value c

  -- `backend` is the backend's answer, where it is asked; `later` is the moment after that.
  unfoldable pub retrieval_pathway_cache_get :
      TimedConfig → ℕ → ℕ → Text → Option V → TimedCache V → Option V × TimedCache V
  unfolding pathway_found
  retrieval_pathway_cache_get config now later key backend c =
      if is_caching config
      then pathway_found config now later key backend (lookup key c.entries) c
      else (none, c)

  -- The memory's part of the set.
  unfoldable pub retrieval_pathway_cache_set :
      TimedConfig → ℕ → Text → V → TimedCache V → TimedCache V
  unfolding letta_search_cache_set
  retrieval_pathway_cache_set config now key v c = letta_search_cache_set config now key v c
