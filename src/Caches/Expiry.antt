-- ===== src/Caches/Expiry.antt =====
-- When the entries of an expiring cache are served.
use context_lattice.Prelude.{
  Bool, Bool-cases, Distinct, Option, Text, arith, if◌then◌else◌, inl, inr, is_some, leb, none,
  refl, some, text_eq, true, ℕ, ◌+◌, ◌≡◌,
}
use context_lattice.Caches.{keys, lookup}
use context_lattice.Caches.Recency.{lookup-move_to_end, lookup-remove}
use context_lattice.Caches.Bounded.{
  IsBounded, evict-store-IsBounded, lookup-evict-store, move_to_end-IsBounded, remove-IsBounded,
}
use context_lattice.Caches.Timed.{
  Expiring, TimedCache, TimedConfig, expiring, hit, is_caching, letta_search_cache_get,
  letta_search_cache_set, pathway_backend, pathway_found, pop, retrieval_pathway_cache_get,
  timed_found,
}

-- What a cache with an entry or none and a backend should serve.
unfoldable pub serving : {V : Type 0} → ℕ → Option (Expiring V) → Option V → Option V
serving now none backend = backend
serving now (some entry) backend = if leb entry.expires_at now then backend else some entry.value

abbrev pub one_if : Bool → ℕ
one_if b = if b then 1 else 0

module _ {V : Type 0} (config : TimedConfig) where
  served :
      (now : ℕ) (key : Text) (entry : Expiring V) (c : TimedCache V)
      → Distinct text_eq (keys c.entries)
      → lookup key c.entries ≡ some entry
      → let r = timed_found now key (some entry) c in
        (r.0 ≡ (if leb entry.expires_at now then none else some entry.value))
        × (lookup key (r.1).entries ≡ (if leb entry.expires_at now then none else some entry))
  unfolding timed_found
  served now key entry c d e = elim (Bool-cases (leb entry.expires_at now)) [
    | inl x ↦ rw x (refl, lookup-remove key c.entries d)
    | inr x ↦ rw x (refl, lookup-move_to_end key entry c.entries d e)
  ]

  -- A value that was set is served until its time to live is over and not from then on; an expired entry
  -- is dropped.
  pub search_get-set :
      (at now : ℕ) (key : Text) (v : V) (c : TimedCache V)
      → is_caching config ≡ true
      → IsBounded config.max_keys c.entries
      → let r = letta_search_cache_get config now key (letta_search_cache_set config at key v c) in
        (r.0 ≡ (if leb (at + config.ttl) now then none else some v))
        × (lookup key (r.1).entries
            ≡ (if leb (at + config.ttl) now then none else some (expiring (at + config.ttl) v)))
  unfolding letta_search_cache_get letta_search_cache_set
  search_get-set at now key v c a b =
      let entry = expiring (at + config.ttl) v in
      let found = lookup-evict-store config.max_keys key entry c.entries (ground arith) b in
      let after = evict-store-IsBounded config.max_keys key entry c.entries b in
      rw (a, found) (served now key entry _ after.distinct found)

  -- The result, the counters and the bound after a call.
  pub record IsServed (c : TimedCache V) (expected : Option V) (r : Option V × TimedCache V)
      : Type 0 where
    pub result : r.0 ≡ expected
    pub hits : (r.1).hits ≡ c.hits + one_if (is_some expected)
    pub calls : (r.1).hits + (r.1).misses ≡ c.hits + c.misses + 1
    pub evictions : (r.1).evictions ≡ c.evictions
    pub bounded : IsBounded config.max_keys (r.1).entries

  backend-IsServed :
      (later : ℕ) (key : Text) (backend : Option V) (c dropped : TimedCache V)
      → IsBounded config.max_keys dropped.entries
      → dropped.hits ≡ c.hits
      → dropped.misses ≡ c.misses
      → dropped.evictions ≡ c.evictions
      → IsServed c backend (pathway_backend config later key backend dropped)
  unfolding pathway_backend
  backend-IsServed later key none c dropped b h m e = record {
    result = refl;
    hits = omega arith;
    calls = omega arith;
    evictions = e;
    bounded = b;
  }
  backend-IsServed later key (some v) c dropped b h m e = record {
    result = refl;
    hits = omega arith;
    calls = omega arith;
    evictions = e;
    bounded =
        evict-store-IsBounded config.max_keys key (expiring (later + config.ttl) v) dropped.entries
          b;
  }

  hit-IsServed :
      (key : Text) (v : V) (c : TimedCache V)
      → IsBounded config.max_keys c.entries
      → IsServed c (some v) (hit key v c)
  hit-IsServed key v c b = record {
    result = refl;
    hits = refl;
    calls = omega arith;
    evictions = refl;
    bounded = move_to_end-IsBounded config.max_keys key c.entries b;
  }

  found-IsServed :
      (now later : ℕ) (key : Text) (backend : Option V) (entry : Option (Expiring V))
      (c : TimedCache V)
      → IsBounded config.max_keys c.entries
      → IsServed c (serving now entry backend) (pathway_found config now later key backend entry c)
  unfolding pathway_found serving
  found-IsServed now later key backend none c b =
      backend-IsServed later key backend c c b refl refl refl
  found-IsServed now later key backend (some entry) c b =
      elim (Bool-cases (leb entry.expires_at now)) [
        | inl x ↦ rw x (
            backend-IsServed later key backend c (pop key c)
              (remove-IsBounded config.max_keys key c.entries b) refl refl refl)
        | inr x ↦ rw x (hit-IsServed key entry.value c b)
      ]

  -- An active pathway cache serves its own entry where it has one that has not expired, and otherwise
  -- what the backend answers. It counts a hit where it serves something and a miss otherwise, and stays
  -- within its bound.
  pathway_cache_get_lem :
      (now later : ℕ) (key : Text) (backend : Option V) (c : TimedCache V)
      → is_caching config ≡ true
      → IsBounded config.max_keys c.entries
      → IsServed c
          (serving now (lookup key c.entries) backend)
          (retrieval_pathway_cache_get config now later key backend c)
  unfolding retrieval_pathway_cache_get
  pathway_cache_get_lem now later key backend c a b =
      rw a (found-IsServed now later key backend (lookup key c.entries) c b)
