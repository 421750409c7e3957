-- ===== src/Caches/MemoryRead.antt =====
-- The cache of memory files: `_memory_read_cache_key`, `_memory_read_cache_get` and
-- `_memory_read_cache_set`. An entry is fresh, or stale but acceptable where the caller allows it.
use context_lattice.Prelude.{
  Bool, Bool-cases, List, Option, Reply, Text, ap, arith, codes, false, if◌then◌else◌, inl, inr,
  is_empty, leb, lower, ltb, none, not, refl, reply, some, strip, true, ℕ, ◌&&◌, ◌++◌, ◌+◌, ◌-◌,
  ◌==◌, ◌>>=◌, ◌||◌, ◌≡◌, ◌≤◌,
}
use context_lattice.Paths.{normalize_memory_path}
use context_lattice.Caches.{evict, lookup, move_to_end, remove, store}
use context_lattice.Caches.Bounded.{
  IsBounded, evict-store-IsBounded, lookup-evict-store, move_to_end-IsBounded, remove-IsBounded,
}

-- The limits are in the units of the monotonic clock.
pub record ReadConfig : Type 0 where
  pub max_keys : ℕ
  pub fresh_ttl : ℕ
  pub stale_max : ℕ

pub record ReadEntry : Type 0 where
  pub content : Text
  pub fetched_at : ℕ
  pub fetched_monotonic : ℕ

pub record ReadCache : Type 0 where
  pub entries : List (Text × ReadEntry)
  pub hits : ℕ
  pub misses : ℕ
  pub writes : ℕ
  pub evictions : ℕ

-- `f"{project_token}::{file_token}"`; a path that is refused raises.
unfoldable pub memory_read_cache_key : (Text → Text) → Text → Text → Reply Text
memory_read_cache_key unquote project file_name =
    normalize_memory_path unquote file_name >>= λ path.
    reply (lower (strip project) ++ codes "::" ++ lower (strip path))

abbrev pub read_entry : ℕ → ℕ → Text → ReadEntry
read_entry at monotonic body = record {
  content = body;
  fetched_at = at;
  fetched_monotonic = monotonic;
}

leb-sub : (a b c : ℕ) → leb (a - b) c ≡ leb a (b + c)
leb-sub a b c = ground arith

module _ (config : ReadConfig) where
  unfoldable pub is_fresh : ℕ → ReadEntry → Bool
  is_fresh now entry = leb (now - entry.fetched_monotonic) config.fresh_ttl

  unfoldable pub is_acceptable : Bool → ℕ → ReadEntry → Bool
  is_acceptable allow_stale now entry =
      ltb 0 entry.fetched_monotonic
      && (is_fresh now entry || allow_stale && leb (now - entry.fetched_monotonic) config.stale_max)

  -- An entry that does not serve is dropped. The flag of a result tells that it is stale.
  unfoldable pub read_found :
      Bool → ℕ → Text → Option ReadEntry → ReadCache → Option (Text × Bool) × ReadCache
  read_found allow_stale now key none c = (none, record c { misses = c.misses + 1 })
  read_found allow_stale now key (some entry) c =
      if is_acceptable allow_stale now entry
      then (
        some (entry.content, not (is_fresh now entry)),
        record c { entries = move_to_end key c.entries; hits = c.hits + 1 },
      )
      else (none, record c { entries = remove key c.entries; misses = c.misses + 1 })

  -- The body of the get, for a key.
  unfoldable pub read_key : Bool → ℕ → Text → ReadCache → Option (Text × Bool) × ReadCache
  read_key allow_stale now key c = read_found allow_stale now key (lookup key c.entries) c

  unfoldable pub memory_read_cache_get :
      (Text → Text) → Bool → ℕ → Text → Text → ReadCache → Reply (Option (Text × Bool) × ReadCache)
  memory_read_cache_get unquote allow_stale now project file_name c =
      if config.max_keys == 0
      then reply (none, c)
      else memory_read_cache_key unquote project file_name >>= λ key.
          reply (read_key allow_stale now key c)

  unfoldable pub write_key : ℕ → ℕ → Text → Text → ReadCache → ReadCache
  write_key at monotonic key body c =
      let (kept, evicted) =
        evict config.max_keys (store key (read_entry at monotonic body) c.entries) in
      record c { entries = kept; writes = c.writes + 1; evictions = c.evictions + evicted }

  unfoldable pub memory_read_cache_set :
      (Text → Text) → ℕ → ℕ → Text → Text → Text → ReadCache → Reply ReadCache
  memory_read_cache_set unquote at monotonic project file_name content c =
      if config.max_keys == 0 || is_empty content
      then reply c
      else memory_read_cache_key unquote project file_name >>= λ key.
          reply (write_key at monotonic key content c)

  -- What a reader may be served after a write at `monotonic`.
  unfoldable pub expected_read : Bool → ℕ → ℕ → Text → Option (Text × Bool)
  expected_read allow_stale monotonic now content =
      if leb now (monotonic + config.fresh_ttl)
      then some (content, false)
      else if allow_stale && leb now (monotonic + config.stale_max)
      then some (content, true)
      else none

  read_key_lem :
      (allow_stale : Bool) (at monotonic now : ℕ) (key content : Text) (c : ReadCache)
      → 1 ≤ monotonic
      → IsBounded config.max_keys c.entries
      → lookup key c.entries ≡ some (read_entry at monotonic content)
      → let r = read_key allow_stale now key c in
        (r.0 ≡ expected_read allow_stale monotonic now content)
        × ((r.1).hits + (r.1).misses ≡ c.hits + c.misses + 1)
        × IsBounded config.max_keys (r.1).entries
  unfolding read_key read_found is_acceptable is_fresh expected_read
  read_key_lem allow_stale at monotonic now key content c p b e =
      let positive : ltb 0 monotonic ≡ true = ground arith in
      let dropped = remove-IsBounded config.max_keys key c.entries b in
      let moved = move_to_end-IsBounded config.max_keys key c.entries b in
      rw
        (
          e,
          positive,
          leb-sub now monotonic config.fresh_ttl,
          leb-sub now monotonic config.stale_max,
        )
        (elim (Bool-cases (leb now (monotonic + config.fresh_ttl))) [
          | inl f ↦ rw f (refl, omega arith, moved)
          | inr f ↦
              rw f (elim (Bool-cases (allow_stale && leb now (monotonic + config.stale_max))) [
                | inl g ↦ rw g (refl, omega arith, moved)
                | inr g ↦ rw g (refl, omega arith, dropped)
              ])
        ])

  -- A file that was written to the cache is read back as fresh for the fresh time to live, then as stale
  -- for the stale maximum where the reader allows it, and not at all afterwards; each read counts as a
  -- hit or as a miss.
  pub read_after_write :
      (unquote : Text → Text) (allow_stale : Bool) (at monotonic now : ℕ)
      (project file_name content key : Text) (c : ReadCache)
      → 1 ≤ config.max_keys
      → 1 ≤ monotonic
      → is_empty content ≡ false
      → memory_read_cache_key unquote project file_name ≡ reply key
      → IsBounded config.max_keys c.entries
      → (after : ReadCache) × (memory_read_cache_set unquote at monotonic project file_name content
            c
          ≡ reply after)
        × IsBounded config.max_keys after.entries
        × (last : ReadCache) × (memory_read_cache_get unquote allow_stale now project file_name
              after
            ≡ reply (expected_read allow_stale monotonic now content, last))
        × (last.hits + last.misses ≡ c.hits + c.misses + 1)
        × IsBounded config.max_keys last.entries
  unfolding memory_read_cache_set memory_read_cache_get write_key
  read_after_write unquote allow_stale at monotonic now project file_name content key c m p n k b =
      let has_keys : (config.max_keys == 0) ≡ false = ground arith in
      let after = write_key at monotonic key content c in
      let entry = read_entry at monotonic content in
      let bounded : IsBounded config.max_keys after.entries =
        evict-store-IsBounded config.max_keys key entry c.entries b in
      let found : lookup key after.entries ≡ some entry =
        lookup-evict-store config.max_keys key entry c.entries m b in
      let r = read_key_lem allow_stale at monotonic now key content after p bounded found in
      rw (has_keys, n, k)
        (
          after,
          refl,
          bounded,
          (read_key allow_stale now key after).1,
          ap (λ x. reply (x, (read_key allow_stale now key after).1)) r.0,
          r.1,
          r.2,
        )
