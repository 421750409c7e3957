-- ===== src/Tests/Stores.antt =====
-- The theorems on paths and caches at work.
use context_lattice.Prelude.{
  List, Text, [], arith, codes, contains, drop_while, false, lower, occurs, refl, reply, select,
  strip, text_eq, true, ℕ, ◌+◌, ◌∷◌, ◌≡◌,
}
use context_lattice.Paths.{
  collapse, derive_topic_path, init, is_part, join, normalize_memory_path, normalize_topic_path,
  path_parts, slash, split, tags_from, tags_of_path, topic_of_file, topic_tags_for_path,
}
use context_lattice.Paths.Clean.{IsCleanPart, IsCleanPath, lacks, normalize-IsCleanPath}
use context_lattice.Paths.Topics.{prefixes}
use context_lattice.Caches.{assign, evict, lookup, move_to_end, remove, store}
use context_lattice.Caches.Bounded.{IsBounded, empty-IsBounded}
use context_lattice.Caches.Refinement.{store_all}
use context_lattice.Caches.Embedding.{
  EmbeddingConfig, embedding_cache_get, embedding_cache_set, embedding_cache_sets,
  embedding_cache_sets_lem, empty_cache,
}
use context_lattice.Caches.Timed.{
  TimedConfig, letta_search_cache_get, letta_search_cache_set, pathway_backend, pathway_found,
  retrieval_pathway_cache_get, timed_found,
}
use context_lattice.Caches.Expiry.{serving}
use context_lattice.Caches.MemoryRead.{
  ReadCache, ReadConfig, expected_read, memory_read_cache_get, memory_read_cache_key,
  memory_read_cache_set, read_after_write,
}

abbrev vector : ℕ
vector = 5

abbrev plain : Text → Text
plain s = s

stores_program : Unit {0}
unfolding normalize_memory_path path_parts split join collapse drop_while is_part select contains
    text_eq lacks topic_tags_for_path tags_of_path tags_from prefixes normalize_topic_path
    derive_topic_path topic_of_file init store assign move_to_end lookup remove evict store_all
    embedding_cache_sets embedding_cache_set embedding_cache_get letta_search_cache_get
    letta_search_cache_set timed_found serving retrieval_pathway_cache_get pathway_found
    pathway_backend memory_read_cache_key strip lower occurs
stores_program = tt

normalize-IsCleanPath_example : IsCleanPath (codes "a/b")
unfolding stores_program
normalize-IsCleanPath_example = normalize-IsCleanPath plain (codes "/a/./b//") (codes "a/b") refl

clean :
    (p : Text)
    → is_part p ≡ true
    → text_eq p (codes "..") ≡ false
    → lacks slash p ≡ true
    → lacks 92 p ≡ true
    → IsCleanPart p
clean p a b c d = record { part = a; not_parent = b; no_slash = c; no_backslash = d }

a-IsCleanPart : IsCleanPart (codes "a")
unfolding stores_program
a-IsCleanPart = clean (codes "a") refl refl refl refl

b-IsCleanPart : IsCleanPart (codes "b")
unfolding stores_program
b-IsCleanPart = clean (codes "b") refl refl refl refl

abbrev embedding_config : EmbeddingConfig
embedding_config = record { enabled = true; max_keys = 2; provider = codes "p"; model = codes "m" }

abbrev vectors : List (Text × ℕ)
vectors = (codes "x", 1) ∷ (codes "y", 2) ∷ (codes "x", 3) ∷ (codes "z", 4) ∷ []

embedding_cache_sets_example :
    (embedding_cache_sets embedding_config vectors empty_cache).entries
    ≡ (codes "x", 3) ∷ (codes "z", 4) ∷ []
unfolding stores_program
embedding_cache_sets_example = embedding_cache_sets_lem embedding_config vectors refl

abbrev timed_config : TimedConfig
timed_config = record { enabled = true; ttl = 10; max_keys = 2 }

abbrev read_config : ReadConfig
read_config = record { max_keys = 2; fresh_ttl = 10; stale_max = 100 }

abbrev empty_reads : ReadCache
empty_reads = record { entries = []; hits = 0; misses = 0; writes = 0; evictions = 0 }

read_after_write_example :
    (after : ReadCache) × (memory_read_cache_set read_config plain 1 5
        (codes "P")
        (codes "/a")
        (codes "text")
        empty_reads
      ≡ reply after)
    × IsBounded 2 after.entries
    × (last : ReadCache) × (memory_read_cache_get read_config plain true 50
          (codes "P")
          (codes "/a")
          after
        ≡ reply (expected_read read_config true 5 50 (codes "text"), last))
    × (last.hits + last.misses ≡ 1)
    × IsBounded 2 last.entries
unfolding stores_program
read_after_write_example =
    read_after_write read_config plain true 1 5 50 (codes "P") (codes "/a") (codes "text")
      (codes "p::a") empty_reads (omega arith) (omega arith) refl refl (empty-IsBounded 2)
