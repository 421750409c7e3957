-- ===== src/Caches/Bounded.antt =====
-- Dictionaries of distinct keys and at most `max_keys` entries.
use context_lattice.Prelude.{
  Distinct, List, Text, [], arith, length, length-append, length-drop, some, text_eq, ℕ, ◌-◌, ◌∷◌,
  ◌≡◌, ◌≤◌,
}
use context_lattice.Caches.{evict, keys, lookup, move_to_end, remove, store}
use context_lattice.Caches.Recency.{
  Distinct-drop, Distinct-last, Distinct-move_to_end, Distinct-remove, evict_lem,
  length-move_to_end, length-remove, lookup-drop_last, occurs-removed, store_lem,
}

module _ {V : Type 0} where
  pub record IsBounded (max_keys : ℕ) (d : List (Text × V)) : Type 0 where
    pub short : length d ≤ max_keys
    pub distinct : Distinct text_eq (keys d)

  pub empty-IsBounded : (max_keys : ℕ) → IsBounded max_keys []
  empty-IsBounded max_keys = record { short = omega arith; distinct = tt }

  pub remove-IsBounded :
      (max_keys : ℕ) (k : Text) (d : List (Text × V))
      → IsBounded max_keys d
      → IsBounded max_keys (remove k d)
  remove-IsBounded max_keys k d b = record {
    short = omega (arith, b.short, (length-remove k d).0);
    distinct = Distinct-remove k d b.distinct;
  }

  pub move_to_end-IsBounded :
      (max_keys : ℕ) (k : Text) (d : List (Text × V))
      → IsBounded max_keys d
      → IsBounded max_keys (move_to_end k d)
  move_to_end-IsBounded max_keys k d b = record {
    short = omega (arith, b.short, length-move_to_end k d);
    distinct = Distinct-move_to_end k d b.distinct;
  }

  -- A new entry, with evictions where there are too many.
  pub evict-store-IsBounded :
      (max_keys : ℕ) (k : Text) (v : V) (d : List (Text × V))
      → IsBounded max_keys d
      → IsBounded max_keys (evict max_keys (store k v d)).0
  evict-store-IsBounded max_keys k v d b =
      let e = (evict_lem max_keys (store k v d)).0 in
      record {
        short = rw e (omega (arith, length-drop (length (store k v d) - max_keys) (store k v d)));
        distinct = rw (e, store_lem k v d) (Distinct-drop _ _ (Distinct-last k v d b.distinct));
      }

  -- The entry that was stored last is not evicted.
  pub lookup-evict-store :
      (max_keys : ℕ) (k : Text) (v : V) (d : List (Text × V))
      → 1 ≤ max_keys
      → IsBounded max_keys d
      → lookup k (evict max_keys (store k v d)).0 ≡ some v
  lookup-evict-store max_keys k v d h b =
      rw ((evict_lem max_keys (store k v d)).0, store_lem k v d)
        (lookup-drop_last _ k v (remove k d)
          (omega (arith, length-append (remove k d) ((k, v) ∷ []), (length-remove k d).0, b.short))
          (occurs-removed k d b.distinct))
