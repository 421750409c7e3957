-- ===== src/Caches.antt =====
-- The process-wide caches of services/orchestrator/app.py: an `OrderedDict` with the oldest entry first,
-- and the statements on it that all caches share.
pub mod Recency
pub mod Refinement
pub mod Bounded
pub mod Embedding
pub mod Timed
pub mod Expiry
pub mod MemoryRead
pub mod Bundles
use context_lattice.Prelude.{
  List, Option, Text, [], if◌then◌else◌, length, ltb, map, none, some, suc, text_eq, ℕ, ◌++◌, ◌∷◌,
}

module _ {V : Type 0} where
  -- `d.get(k)`
  unfoldable pub lookup : Text → List (Text × V) → Option V
  lookup k [] = none
  lookup k ((j, v) ∷ d) = let rest = lookup k d in if text_eq j k then some v else rest

  -- `d.pop(k, None)`
  unfoldable pub remove : Text → List (Text × V) → List (Text × V)
  remove k [] = []
  remove k ((j, v) ∷ d) = let rest = remove k d in if text_eq j k then d else (j, v) ∷ rest

  -- `d[k] = v`: an old key keeps its place.
  unfoldable pub assign : Text → V → List (Text × V) → List (Text × V)
  assign k v [] = (k, v) ∷ []
  assign k v ((j, w) ∷ d) =
      let rest = assign k v d in if text_eq j k then (j, v) ∷ d else (j, w) ∷ rest

  abbrev append_found : Text → Option V → List (Text × V) → List (Text × V)
  append_found k none d = d
  append_found k (some v) d = d ++ (k, v) ∷ []

  -- `d.move_to_end(k)`, for a key that is there.
  unfoldable pub move_to_end : Text → List (Text × V) → List (Text × V)
  move_to_end k d = append_found k (lookup k d) (remove k d)

  -- `d[k] = v; d.move_to_end(k)`
  unfoldable pub store : Text → V → List (Text × V) → List (Text × V)
  unfolding move_to_end
  store k v d = move_to_end k (assign k v d)

  -- `while len(d) > max_keys: d.popitem(last=False); evictions += 1`
  unfoldable pub evict : ℕ → List (Text × V) → List (Text × V) × ℕ
  evict max_keys [] = ([], 0)
  evict max_keys (e ∷ d) =
      let (kept, evictions) = evict max_keys d in
      if ltb max_keys (suc (length d)) then (kept, suc evictions) else (e ∷ d, 0)

  abbrev pub keys : List (Text × V) → List Text
  keys d = map (λ e. e.0) d
