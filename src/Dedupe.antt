-- ===== src/Dedupe.antt =====
-- Repeated writes of a memory: `build_memory_write_dedupe_key`, `should_skip_duplicate_memory_write`
-- (by the moment of the last write) and `should_skip_unchanged_latest_hash` (by the last content).
pub mod Window
pub mod Latest
use context_lattice.Prelude.{
  Bool, List, Option, Text, [], drop, false, if◌then◌else◌, is_nil, leb, length, ltb, max, none,
  not, order_by, select, some, suc, take, text_eq, zero, ℕ, ◌&&◌, ◌++◌, ◌-◌, ◌∷◌,
}
use context_lattice.Caches.{assign, keys, lookup, remove}

pub record DedupeConfig : Type 0 where
  pub enabled : Bool
  pub window : ℕ
  pub max_keys : ℕ
  pub hash_enabled : Bool
  pub hash_max_keys : ℕ

-- `sha256` gives the hexadecimal digest of a text.
unfoldable pub build_memory_write_dedupe_key : (Text → Text) → Text → Text → Text → Text
build_memory_write_dedupe_key sha256 project file_name content =
    project ++ (b':' ∷ file_name ++ (b':' ∷ take 32 (sha256 content)))

-- `d.pop(k, None)` for each of the keys.
unfoldable pub remove_all : {V : Type 0} → List Text → List (Text × V) → List (Text × V)
remove_all [] d = d
remove_all (k ∷ ks) d = remove_all ks (remove k d)

abbrev pub seen_le : Text × ℕ → Text × ℕ → Bool
seen_le a b = leb (a.1) (b.1)

-- The entries that are dropped for the bound: the oldest, by the moment that they hold.
unfoldable pub overflow_keys : ℕ → List (Text × ℕ) → List Text
overflow_keys max_keys seen = keys (take (length seen - max_keys) (order_by seen_le seen))

unfoldable pub trim_seen : ℕ → List (Text × ℕ) → List (Text × ℕ)
unfolding remove_all overflow_keys
trim_seen max_keys seen =
    if ltb max_keys (length seen) then remove_all (overflow_keys max_keys seen) seen else seen

-- `seen_at < cutoff`, where the cutoff may lie before the clock's zero and then nothing is stale; so it
-- is with a subtraction that stops at zero.
unfoldable pub is_live : DedupeConfig → ℕ → Text × ℕ → Bool
is_live config now e = not (ltb (e.1) (now - config.window))

abbrev pub within : ℕ → ℕ → Option ℕ → Bool
within window now none = false
within window now (some at) = leb (now - at) window

unfoldable pub should_skip_duplicate_memory_write :
    DedupeConfig → ℕ → Text → List (Text × ℕ) → Bool × List (Text × ℕ)
unfolding trim_seen is_live
should_skip_duplicate_memory_write config now key seen =
    let live = select (is_live config now) seen in
    if config.enabled && ltb 0 config.window
    then (
      within config.window now (lookup key live),
      trim_seen (max 100 config.max_keys) (assign key now live),
    )
    else (false, seen)

-- One turn of the loop: the oldest entry goes, but for the key that was just written.
unfoldable pub trim_step : Text → Text → Text × Text → List (Text × Text) → List (Text × Text)
trim_step key content_hash e d =
    if text_eq (e.0) key then (if is_nil d then assign key content_hash d else e ∷ drop 1 d) else d

-- `while len(d) > max_keys: …`
unfoldable pub trim_hashes : ℕ → ℕ → Text → Text → List (Text × Text) → List (Text × Text)
unfolding trim_step
trim_hashes fuel max_keys key content_hash [] = []
trim_hashes zero max_keys key content_hash (e ∷ d) = e ∷ d
trim_hashes (suc fuel) max_keys key content_hash (e ∷ d) =
    let rest = trim_hashes fuel max_keys key content_hash (trim_step key content_hash e d) in
    if ltb max_keys (suc (length d)) then rest else e ∷ d

unfoldable pub should_skip_unchanged_latest_hash :
    DedupeConfig → Text → Text → Text → List (Text × Text) → Bool × List (Text × Text)
unfolding trim_hashes
should_skip_unchanged_latest_hash config project file_name content_hash d =
    let key = project ++ (b':' ∷ file_name) in
    let written = assign key content_hash d in
    if config.hash_enabled
    then (
      elim (lookup key d) [ none ↦ false | some previous ↦ text_eq previous content_hash ],
      trim_hashes (length written) (max 1000 config.hash_max_keys) key content_hash written,
    )
    else (false, d)
