-- ===== src/Dedupe/Latest.antt =====
-- What `should_skip_unchanged_latest_hash` remembers.
use context_lattice.Prelude.{
  Bool-cases, List, Text, [], arith, inl, inr, length, ltb, max, refl, some, suc, text_eq, true,
  zero, ℕ, ◌++◌, ◌∷◌, ◌≡◌, ◌≤◌,
}
use context_lattice.Caches.{assign, lookup}
use context_lattice.Caches.Recency.{lookup-assign}
use context_lattice.Dedupe.{DedupeConfig, should_skip_unchanged_latest_hash, trim_hashes, trim_step}

-- One turn keeps the key that was just written and takes one entry out.
trim_step_lem :
    (max_keys : ℕ) (key content_hash : Text) (e : Text × Text) (d : List (Text × Text))
    → 1 ≤ max_keys
    → ltb max_keys (suc (length d)) ≡ true
    → lookup key (e ∷ d) ≡ some content_hash
    → (lookup key (trim_step key content_hash e d) ≡ some content_hash)
      × (length (trim_step key content_hash e d) ≡ length d)
unfolding trim_step lookup
trim_step_lem max_keys key content_hash e [] m over h = absurd (ground arith)
trim_step_lem max_keys key content_hash (j, w) (f ∷ d) m over h =
    elim (Bool-cases (text_eq j key)) [
      | inl q ↦ rw q (ground arith, refl)
      | inr q ↦ rw q (ground arith, refl)
    ]

-- The loop ends within its bound where there is fuel for each entry, and keeps the key.
trim_hashes_lem :
    (fuel max_keys : ℕ) (key content_hash : Text) (d : List (Text × Text))
    → 1 ≤ max_keys
    → length d ≤ fuel
    → lookup key d ≡ some content_hash
    → (lookup key (trim_hashes fuel max_keys key content_hash d) ≡ some content_hash)
      × (length (trim_hashes fuel max_keys key content_hash d) ≤ max_keys)
unfolding trim_hashes
trim_hashes_lem fuel max_keys key content_hash [] m f h = (h, omega arith)
trim_hashes_lem zero max_keys key content_hash (e ∷ d) m f h = absurd (omega arith)
trim_hashes_lem (suc fuel) max_keys key content_hash (e ∷ d) m f h =
    elim (Bool-cases (ltb max_keys (suc (length d)))) [
      | inl over ↦
          let s = trim_step_lem max_keys key content_hash e d m over h in
          rw over (
            trim_hashes_lem fuel max_keys key content_hash (trim_step key content_hash e d) m
              (omega (arith, s.1)) s.0)
      | inr short ↦ rw short (h, ground arith)
    ]

-- A write is skipped exactly where the content is that of the write before: of two writes of a file one
-- after the other, the second is skipped where its hash is that of the first, whatever was remembered
-- before and however full the table is. The table stays within its bound.
pub latest_hash_lem :
    (config : DedupeConfig) (project file_name first second : Text) (d : List (Text × Text))
    → config.hash_enabled ≡ true
    → let after = (should_skip_unchanged_latest_hash config project file_name first d).1 in
      ((should_skip_unchanged_latest_hash config project file_name second after).0
        ≡ text_eq first second)
      × (length after ≤ max 1000 config.hash_max_keys)
unfolding should_skip_unchanged_latest_hash
latest_hash_lem config project file_name first second d on =
    let key = project ++ (b':' ∷ file_name) in
    let written = assign key first d in
    let r =
      trim_hashes_lem (length written) (max 1000 config.hash_max_keys) key first written
        (omega arith) (omega arith) (lookup-assign key first d) in
    rw on (rw (r.0) refl, r.1)
