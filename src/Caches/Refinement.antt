-- ===== src/Caches/Refinement.antt =====
-- An evicting cache against an ordered dictionary that forgets nothing.
use mathlib.Core.Path.{subst}
use context_lattice.Prelude.{
  Bool-cases, Distinct, List, Text, [], ap, arith, drop, false, inl, inr, length, length-append,
  ltb, occurs, refl, suc, sym, text_eq, text_eq_sound, ℕ, ◌++◌, ◌-◌, ◌∙◌, ◌∷◌, ◌≡◌, ◌≤◌,
}
use context_lattice.Caches.{evict, keys, remove, store}
use context_lattice.Caches.Recency.{
  Distinct-last, evict_lem, length-remove, remove-fresh, store_lem,
}

-- The last `max_keys` entries of a dictionary.
abbrev pub newest : {V : Type 0} → ℕ → List (Text × V) → List (Text × V)
newest max_keys d = drop (length d - max_keys) d

module _ {V : Type 0} where
  -- Entries are stored one after the other, with evictions and without.
  unfoldable pub store_all : List (Text × V) → List (Text × V) → List (Text × V)
  store_all [] d = d
  store_all (e ∷ es) d = store_all es (store (e.0) (e.1) d)

  unfoldable pub store_evicting : ℕ → List (Text × V) → List (Text × V) → List (Text × V)
  store_evicting max_keys [] d = d
  store_evicting max_keys (e ∷ es) d =
      store_evicting max_keys es (evict max_keys (store (e.0) (e.1) d)).0

  newest-short : (max_keys : ℕ) (d : List (Text × V)) → length d ≤ max_keys → newest max_keys d ≡ d
  newest-short max_keys d h = let n : length d - max_keys ≡ 0 = omega arith in rw n refl

  newest-cons :
      (max_keys : ℕ) (e : Text × V) (d : List (Text × V))
      → max_keys ≤ length d
      → newest max_keys (e ∷ d) ≡ newest max_keys d
  newest-cons max_keys e d h =
      let n : suc (length d) - max_keys ≡ suc (length d - max_keys) = omega arith in rw n refl

  newest-remove :
      (max_keys : ℕ) (k : Text) (v : V) (e : Text × V) (d : List (Text × V))
      → max_keys ≤ length d
      → Distinct text_eq (keys (e ∷ d))
      → newest max_keys (remove k (e ∷ d) ++ (k, v) ∷ [])
        ≡ newest max_keys (remove k d ++ (k, v) ∷ [])
  unfolding remove
  newest-remove max_keys k v (j, w) d n h = elim (Bool-cases (text_eq j k)) [
    | inl e ↦
        let absent = subst (λ i. occurs text_eq i (keys d) ≡ false) (text_eq_sound j k e) h.0 in
        rw (e, remove-fresh k d absent) refl
    | inr e ↦ rw e (
        newest-cons max_keys (j, w) (remove k d ++ (k, v) ∷ [])
          (omega (arith, length-append (remove k d) ((k, v) ∷ []), (length-remove k d).1)))
  ]

  -- What was forgotten does not matter for what is kept after the next entry.
  newest-store :
      (max_keys : ℕ) (k : Text) (v : V) (d : List (Text × V))
      → Distinct text_eq (keys d)
      → newest max_keys (remove k (newest max_keys d) ++ (k, v) ∷ [])
        ≡ newest max_keys (remove k d ++ (k, v) ∷ [])
  newest-store max_keys k v [] h = let n : 0 - max_keys ≡ 0 = omega arith in rw n refl
  newest-store max_keys k v (e ∷ d) h = elim (Bool-cases (ltb (length d) max_keys)) [
    | inl s ↦ rw (newest-short max_keys (e ∷ d) (ground arith)) refl
    | inr s ↦
        let full : max_keys ≤ length d = ground arith in
        rw (newest-cons max_keys e d full) (newest-store max_keys k v d h.1)
        ∙ sym (newest-remove max_keys k v e d full h)
  ]

  store-Distinct :
      (k : Text) (v : V) (d : List (Text × V))
      → Distinct text_eq (keys d)
      → Distinct text_eq (keys (store k v d))
  store-Distinct k v d h = rw (store_lem k v d) (Distinct-last k v d h)

  newest-store_evicting :
      (max_keys : ℕ) (es d : List (Text × V))
      → Distinct text_eq (keys d)
      → store_evicting max_keys es (newest max_keys d) ≡ newest max_keys (store_all es d)
  unfolding store_evicting store_all
  newest-store_evicting max_keys [] d h = refl
  newest-store_evicting max_keys ((k, v) ∷ es) d h =
      ap (store_evicting max_keys es) (
        (evict_lem max_keys (store k v (newest max_keys d))).0
        ∙ rw (store_lem k v (newest max_keys d), store_lem k v d) (newest-store max_keys k v d h))
      ∙ newest-store_evicting max_keys es (store k v d) (store-Distinct k v d h)

-- A cache that evicts its oldest entries while it is too long holds, after any sequence of stores, the
-- newest `max_keys` entries of the dictionary that evicts nothing: the keys stored last, each with the
-- value that was stored last.
pub evicting_refines :
    {V : Type 0} (max_keys : ℕ) (es : List (Text × V))
    → store_evicting max_keys es [] ≡ newest max_keys (store_all es [])
evicting_refines max_keys es =
    let n : 0 - max_keys ≡ 0 = omega arith in
    let e : newest max_keys [] ≡ [] = rw n refl in
    ap (store_evicting max_keys es) (sym e) ∙ newest-store_evicting max_keys es [] tt
