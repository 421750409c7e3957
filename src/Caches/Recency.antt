-- ===== src/Caches/Recency.antt =====
-- What the operations on an ordered dictionary do to its keys, its entries and its length.
use mathlib.Core.Path.{subst}
use context_lattice.Prelude.{
  Bool-cases, Distinct, Distinct-append, List, Option-cases, Text, [], ap, arith, drop, false, inl,
  inr, length, length-append, ltb, none, occurs, refl, some, suc, text_eq, text_eq_comm,
  text_eq_refl, text_eq_sound, zero, ℕ, ◌++◌, ◌-◌, ◌∙◌, ◌∷◌, ◌≡◌, ◌≤◌,
}
use context_lattice.Caches.{assign, evict, keys, lookup, move_to_end, remove, store}

module _ {V : Type 0} where
  pub lookup-assign : (k : Text) (v : V) (d : List (Text × V)) → lookup k (assign k v d) ≡ some v
  unfolding lookup assign
  lookup-assign k v [] = rw (text_eq_refl k) refl
  lookup-assign k v ((j, w) ∷ d) = ground (arith, lookup-assign k v d)

  remove-assign : (k : Text) (v : V) (d : List (Text × V)) → remove k (assign k v d) ≡ remove k d
  unfolding remove assign
  remove-assign k v [] = rw (text_eq_refl k) refl
  remove-assign k v ((j, w) ∷ d) = ground (arith, remove-assign k v d)

  -- An entry that is stored goes to the end.
  pub store_lem : (k : Text) (v : V) (d : List (Text × V)) → store k v d ≡ remove k d ++ (k, v) ∷ []
  unfolding store
  store_lem k v d = rw (lookup-assign k v d, remove-assign k v d) refl

  pub occurs-remove :
      (j k : Text) (d : List (Text × V))
      → occurs text_eq j (keys d) ≡ false
      → occurs text_eq j (keys (remove k d)) ≡ false
  unfolding occurs remove
  occurs-remove j k [] h = refl
  occurs-remove j k ((i, v) ∷ d) h = ground (arith, occurs-remove j k d)

  pub Distinct-remove :
      (k : Text) (d : List (Text × V))
      → Distinct text_eq (keys d)
      → Distinct text_eq (keys (remove k d))
  unfolding remove
  Distinct-remove k [] h = tt
  Distinct-remove k ((i, v) ∷ d) h = elim (Bool-cases (text_eq i k)) [
    | inl e ↦ rw e h.1
    | inr e ↦ rw e (occurs-remove i k d h.0, Distinct-remove k d h.1)
  ]

  pub lookup-append :
      (k : Text) (d c : List (Text × V))
      → occurs text_eq k (keys d) ≡ false
      → lookup k (d ++ c) ≡ lookup k c
  unfolding lookup occurs
  lookup-append k [] c h = refl
  lookup-append k ((j, v) ∷ d) c h = ground (arith, lookup-append k d c)

  -- The oldest entries go, as many as are too many.
  pub evict_lem :
      (max_keys : ℕ) (d : List (Text × V))
      → ((evict max_keys d).0 ≡ drop (length d - max_keys) d)
        × ((evict max_keys d).1 ≡ length d - max_keys)
  unfolding evict
  evict_lem max_keys [] = let n : 0 - max_keys ≡ 0 = omega arith in rw n (refl, refl)
  evict_lem max_keys (e ∷ d) =
      let (kept, gone) = evict_lem max_keys d in
      elim (Bool-cases (ltb max_keys (suc (length d)))) [
        | inl h ↦
            let n : suc (length d) - max_keys ≡ suc (length d - max_keys) = ground arith in
            rw (h, n) (kept, ap suc gone)
        | inr h ↦ let n : suc (length d) - max_keys ≡ 0 = ground arith in rw (h, n) (refl, refl)
      ]

  length-remove-found :
      (k : Text) (d : List (Text × V)) (v : V)
      → lookup k d ≡ some v
      → suc (length (remove k d)) ≡ length d
  unfolding lookup remove
  length-remove-found k [] v h = cc
  length-remove-found k ((j, w) ∷ d) v h = ground (arith, length-remove-found k d v)

  remove-absent : (k : Text) (d : List (Text × V)) → lookup k d ≡ none → remove k d ≡ d
  unfolding lookup remove
  remove-absent k [] h = refl
  remove-absent k ((j, w) ∷ d) h = ground (arith, remove-absent k d)

  pub remove-fresh :
      (k : Text) (d : List (Text × V)) → occurs text_eq k (keys d) ≡ false → remove k d ≡ d
  unfolding occurs remove
  remove-fresh k [] h = refl
  remove-fresh k ((j, w) ∷ d) h = ground (arith, remove-fresh k d)

  pub length-move_to_end : (k : Text) (d : List (Text × V)) → length (move_to_end k d) ≡ length d
  unfolding move_to_end
  length-move_to_end k d = elim (Option-cases (lookup k d)) [
    | inl e ↦ rw (e, remove-absent k d e) refl
    | inr (v, e) ↦
        rw e (omega (arith, length-append (remove k d) ((k, v) ∷ []), length-remove-found k d v e))
  ]

  pub length-remove :
      (k : Text) (d : List (Text × V))
      → (length (remove k d) ≤ length d) × (length d ≤ suc (length (remove k d)))
  unfolding remove
  length-remove k [] = (omega arith, omega arith)
  length-remove k ((j, w) ∷ d) = ground (arith, length-remove k d)

  -- A key that is taken out is gone, where keys are distinct.
  pub occurs-removed :
      (k : Text) (d : List (Text × V))
      → Distinct text_eq (keys d)
      → occurs text_eq k (keys (remove k d)) ≡ false
  unfolding occurs remove
  occurs-removed k [] h = refl
  occurs-removed k ((j, v) ∷ d) h = elim (Bool-cases (text_eq j k)) [
    | inl e ↦ rw e (subst (λ i. occurs text_eq i (keys d) ≡ false) (text_eq_sound j k e) h.0)
    | inr e ↦ rw e (rw e (occurs-removed k d h.1))
  ]

  keys-append_one :
      (d : List (Text × V)) (k : Text) (v : V) → keys (d ++ (k, v) ∷ []) ≡ keys d ++ k ∷ []
  keys-append_one [] k v = refl
  keys-append_one (e ∷ d) k v = ap (λ l. e.0 ∷ l) (keys-append_one d k v)

  pub Distinct-last :
      (k : Text) (v : V) (d : List (Text × V))
      → Distinct text_eq (keys d)
      → Distinct text_eq (keys (remove k d ++ (k, v) ∷ []))
  Distinct-last k v d h = rw (keys-append_one (remove k d) k v) (
      Distinct-append text_eq text_eq_comm k (keys (remove k d)) (Distinct-remove k d h)
        (occurs-removed k d h))

  pub lookup-last :
      (k : Text) (v : V) (d : List (Text × V))
      → Distinct text_eq (keys d)
      → lookup k (remove k d ++ (k, v) ∷ []) ≡ some v
  unfolding lookup
  lookup-last k v d h =
      lookup-append k (remove k d) ((k, v) ∷ []) (occurs-removed k d h) ∙ rw (text_eq_refl k) refl

  pub Distinct-drop :
      (n : ℕ) (d : List (Text × V)) → Distinct text_eq (keys d) → Distinct text_eq (keys (drop n d))
  Distinct-drop zero d h = h
  Distinct-drop (suc n) [] h = h
  Distinct-drop (suc n) (e ∷ d) h = Distinct-drop n d h.1

  pub Distinct-move_to_end :
      (k : Text) (d : List (Text × V))
      → Distinct text_eq (keys d)
      → Distinct text_eq (keys (move_to_end k d))
  unfolding move_to_end
  Distinct-move_to_end k d h = elim (Option-cases (lookup k d)) [
    | inl e ↦ rw e (Distinct-remove k d h)
    | inr (v, e) ↦ rw e (Distinct-last k v d h)
  ]

  pub lookup-drop_last :
      (n : ℕ) (k : Text) (v : V) (d : List (Text × V))
      → n ≤ length d
      → occurs text_eq k (keys d) ≡ false
      → lookup k (drop n (d ++ (k, v) ∷ [])) ≡ some v
  unfolding occurs lookup
  lookup-drop_last zero k v d h absent =
      lookup-append k d ((k, v) ∷ []) absent ∙ rw (text_eq_refl k) refl
  lookup-drop_last (suc n) k v [] h absent = absurd (omega arith)
  lookup-drop_last (suc n) k v (e ∷ d) h absent =
      lookup-drop_last n k v d (omega arith) (ground arith)

  lookup-absent :
      (k : Text) (d : List (Text × V)) → occurs text_eq k (keys d) ≡ false → lookup k d ≡ none
  unfolding lookup occurs
  lookup-absent k [] h = refl
  lookup-absent k ((j, w) ∷ d) h = ground (arith, lookup-absent k d)

  pub lookup-remove :
      (k : Text) (d : List (Text × V)) → Distinct text_eq (keys d) → lookup k (remove k d) ≡ none
  lookup-remove k d h = lookup-absent k (remove k d) (occurs-removed k d h)

  pub lookup-move_to_end :
      (k : Text) (v : V) (d : List (Text × V))
      → Distinct text_eq (keys d)
      → lookup k d ≡ some v
      → lookup k (move_to_end k d) ≡ some v
  unfolding move_to_end
  lookup-move_to_end k v d h e = rw e (lookup-last k v d h)
