-- ===== src/Prelude/Keyed.antt =====
-- Tables with a primary key: what `UPDATE … WHERE key = ?` does to the row that was read before,
-- to the other rows and to the keys.
use mathlib.Core.Path.{◌≡◌, refl, sym, ap, ◌∙◌, subst}
use mathlib.Core.Logic.{inl, inr}
use mathlib.Core.Bool.{Bool, true, false, false≢true, ◌||◌}
use mathlib.Core.Option.{some, none}
use mathlib.Core.List.{List, [], ◌∷◌, map, ◌++◌}
use native.Mathlib.Omega.{arith}
use context_lattice.Prelude.Tests.{Bool-cases}
use context_lattice.Prelude.Lists.{Has, All}
use context_lattice.Prelude.Table.{update_where, find}

module _ {K : Type 0} (eq : K → K → Bool) where
  unfoldable pub occurs : K → List K → Bool
  occurs k [] = false
  occurs k (j ∷ js) = eq j k || occurs k js

  abbrev pub Distinct : List K → Type 0
  Distinct [] = Unit
  Distinct (k ∷ ks) = (occurs k ks ≡ false) × Distinct ks

module _ {K : Type 0} (eq : K → K → Bool) (symmetric : (a b : K) → eq a b ≡ eq b a) where
  occurs-append :
      (k x : K) (ks : List K)
      → eq x k ≡ false
      → occurs eq k ks ≡ false
      → occurs eq k (ks ++ x ∷ []) ≡ false
  unfolding occurs
  occurs-append k x [] e h = ground arith
  occurs-append k x (j ∷ js) e h = ground (arith, occurs-append k x js)

  -- A new key at the end.
  pub Distinct-append :
      (x : K) (ks : List K) → Distinct eq ks → occurs eq x ks ≡ false → Distinct eq (ks ++ x ∷ [])
  unfolding occurs
  Distinct-append x [] d h = (refl, tt)
  Distinct-append x (k ∷ ks) d h = (
    occurs-append k x ks (ground (arith, symmetric x k)) d.0,
    Distinct-append x ks d.1 (ground arith),
  )

module _ {A K : Type 0} (key : A → K) (eq : K → K → Bool) where
  unfoldable pub has_key : K → A → Bool
  has_key k x = eq (key x) k

  -- An update that keeps the keys of the rows keeps the keys of the table.
  pub keys-update_where :
      (p : A → Bool) (f : A → A) (xs : List A)
      → ((x : A) → key (f x) ≡ key x)
      → map key (update_where p f xs) ≡ map key xs
  unfolding update_where
  keys-update_where p f [] same = refl
  keys-update_where p f (x ∷ xs) same = ground (arith, same x, keys-update_where p f xs same)

  update_where-absent :
      (k : K) (f : A → A) (xs : List A)
      → occurs eq k (map key xs) ≡ false
      → update_where (has_key k) f xs ≡ xs
  unfolding update_where has_key occurs
  update_where-absent k f [] h = refl
  update_where-absent k f (x ∷ xs) h = ground (arith, update_where-absent k f xs)

  module _ (sound : (a b : K) → eq a b ≡ true → a ≡ b) where
    -- Where keys are distinct, only the row that a query by its key gives is updated.
    pub All-set_row :
        (P : A → Type 0) (k : K) (f : A → A) (xs : List A) (x : A)
        → find (has_key k) xs ≡ some x
        → Distinct eq (map key xs)
        → All P xs
        → P (f x)
        → All P (update_where (has_key k) f xs)
    unfolding update_where find has_key
    All-set_row P k f [] x e d v h = tt
    All-set_row P k f (y ∷ ys) x e d v h = elim (Bool-cases (eq (key y) k)) [
      | inl p ↦
          let q : y ≡ x = ground arith in
          let a = subst (λ z. occurs eq z (map key ys) ≡ false) (sound (key y) k p) d.0 in
          rw p
            (subst (λ z. P (f z)) (sym q) h, subst (All P) (sym (update_where-absent k f ys a)) v.1)
      | inr p ↦ rw p (v.0, All-set_row P k f ys x (ground arith) d.1 v.1 h)
    ]

    pub occurs-Has :
        (reflexive : (a : K) → eq a a ≡ true) (x : A) (xs : List A)
        → Has x xs
        → occurs eq (key x) (map key xs) ≡ true
    unfolding occurs
    occurs-Has reflexive x [] h = absurd h
    occurs-Has reflexive x (z ∷ zs) (inl e) = rw (← e) (rw (reflexive (key z)))
    occurs-Has reflexive x (z ∷ zs) (inr h) = ground (arith, occurs-Has reflexive x zs h)

    -- With distinct keys, a row of the table is the row that its key reads.
    pub find-Has :
        (reflexive : (a : K) → eq a a ≡ true) (x : A) (xs : List A)
        → Distinct eq (map key xs)
        → Has x xs
        → find (has_key (key x)) xs ≡ some x
    unfolding find has_key
    find-Has reflexive x [] d h = absurd h
    find-Has reflexive x (y ∷ ys) d (inl e) = rw (← e) (rw (reflexive (key y)))
    find-Has reflexive x (y ∷ ys) d (inr h) = elim (Bool-cases (eq (key y) (key x))) [
      | inl p ↦ absurd (
          false≢true (
            sym d.0
            ∙ ap (λ z. occurs eq z (map key ys)) (sound (key y) (key x) p)
            ∙ occurs-Has reflexive x ys h))
      | inr p ↦ rw p (find-Has reflexive x ys d.1 h)
    ]

  -- What a query by key gives after an update by key.
  pub find-set_row :
      (k : K) (f : A → A) (xs : List A) (x : A)
      → ((y : A) → key (f y) ≡ key y)
      → find (has_key k) xs ≡ some x
      → find (has_key k) (update_where (has_key k) f xs) ≡ some (f x)
  unfolding update_where find has_key
  find-set_row k f [] x same e = ground arith
  find-set_row k f (y ∷ ys) x same e = ground (arith, same y, find-set_row k f ys x same)

  pub find-set_row_ne :
      (k j : K) (f : A → A) (xs : List A)
      → ((y : A) → key (f y) ≡ key y)
      → ((y : K) → eq y k ≡ true → eq y j ≡ false)
      → find (has_key j) (update_where (has_key k) f xs) ≡ find (has_key j) xs
  unfolding update_where find has_key
  find-set_row_ne k j f [] same ne = refl
  find-set_row_ne k j f (y ∷ ys) same ne =
      ground (arith, same y, ne (key y), find-set_row_ne k j f ys same ne)

  -- A key that no row has.
  pub find-none :
      (k : K) (xs : List A) → find (has_key k) xs ≡ none → occurs eq k (map key xs) ≡ false
  unfolding find has_key occurs
  find-none k [] h = refl
  find-none k (x ∷ xs) h = ground (arith, find-none k xs)

  pub keys-append : (xs ys : List A) → map key (xs ++ ys) ≡ map key xs ++ map key ys
  keys-append [] ys = refl
  keys-append (x ∷ xs) ys = ap (λ r. key x ∷ r) (keys-append xs ys)
