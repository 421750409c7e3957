-- ===== src/Prelude/Order.antt =====
-- `ORDER BY` as a stable insertion sort: the same rows, sorted, and the least row first.
use Prim.Native.Nat.{suc}
use mathlib.Core.Path.{◌≡◌, refl, sym, ap, ◌∙◌, subst}
use mathlib.Core.Logic.{◌⊎◌, inl, inr, ◌↔◌}
use mathlib.Core.Bool.{Bool, true, false}
use mathlib.Core.Option.{Option, none, some}
use mathlib.Core.List.{List, [], ◌∷◌}
use native.Mathlib.Omega.{arith}
use context_lattice.Prelude.Tests.{if◌then◌else◌, Bool-cases}
use context_lattice.Prelude.Lists.{length, Has, All, All-Has}

module _ {ℓ} {A : Type ℓ} where
  abbrev pub head? : List A → Option A
  head? [] = none
  head? (x ∷ _) = some x

  unfoldable pub insert_by : (A → A → Bool) → A → List A → List A
  insert_by le x [] = x ∷ []
  insert_by le x (y ∷ ys) = let rest = insert_by le x ys in if le x y then x ∷ y ∷ ys else y ∷ rest

  -- `ORDER BY`, by a test that says that the first row may stand before the second
  unfoldable pub order_by : (A → A → Bool) → List A → List A
  unfolding insert_by
  order_by le [] = []
  order_by le (x ∷ xs) = insert_by le x (order_by le xs)

module _ {A : Type 0} (le : A → A → Bool) where
  Has-insert_by : (x y : A) (ys : List A) → Has x (insert_by le y ys) ↔ ((y ≡ x) ⊎ Has x ys)
  unfolding insert_by
  Has-insert_by x y [] = (λ h. h, λ h. h)
  Has-insert_by x y (z ∷ ys) =
      let ih = Has-insert_by x y ys in
      elim (Bool-cases (le y z)) [
        | inl e ↦ rw e (λ h. h, λ h. h)
        | inr e ↦ rw e (
          λ h. elim h [
            | inl q ↦ inr (inl q)
            | inr r ↦ elim (ih.0 r) [ inl a ↦ inl a | inr b ↦ inr (inr b) ]
          ],
          λ h. elim h [
            | inl a ↦ inr (ih.1 (inl a))
            | inr r ↦ elim r [ inl q ↦ inl q | inr b ↦ inr (ih.1 (inr b)) ]
          ],
        )
      ]

  pub Has-order_by : (x : A) (xs : List A) → Has x (order_by le xs) ↔ Has x xs
  unfolding order_by
  Has-order_by x [] = (λ h. h, λ h. h)
  Has-order_by x (y ∷ ys) =
      let ih = Has-order_by x ys in
      let ins = Has-insert_by x y (order_by le ys) in
      (
        λ h. elim (ins.0 h) [ inl a ↦ inl a | inr b ↦ inr (ih.0 b) ],
        λ h. elim h [ inl a ↦ ins.1 (inl a) | inr b ↦ ins.1 (inr (ih.1 b)) ],
      )

  length-insert_by : (y : A) (ys : List A) → length (insert_by le y ys) ≡ suc (length ys)
  unfolding insert_by
  length-insert_by y [] = refl
  length-insert_by y (z ∷ ys) = ground (arith, length-insert_by y ys)

  pub length-order_by : (xs : List A) → length (order_by le xs) ≡ length xs
  unfolding order_by
  length-order_by [] = refl
  length-order_by (x ∷ xs) = length-insert_by x (order_by le xs) ∙ ap suc (length-order_by xs)

  -- Each row may stand before all that follow it.
  abbrev pub IsSorted : List A → Type 0
  IsSorted [] = Unit
  IsSorted (x ∷ xs) = All (λ y. le x y ≡ true) xs × IsSorted xs

  module _ (total : (a b : A) → le a b ≡ false → le b a ≡ true)
      (trans : (a b c : A) → le a b ≡ true → le b c ≡ true → le a c ≡ true) where
    All-le :
        (x y : A) (ys : List A)
        → le x y ≡ true
        → All (λ z. le y z ≡ true) ys
        → All (λ z. le x z ≡ true) ys
    All-le x y [] e h = tt
    All-le x y (z ∷ zs) e h = (trans x y z e h.0, All-le x y zs e h.1)

    All-insert_by :
        (x y : A) (ys : List A)
        → le x y ≡ true
        → All (λ z. le x z ≡ true) ys
        → All (λ z. le x z ≡ true) (insert_by le y ys)
    unfolding insert_by
    All-insert_by x y [] e h = (e, tt)
    All-insert_by x y (z ∷ zs) e h = elim (Bool-cases (le y z)) [
      | inl q ↦ rw q (e, (h.0, h.1))
      | inr q ↦ rw q (h.0, All-insert_by x y zs e h.1)
    ]

    insert_by-IsSorted : (x : A) (xs : List A) → IsSorted xs → IsSorted (insert_by le x xs)
    unfolding insert_by
    insert_by-IsSorted x [] h = (tt, tt)
    insert_by-IsSorted x (y ∷ ys) h = elim (Bool-cases (le x y)) [
      | inl e ↦ rw e ((e, All-le x y ys e h.0), (h.0, h.1))
      | inr e ↦ rw e (All-insert_by y x ys (total x y e) h.0, insert_by-IsSorted x ys h.1)
    ]

    pub order_by-IsSorted : (xs : List A) → IsSorted (order_by le xs)
    unfolding order_by
    order_by-IsSorted [] = tt
    order_by-IsSorted (x ∷ xs) = insert_by-IsSorted x (order_by le xs) (order_by-IsSorted xs)

    -- `ORDER BY … LIMIT 1` gives a row that may stand before every row.
    pub head?-order_by-least :
        (x : A) (xs : List A)
        → head? (order_by le xs) ≡ some x
        → (y : A) → Has y xs
        → (y ≡ x) ⊎ (le x y ≡ true)
    head?-order_by-least x xs e y h =
        go (order_by le xs) e ((Has-order_by y xs).1 h) (order_by-IsSorted xs)
      where
        go : (l : List A) → head? l ≡ some x → Has y l → IsSorted l → (y ≡ x) ⊎ (le x y ≡ true)
        go [] e h s = cc
        go (z ∷ zs) e (inl q) s = let q' : z ≡ x = ground arith in inl (sym q ∙ q')
        go (z ∷ zs) e (inr h) s =
            let q' : z ≡ x = ground arith in
            inr (subst (λ w. le w y ≡ true) q' (All-Has (λ v. le z v ≡ true) y zs s.0 h))
