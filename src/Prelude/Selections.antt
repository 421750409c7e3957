-- ===== src/Prelude/Selections.antt =====
-- Selecting, sorting and cutting keep keys distinct.
use Prim.Native.Nat.{ℕ, zero, suc}
use mathlib.Core.Path.{◌≡◌, refl, ap, ◌∙◌}
use mathlib.Core.Logic.{inl, inr}
use mathlib.Core.Bool.{Bool, false, ◌||◌}
use mathlib.Core.List.{List, [], ◌∷◌, map}
use native.Mathlib.Omega.{arith}
use context_lattice.Prelude.Tests.{Bool-cases}
use context_lattice.Prelude.Lists.{take}
use context_lattice.Prelude.Table.{select}
use context_lattice.Prelude.Order.{insert_by, order_by}
use context_lattice.Prelude.Keyed.{occurs, Distinct}

module _ {A K : Type 0} (key : A → K) (eq : K → K → Bool) where
  occurs-select :
      (p : A → Bool) (k : K) (xs : List A)
      → occurs eq k (map key xs) ≡ false
      → occurs eq k (map key (select p xs)) ≡ false
  unfolding occurs select
  occurs-select p k [] h = refl
  occurs-select p k (x ∷ xs) h = ground (arith, occurs-select p k xs)

  pub Distinct-select :
      (p : A → Bool) (xs : List A) → Distinct eq (map key xs) → Distinct eq (map key (select p xs))
  unfolding select
  Distinct-select p [] d = tt
  Distinct-select p (x ∷ xs) d = elim (Bool-cases (p x)) [
    | inl e ↦ rw e (occurs-select p (key x) xs d.0, Distinct-select p xs d.1)
    | inr e ↦ rw e (Distinct-select p xs d.1)
  ]

  occurs-take :
      (n : ℕ) (k : K) (xs : List A)
      → occurs eq k (map key xs) ≡ false
      → occurs eq k (map key (take n xs)) ≡ false
  unfolding occurs
  occurs-take zero k xs h = refl
  occurs-take (suc n) k [] h = refl
  occurs-take (suc n) k (x ∷ xs) h = ground (arith, occurs-take n k xs)

  pub Distinct-take :
      (n : ℕ) (xs : List A) → Distinct eq (map key xs) → Distinct eq (map key (take n xs))
  Distinct-take zero xs d = tt
  Distinct-take (suc n) [] d = tt
  Distinct-take (suc n) (x ∷ xs) d = (occurs-take n (key x) xs d.0, Distinct-take n xs d.1)

  module _ (symmetric : (a b : K) → eq a b ≡ eq b a) (le : A → A → Bool) where
    occurs-insert_by :
        (k : K) (x : A) (xs : List A)
        → occurs eq k (map key (insert_by le x xs)) ≡ (eq (key x) k || occurs eq k (map key xs))
    unfolding occurs insert_by
    occurs-insert_by k x [] = refl
    occurs-insert_by k x (y ∷ ys) = ground (arith, occurs-insert_by k x ys)

    Distinct-insert_by :
        (x : A) (xs : List A)
        → occurs eq (key x) (map key xs) ≡ false
        → Distinct eq (map key xs)
        → Distinct eq (map key (insert_by le x xs))
    unfolding occurs insert_by
    Distinct-insert_by x [] h d = (refl, tt)
    Distinct-insert_by x (y ∷ ys) h d = elim (Bool-cases (le x y)) [
      | inl e ↦ rw e (h, d)
      | inr e ↦ rw e (
        occurs-insert_by (key y) x ys ∙ ground (arith, symmetric (key x) (key y), d.0),
        Distinct-insert_by x ys (ground arith) d.1,
      )
    ]

    occurs-order_by :
        (k : K) (xs : List A) → occurs eq k (map key (order_by le xs)) ≡ occurs eq k (map key xs)
    unfolding occurs order_by
    occurs-order_by k [] = refl
    occurs-order_by k (x ∷ xs) =
        occurs-insert_by k x (order_by le xs) ∙ ap (λ b. eq (key x) k || b) (occurs-order_by k xs)

    pub Distinct-order_by :
        (xs : List A) → Distinct eq (map key xs) → Distinct eq (map key (order_by le xs))
    unfolding order_by
    Distinct-order_by [] d = tt
    Distinct-order_by (x ∷ xs) d =
        Distinct-insert_by x (order_by le xs) (occurs-order_by (key x) xs ∙ d.0)
          (Distinct-order_by xs d.1)
