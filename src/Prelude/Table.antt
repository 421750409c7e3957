-- ===== src/Prelude/Table.antt =====
-- Tables as lists of rows: the parts of SQL that the orchestrator uses.
-- A row list stands in insertion order, and `order_by` is stable, so ties keep that order.
use Prim.Native.Nat.{ℕ, suc}
use mathlib.Core.Path.{◌≡◌, refl, sym, ap, ◌∙◌, subst}
use mathlib.Core.Logic.{inl, inr, ◌↔◌}
use mathlib.Core.Bool.{Bool, true, false≢true}
use mathlib.Core.Option.{Option, none, some, map}
use mathlib.Core.List.{List, [], ◌∷◌}
use native.Mathlib.Omega.{arith}
use context_lattice.Prelude.Tests.{if◌then◌else◌, Bool-cases}
use context_lattice.Prelude.Lists.{length, Has, All}

module _ {ℓ} {A : Type ℓ} where
  -- `SELECT * FROM l WHERE p`
  unfoldable pub select : (A → Bool) → List A → List A
  select p [] = []
  select p (x ∷ xs) = let rest = select p xs in if p x then x ∷ rest else rest

  -- `UPDATE l SET f WHERE p`
  unfoldable pub update_where : (A → Bool) → (A → A) → List A → List A
  update_where p f [] = []
  update_where p f (x ∷ xs) = (if p x then f x else x) ∷ update_where p f xs

  -- `SELECT COUNT(*) FROM l WHERE p`
  unfoldable pub count : (A → Bool) → List A → ℕ
  count p [] = 0
  count p (x ∷ xs) = let rest = count p xs in if p x then suc rest else rest

  -- The first row that passes, in table order: `fetchone` of a query by key.
  unfoldable pub find : (A → Bool) → List A → Option A
  find p [] = none
  find p (x ∷ xs) = let rest = find p xs in if p x then some x else rest

module _ {A : Type 0} (p : A → Bool) where
  pub Has-select : (x : A) (xs : List A) → Has x (select p xs) ↔ (Has x xs × (p x ≡ true))
  unfolding select
  Has-select x [] = (λ h. absurd h, λ h. absurd h.0)
  Has-select x (y ∷ ys) =
      let ih = Has-select x ys in
      elim (Bool-cases (p y)) [
        | inl e ↦ rw e (
          λ h. elim h [
            | inl q ↦ (inl q, subst (λ z. p z ≡ true) q e)
            | inr r ↦ (inr (ih.0 r).0, (ih.0 r).1)
          ],
          λ h. elim h.0 [ inl q ↦ inl q | inr r ↦ inr (ih.1 (r, h.1)) ],
        )
        | inr e ↦ rw e (
          λ h. (inr (ih.0 h).0, (ih.0 h).1),
          λ h. elim h.0 [
            | inl q ↦ absurd (false≢true (sym e ∙ (subst (λ z. p z ≡ true) (sym q) h.1)))
            | inr r ↦ ih.1 (r, h.1)
          ],
        )
      ]

  pub length-select : (xs : List A) → length (select p xs) ≡ count p xs
  unfolding select count
  length-select [] = refl
  length-select (x ∷ xs) = ground (arith, length-select xs)

  pub All-select {κ} : (P : A → Type κ) (xs : List A) → All P xs → All P (select p xs)
  unfolding select
  All-select P [] h = tt
  All-select P (x ∷ xs) h = elim (Bool-cases (p x)) [
    | inl e ↦ rw e (h.0, All-select P xs h.1)
    | inr e ↦ rw e (All-select P xs h.1)
  ]

  pub length-update_where : (f : A → A) (xs : List A) → length (update_where p f xs) ≡ length xs
  unfolding update_where
  length-update_where f [] = refl
  length-update_where f (x ∷ xs) = ap suc (length-update_where f xs)

  -- Each row of an updated table comes from a row of the table.
  pub All-update_where {κ} :
      (P : A → Type κ) (f : A → A) (xs : List A)
      → ((x : A) → p x ≡ true → P x → P (f x))
      → All P xs
      → All P (update_where p f xs)
  unfolding update_where
  All-update_where P f [] k h = tt
  All-update_where P f (x ∷ xs) k h = elim (Bool-cases (p x)) [
    | inl e ↦ rw e (k x e h.0, All-update_where P f xs k h.1)
    | inr e ↦ rw e (h.0, All-update_where P f xs k h.1)
  ]

  -- Reading a row after an update that leaves the search alone.
  pub find-update_where :
      (q : A → Bool) (f : A → A) (xs : List A)
      → ((x : A) → q (f x) ≡ q x)
      → find q (update_where p f xs) ≡ map (λ x. if p x then f x else x) (find q xs)
  unfolding update_where find
  find-update_where q f [] k = refl
  find-update_where q f (x ∷ xs) k = ground (arith, k x, find-update_where q f xs k)

  pub find-pass : (x : A) (xs : List A) → find p xs ≡ some x → (p x ≡ true) × Has x xs
  unfolding find
  find-pass x [] h = cc
  find-pass x (y ∷ ys) h = elim (Bool-cases (p y)) [
    | inl e ↦ let q : y ≡ x = ground arith in (subst (λ z. p z ≡ true) q e, inl q)
    | inr e ↦ let r = find-pass x ys (ground arith) in (r.0, inr r.1)
  ]
