-- ===== src/Prelude/Lists.antt =====
-- Lists measured by native numbers, membership and "for all" by recursion.
use Prim.Native.Nat.{ℕ, zero, suc, ◌+◌, ◌-◌, ◌≤◌, min}
use mathlib.Core.Path.{◌≡◌, refl, ap, subst}
use mathlib.Core.Logic.{◌⊎◌, inl, inr, ◌↔◌}
use mathlib.Core.Bool.{Bool, true, false}
use mathlib.Core.List.{List, [], ◌∷◌, ◌++◌}
use native.Mathlib.Omega.{arith}

module _ {ℓ} {A : Type ℓ} where
  abbrev pub length : List A → ℕ
  length [] = 0
  length (x ∷ xs) = suc (length xs)

  abbrev pub is_nil : List A → Bool
  is_nil [] = true
  is_nil (_ ∷ _) = false

  abbrev pub take : ℕ → List A → List A
  take zero xs = []
  take (suc n) [] = []
  take (suc n) (x ∷ xs) = x ∷ take n xs

  abbrev pub drop : ℕ → List A → List A
  drop zero xs = xs
  drop (suc n) [] = []
  drop (suc n) (x ∷ xs) = drop n xs

  pub length-append : (xs ys : List A) → length (xs ++ ys) ≡ length xs + length ys
  length-append [] ys = omega arith
  length-append (x ∷ xs) ys = omega (arith, length-append xs ys)

  pub length-take : (n : ℕ) (xs : List A) → length (take n xs) ≡ min n (length xs)
  length-take zero xs = omega arith
  length-take (suc n) [] = omega arith
  length-take (suc n) (x ∷ xs) = omega (arith, length-take n xs)

  pub length-drop : (n : ℕ) (xs : List A) → length (drop n xs) ≡ length xs - n
  length-drop zero xs = omega arith
  length-drop (suc n) [] = omega arith
  length-drop (suc n) (x ∷ xs) = omega (arith, length-drop n xs)

  pub take-all : (n : ℕ) (xs : List A) → length xs ≤ n → take n xs ≡ xs
  take-all zero [] h = refl
  take-all zero (x ∷ xs) h = absurd (omega arith)
  take-all (suc n) [] h = refl
  take-all (suc n) (x ∷ xs) h = ap (λ r. x ∷ r) (take-all n xs (omega arith))

module _ {ℓ κ} {A : Type ℓ} where
  abbrev pub All : (A → Type κ) → List A → Type κ
  All P [] = Unit
  All P (x ∷ xs) = P x × All P xs

module _ {A : Type 0} where
  -- `Has x l`: `x` stands in `l`. By recursion, so that the tactics read it as a disjunction.
  abbrev pub Has : A → List A → Type 0
  Has x [] = ⊥
  Has x (y ∷ ys) = (y ≡ x) ⊎ Has x ys

  pub Has-append : (x : A) (xs ys : List A) → Has x (xs ++ ys) ↔ (Has x xs ⊎ Has x ys)
  Has-append x [] ys = (λ h. inr h, λ h. elim h [ inl a ↦ absurd a | inr b ↦ b ])
  Has-append x (z ∷ xs) ys =
      let ih = Has-append x xs ys in
      (
        λ h. elim h [
          | inl e ↦ inl (inl e)
          | inr r ↦ elim (ih.0 r) [ inl a ↦ inl (inr a) | inr b ↦ inr b ]
        ],
        λ h. elim h [
          | inl l ↦ elim l [ inl e ↦ inl e | inr a ↦ inr (ih.1 (inl a)) ]
          | inr b ↦ inr (ih.1 (inr b))
        ],
      )

  pub Has-take : (n : ℕ) (x : A) (xs : List A) → Has x (take n xs) → Has x xs
  Has-take zero x xs h = absurd h
  Has-take (suc n) x [] h = h
  Has-take (suc n) x (y ∷ ys) (inl e) = inl e
  Has-take (suc n) x (y ∷ ys) (inr h) = inr (Has-take n x ys h)

  pub All-Has : (P : A → Type 0) (x : A) (xs : List A) → All P xs → Has x xs → P x
  All-Has P x [] a h = absurd h
  All-Has P x (y ∷ ys) a (inl e) = subst P e a.0
  All-Has P x (y ∷ ys) a (inr h) = All-Has P x ys a.1 h

pub All-intro {κ} :
    {A : Type 0} (P : A → Type κ) (xs : List A) → ((x : A) → Has x xs → P x) → All P xs
All-intro P [] k = tt
All-intro P (x ∷ xs) k = (k x (inl refl), All-intro P xs (λ y h. k y (inr h)))

module _ {ℓ κ} {A : Type ℓ} (P : A → Type κ) where
  pub All-append : (xs ys : List A) → All P xs → All P ys → All P (xs ++ ys)
  All-append [] ys hx hy = hy
  All-append (x ∷ xs) ys hx hy = (hx.0, All-append xs ys hx.1 hy)

  pub All-middle : (xs : List A) (y : A) (zs : List A) → All P (xs ++ y ∷ zs) → P y
  All-middle [] y zs h = h.0
  All-middle (x ∷ xs) y zs h = All-middle xs y zs h.1

  pub All-without : (xs : List A) (y : A) (zs : List A) → All P (xs ++ y ∷ zs) → All P (xs ++ zs)
  All-without [] y zs h = h.1
  All-without (x ∷ xs) y zs h = (h.0, All-without xs y zs h.1)

  pub All-take : (n : ℕ) (xs : List A) → All P xs → All P (take n xs)
  All-take zero xs h = tt
  All-take (suc n) [] h = tt
  All-take (suc n) (x ∷ xs) h = (h.0, All-take n xs h.1)

pub All-imp {ℓ κ μ} :
    {A : Type ℓ} (P : A → Type κ) (Q : A → Type μ) (xs : List A)
    → ((x : A) → P x → Q x)
    → All P xs
    → All Q xs
All-imp P Q [] f h = tt
All-imp P Q (x ∷ xs) f h = (f x h.0, All-imp P Q xs f h.1)
