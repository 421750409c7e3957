-- ===== src/Tasks/Choosing.antt =====
-- The row that `claim_next_task` selects comes first in the order of its query.
use mathlib.Core.Path.{subst}
use native.Mathlib.Nat.{le_refl}
use context_lattice.Prelude.{
  Bool-cases, Has, Has-order_by, Has-select, List, Option, Ordering, Text, [], ap, arith, compare,
  compare_int, false, head?, head?-order_by-least, inl, inr, leb, negsuc, none, pos, select, some,
  then_le, true, ℕ, ℤ, ◌+◌, ◌<◌, ◌∷◌, ◌≡◌, ◌≢◌, ◌≤◌, ◌⊎◌,
}
use context_lattice.Clock.{iso_rank}
use context_lattice.Tasks.{Task, TaskDb}
use context_lattice.Tasks.Claim.{can_claim, choose, claim_le, claim_row, due_rank}

claim_le_total : (a b : Task) → claim_le a b ≡ false → claim_le b a ≡ true
unfolding claim_le
claim_le_total a b h = ground arith

-- The three keys of the order as numbers.
keys_le_trans :
    (p q r : ℤ) (i j k x y z : ℕ)
    → then_le (compare_int q p) (then_le (compare i j) (leb x y)) ≡ true
    → then_le (compare_int r q) (then_le (compare j k) (leb y z)) ≡ true
    → then_le (compare_int r p) (then_le (compare i k) (leb x z)) ≡ true
keys_le_trans (pos p) (pos q) (pos r) i j k x y z h h' = ground arith
keys_le_trans p q r i j k x y z h h' = ground arith

claim_le_trans : (a b c : Task) → claim_le a b ≡ true → claim_le b c ≡ true → claim_le a c ≡ true
unfolding claim_le
claim_le_trans a b c =
    keys_le_trans a.priority b.priority c.priority (due_rank a.run_after) (due_rank b.run_after)
      (due_rank c.run_after) (iso_rank a.created_at) (iso_rank b.created_at) (iso_rank c.created_at)

compare_int_refl : (p : ℤ) → compare_int p p ≡ Ordering.eq
compare_int_refl (pos n) = ground arith
compare_int_refl (negsuc n) = ground arith

first_keys :
    (p q : ℤ) (i j x y : ℕ)
    → then_le (compare_int q p) (then_le (compare i j) (leb x y)) ≡ true
    → (compare_int q p ≢ Ordering.gt) × (q ≡ p → i ≤ j)
first_keys p q i j x y h = (
  λ g. cc (ap (λ o. then_le o (then_le (compare i j) (leb x y))) g),
  λ e. ground (arith, ap (λ r. compare_int r p) e, compare_int_refl p),
)

pub choose-least :
    (now : ℕ) (key : Text) (db : TaskDb) (row u : Task)
    → choose now key db ≡ some row
    → Has u db.tasks
    → can_claim now key u ≡ true
    → (u ≡ row) ⊎ (claim_le row u ≡ true)
unfolding choose
choose-least now key db row u e h fit =
    head?-order_by-least claim_le claim_le_total claim_le_trans row
      (select (can_claim now key) db.tasks) e u
      ((Has-select (can_claim now key) u db.tasks).1 (h, fit))

-- An order by the claim's keys, read off the two rows.
pub before_claimed :
    (now lease : ℕ) (worker : Text) (row u : Task)
    → (u ≡ row) ⊎ (claim_le row u ≡ true)
    → (compare_int u.priority (claim_row now lease worker row).priority ≢ Ordering.gt)
      × (u.priority ≡ (claim_row now lease worker row).priority
          → due_rank (claim_row now lease worker row).run_after ≤ due_rank u.run_after)
unfolding claim_row claim_le
before_claimed now lease worker row u (inl e) =
    rw (ap (λ t. t.priority) e, compare_int_refl row.priority) ((λ h. cc), λ _. rw e (le_refl _))
before_claimed now lease worker row u (inr h) =
    first_keys row.priority u.priority (due_rank row.run_after) (due_rank u.run_after)
      (iso_rank row.created_at) (iso_rank u.created_at) h

pub choose-none :
    (now : ℕ) (key : Text) (db : TaskDb)
    → choose now key db ≡ none
    → (u : Task) → Has u db.tasks
    → can_claim now key u ≡ false
unfolding choose
choose-none now key db e u h = elim (Bool-cases (can_claim now key u)) [
  | inl c ↦ absurd (
      no_head _ e (
        (Has-order_by claim_le u (select (can_claim now key) db.tasks)).1
          ((Has-select (can_claim now key) u db.tasks).1 (h, c))))
  | inr c ↦ c
]
  where
    no_head : (l : List Task) → head? l ≡ none → Has u l → ⊥
    no_head [] e m = m
    no_head (x ∷ xs) e m = cc

pub due_rank-early :
    (x y : Option ℕ)
    → due_rank x ≤ due_rank y
    → (a b : ℕ) → x ≡ some a
    → y ≡ some b
    → a < b + 1_000_000
unfolding iso_rank
due_rank-early x y h a b p q =
    let k : due_rank (some a) ≤ due_rank (some b) =
      subst (λ z. due_rank (some a) ≤ due_rank z) q (subst (λ z. due_rank z ≤ due_rank y) p h) in
    ground (arith, k)
