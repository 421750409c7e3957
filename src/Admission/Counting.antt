-- ===== src/Admission/Counting.antt =====
-- Counting the rows whose ids stand in a list.
use mathlib.Core.Bool.{false≢true}
use mathlib.Core.Path.{subst}
use context_lattice.Prelude.{
  All, Bool, Bool-cases, Distinct, Has, List, [], ap, arith, count, false, inl, inr, length, not,
  occurs, occurs-Has, refl, select, suc, sym, true, ℕ, ◌&&◌, ◌+◌, ◌||◌, ◌∙◌, ◌∷◌, ◌≡◌,
}
use context_lattice.Outbox.{Job, job_ids, same_id}
use context_lattice.Outbox.Taking.{same_id_sound}

module _ {A : Type 0} (p q : A → Bool) where
  count-or :
      (xs : List A)
      → All (λ x. (p x && q x) ≡ false) xs
      → count (λ x. p x || q x) xs ≡ count p xs + count q xs
  unfolding count
  count-or [] h = refl
  count-or (x ∷ xs) h = ground (arith, count-or xs h.1, h.0)

  -- Rows that are counted by `p` are kept or taken out by `q`.
  pub count-select :
      (xs : List A)
      → All (λ x. (q x && not (p x)) ≡ false) xs
      → count p xs ≡ count p (select (λ x. not (q x)) xs) + count q xs
  unfolding count select
  count-select [] h = refl
  count-select (x ∷ xs) h = ground (arith, count-select xs h.1, h.0)

pub same_id_refl : (a : ℕ) → same_id a a ≡ true
same_id_refl a = ground arith

pub same_id_comm : (a b : ℕ) → same_id a b ≡ same_id b a
same_id_comm a b = ground arith

count-absent :
    (i : ℕ) (js : List Job)
    → occurs same_id i (job_ids js) ≡ false
    → count (λ j. same_id i j.id) js ≡ 0
unfolding count occurs
count-absent i [] h = refl
count-absent i (j ∷ js) h = ground (arith, count-absent i js, same_id_comm i j.id)

count-one :
    (y : Job) (js : List Job)
    → Distinct same_id (job_ids js)
    → Has y js
    → count (λ j. same_id y.id j.id) js ≡ 1
unfolding count
count-one y [] d h = absurd h
count-one y (j ∷ js) d (inl e) =
    subst (λ z. count (λ x. same_id z.id x.id) (j ∷ js) ≡ 1) e
      (rw (same_id_refl j.id) (ap suc (count-absent j.id js d.0)))
count-one y (j ∷ js) d (inr h) = elim (Bool-cases (same_id y.id j.id)) [
  | inl p ↦ absurd (
      false≢true (
        sym d.0
        ∙ ap (λ i. occurs same_id i (job_ids js)) (sym (same_id_sound y.id j.id p))
        ∙ occurs-Has (λ (r : Job). r.id) same_id same_id_sound same_id_refl y js h))
  | inr p ↦ rw p (count-one y js d.1 h)
]

pub count-none : (js : List Job) → count (λ (j : Job). false) js ≡ 0
unfolding count
count-none [] = refl
count-none (j ∷ js) = count-none js

-- Rows of the table with distinct ids, picked in any order, are as many as the table's rows with these
-- ids.
pub count-picked :
    (picked jobs : List Job)
    → Distinct same_id (job_ids picked)
    → Distinct same_id (job_ids jobs)
    → All (λ y. Has y jobs) picked
    → count (λ j. occurs same_id j.id (job_ids picked)) jobs ≡ length picked
unfolding occurs count
count-picked [] jobs d e h = count-none jobs
count-picked (y ∷ picked) jobs d e h =
    count-or (λ j. same_id y.id j.id) (λ j. occurs same_id j.id (job_ids picked)) jobs (apart jobs)
    ∙ ground (arith, count-one y jobs e h.0, count-picked picked jobs d.1 e h.1)
  where
    disjoint : (j : Job) → (same_id y.id j.id && occurs same_id j.id (job_ids picked)) ≡ false
    disjoint j = elim (Bool-cases (same_id y.id j.id)) [
      | inl p ↦
          rw p (ap (λ i. occurs same_id i (job_ids picked)) (sym (same_id_sound y.id j.id p)) ∙ d.0)
      | inr p ↦ rw p refl
    ]

    apart :
        (js : List Job)
        → All (λ j. (same_id y.id j.id && occurs same_id j.id (job_ids picked)) ≡ false) js
    apart [] = tt
    apart (j ∷ js) = (disjoint j, apart js)
