-- ===== src/Workers/Effects.antt =====
-- What settling a job does to the table: it moves rows to another status, which is never "running", and
-- it takes the job's own row out of "running".
use context_lattice.Prelude.{
  All, Bool, Bool-cases, List, Text, [], arith, false, inl, inr, not, refl, text_eq, update_where,
  ℕ, ◌&&◌, ◌∙◌, ◌∷◌, ◌≡◌,
}
use context_lattice.Outbox.{Job, is_running_job, same_id}

-- The same rows, in the same order, with their ids and targets; none has begun to run.
abbrev pub Moved : List Job → List Job → Type 0
Moved [] [] = Unit
Moved [] (b ∷ ks) = ⊥
Moved (a ∷ js) [] = ⊥
Moved (a ∷ js) (b ∷ ks) =
    (b.id ≡ a.id)
    × (b.target ≡ a.target)
    × (is_running_job b.status ≡ (is_running_job a.status && is_running_job b.status))
    × Moved js ks

pub Moved-refl : (js : List Job) → Moved js js
Moved-refl [] = tt
Moved-refl (j ∷ js) = (refl, refl, ground arith, Moved-refl js)

pub Moved-trans : (js ks ls : List Job) → Moved js ks → Moved ks ls → Moved js ls
Moved-trans [] [] [] h k = tt
Moved-trans [] [] (c ∷ ls) h k = absurd k
Moved-trans [] (b ∷ ks) ls h k = absurd h
Moved-trans (a ∷ js) [] ls h k = absurd h
Moved-trans (a ∷ js) (b ∷ ks) [] h k = absurd k
Moved-trans (a ∷ js) (b ∷ ks) (c ∷ ls) h k =
    (k.0 ∙ h.0, k.1 ∙ h.1, ground arith, Moved-trans js ks ls h.3 k.3)

pub Moved-update :
    (p : Job → Bool) (f : Job → Job) (js : List Job)
    → ((j : Job)
        → ((f j).id ≡ j.id) × ((f j).target ≡ j.target) × (is_running_job (f j).status ≡ false))
    → Moved js (update_where p f js)
unfolding update_where
Moved-update p f [] k = tt
Moved-update p f (j ∷ js) k = elim (Bool-cases (p j)) [
  | inl e ↦ rw e ((k j).0, (k j).1, rw (k j).2 (ground arith), Moved-update p f js k)
  | inr e ↦ rw e (refl, refl, ground arith, Moved-update p f js k)
]

-- The rows with an id have this target; and none of them runs.
abbrev pub HasTarget : ℕ → Text → List Job → Type 0
HasTarget i t js = All (λ r. (same_id r.id i && not (text_eq r.target t)) ≡ false) js

abbrev pub IsQuiet : ℕ → List Job → Type 0
IsQuiet i js = All (λ r. (same_id r.id i && is_running_job r.status) ≡ false) js

pub Moved-HasTarget :
    (i : ℕ) (t : Text) (js ks : List Job) → Moved js ks → HasTarget i t js → HasTarget i t ks
Moved-HasTarget i t [] [] m h = tt
Moved-HasTarget i t [] (b ∷ ks) m h = absurd m
Moved-HasTarget i t (a ∷ js) [] m h = absurd m
Moved-HasTarget i t (a ∷ js) (b ∷ ks) m h = (rw (m.0, m.1) h.0, Moved-HasTarget i t js ks m.3 h.1)

pub Moved-IsQuiet : (i : ℕ) (js ks : List Job) → Moved js ks → IsQuiet i js → IsQuiet i ks
Moved-IsQuiet i [] [] m h = tt
Moved-IsQuiet i [] (b ∷ ks) m h = absurd m
Moved-IsQuiet i (a ∷ js) [] m h = absurd m
Moved-IsQuiet i (a ∷ js) (b ∷ ks) m h =
    (rw m.0 (ground (arith, h.0, m.2)), Moved-IsQuiet i js ks m.3 h.1)

-- An update of all rows with an id, to a status that is not "running".
pub update-IsQuiet :
    (i : ℕ) (p : Job → Bool) (f : Job → Job) (js : List Job)
    → ((j : Job) → ((f j).id ≡ j.id) × (is_running_job (f j).status ≡ false))
    → All (λ r. (same_id r.id i && is_running_job r.status && not (p r)) ≡ false) js
    → IsQuiet i (update_where p f js)
unfolding update_where
update-IsQuiet i p f [] k h = tt
update-IsQuiet i p f (j ∷ js) k h = elim (Bool-cases (p j)) [
  | inl e ↦ rw e (rw (k j).1 (ground arith), update-IsQuiet i p f js k h.1)
  | inr e ↦ rw e (ground (arith, h.0, e), update-IsQuiet i p f js k h.1)
]
