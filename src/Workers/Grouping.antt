-- ===== src/Workers/Grouping.antt =====
-- Grouping a batch by target and cutting it into chunks loses no job.
use mathlib.Core.Path.{subst}
use context_lattice.Prelude.{
  All, All-append, Bool-cases, Has, Has-append, List, Text, [], arith, drop, inl, inr, length,
  length-drop, max, refl, suc, sym, take, text_eq, text_eq_sound, zero, ℕ, ◌∷◌, ◌≡◌, ◌≤◌, ◌⊎◌,
}
use context_lattice.Outbox.{Job}
use context_lattice.Workers.Turn.{add_job, chunk_rows, chunks, jobs_by_target, pop_jobs}

-- A job stands in one of the lists; in one of the groups.
abbrev pub InChunk : Job → List (List Job) → Type 0
InChunk j [] = ⊥
InChunk j (js ∷ rest) = Has j js ⊎ InChunk j rest

abbrev pub InGroup : Job → List (Text × List Job) → Type 0
InGroup j [] = ⊥
InGroup j ((t, js) ∷ groups) = Has j js ⊎ InGroup j groups

split : (n : ℕ) (j : Job) (xs : List Job) → Has j xs → Has j (take n xs) ⊎ Has j (drop n xs)
split zero j xs h = inr h
split (suc n) j [] h = absurd h
split (suc n) j (x ∷ xs) (inl e) = inl (inl e)
split (suc n) j (x ∷ xs) (inr h) = elim (split n j xs h) [ inl a ↦ inl (inr a) | inr b ↦ inr b ]

chunks-all :
    (fuel size : ℕ) (j : Job) (xs : List Job)
    → 1 ≤ size
    → length xs ≤ fuel
    → Has j xs
    → InChunk j (chunks fuel size xs)
unfolding chunks
chunks-all fuel size j [] p le h = absurd h
chunks-all zero size j (x ∷ xs) p le h = absurd (omega arith)
chunks-all (suc fuel) size j (x ∷ xs) p le h = elim (split size j (x ∷ xs) h) [
  | inl a ↦ inl a
  | inr b ↦ inr (
      chunks-all fuel size j (drop size (x ∷ xs)) p (omega (arith, length-drop size (x ∷ xs), le))
        b)
]

pub chunk_rows-all :
    (j : Job) (xs : List Job) (size : ℕ) → Has j xs → InChunk j (chunk_rows xs size)
unfolding chunk_rows
chunk_rows-all j xs size h = chunks-all (length xs) (max 1 size) j xs (omega arith) (omega arith) h

add_job-all :
    (j job : Job) (groups : List (Text × List Job))
    → (job ≡ j) ⊎ InGroup j groups
    → InGroup j (add_job job groups)
unfolding add_job
add_job-all j job [] (inl e) = inl (inl e)
add_job-all j job [] (inr h) = absurd h
add_job-all j job ((t, js) ∷ groups) (inl e) = elim (Bool-cases (text_eq t job.target)) [
  | inl p ↦ rw p (inl ((Has-append j js (job ∷ [])).1 (inr (inl e))))
  | inr p ↦ rw p (inr (add_job-all j job groups (inl e)))
]
add_job-all j job ((t, js) ∷ groups) (inr (inl h)) = elim (Bool-cases (text_eq t job.target)) [
  | inl p ↦ rw p (inl ((Has-append j js (job ∷ [])).1 (inl h)))
  | inr p ↦ rw p (inl h)
]
add_job-all j job ((t, js) ∷ groups) (inr (inr h)) = elim (Bool-cases (text_eq t job.target)) [
  | inl p ↦ rw p (inr h)
  | inr p ↦ rw p (inr (add_job-all j job groups (inr h)))
]

grouped :
    (j : Job) (groups : List (Text × List Job)) (jobs : List Job)
    → InGroup j groups ⊎ Has j jobs
    → InGroup j (jobs_by_target groups jobs)
unfolding jobs_by_target
grouped j groups [] (inl h) = h
grouped j groups [] (inr h) = absurd h
grouped j groups (job ∷ jobs) (inl h) =
    grouped j (add_job job groups) jobs (inl (add_job-all j job groups (inr h)))
grouped j groups (job ∷ jobs) (inr (inl e)) =
    grouped j (add_job job groups) jobs (inl (add_job-all j job groups (inl e)))
grouped j groups (job ∷ jobs) (inr (inr h)) = grouped j (add_job job groups) jobs (inr h)

pub jobs_by_target-all :
    (j : Job) (jobs : List Job) → Has j jobs → InGroup j (jobs_by_target [] jobs)
jobs_by_target-all j jobs h = grouped j [] jobs (inr h)

pub pop_jobs-all :
    (target : Text) (j : Job) (groups : List (Text × List Job))
    → InGroup j groups
    → Has j (pop_jobs target groups).0 ⊎ InGroup j (pop_jobs target groups).1
unfolding pop_jobs
pop_jobs-all target j [] h = absurd h
pop_jobs-all target j ((t, js) ∷ groups) (inl h) = elim (Bool-cases (text_eq t target)) [
  | inl p ↦ rw p (inl h)
  | inr p ↦ rw p (inr (inl h))
]
pop_jobs-all target j ((t, js) ∷ groups) (inr h) = elim (Bool-cases (text_eq t target)) [
  | inl p ↦ rw p (inr h)
  | inr p ↦ rw p (elim (pop_jobs-all target j groups h) [ inl a ↦ inl a | inr b ↦ inr (inr b) ])
]

-- Each group holds jobs of its target.
abbrev pub AreGrouped : List (Text × List Job) → Type 0
AreGrouped groups = All (λ g. All (λ j. j.target ≡ g.0) (g.1)) groups

add_job-AreGrouped :
    (job : Job) (groups : List (Text × List Job))
    → AreGrouped groups
    → AreGrouped (add_job job groups)
unfolding add_job
add_job-AreGrouped job [] h = ((refl, tt), tt)
add_job-AreGrouped job ((t, js) ∷ groups) h = elim (Bool-cases (text_eq t job.target)) [
  | inl p ↦ rw p (
    All-append (λ j. j.target ≡ t) js (job ∷ []) h.0 (sym (text_eq_sound t job.target p), tt),
    h.1,
  )
  | inr p ↦ rw p (h.0, add_job-AreGrouped job groups h.1)
]

grouped-AreGrouped :
    (groups : List (Text × List Job)) (jobs : List Job)
    → AreGrouped groups
    → AreGrouped (jobs_by_target groups jobs)
unfolding jobs_by_target
grouped-AreGrouped groups [] h = h
grouped-AreGrouped groups (job ∷ jobs) h =
    grouped-AreGrouped (add_job job groups) jobs (add_job-AreGrouped job groups h)

pub jobs_by_target-AreGrouped : (jobs : List Job) → AreGrouped (jobs_by_target [] jobs)
jobs_by_target-AreGrouped jobs = grouped-AreGrouped [] jobs tt

pub pop_jobs-AreGrouped :
    (target : Text) (groups : List (Text × List Job))
    → AreGrouped groups
    → All (λ j. j.target ≡ target) (pop_jobs target groups).0
      × AreGrouped (pop_jobs target groups).1
unfolding pop_jobs
pop_jobs-AreGrouped target [] h = (tt, tt)
pop_jobs-AreGrouped target ((t, js) ∷ groups) h = elim (Bool-cases (text_eq t target)) [
  | inl p ↦ rw p (subst (λ u. All (λ j. j.target ≡ u) js) (text_eq_sound t target p) h.0, h.1)
  | inr p ↦ let r = pop_jobs-AreGrouped target groups h.1 in rw p (r.0, (h.0, r.1))
]
