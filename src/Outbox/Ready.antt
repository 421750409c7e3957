-- ===== src/Outbox/Ready.antt =====
-- The rows that a batch may take, described without the query.
use context_lattice.Prelude.{
  Bool, List, Option, Text, [], count, false, none, not, refl, some, text_eq, true, ℕ, ◌&&◌, ◌∷◌,
  ◌≡◌,
}
use context_lattice.Clock.{iso_leb}
use context_lattice.Outbox.{
  Job, JobStatus, failed, is_waiting_job, pending, retrying, running, succeeded,
}
use context_lattice.Outbox.Batch.{is_due_job, passes, target_filter}

pub count-agree :
    (p q : Job → Bool) → ((j : Job) → p j ≡ q j) → (xs : List Job) → count p xs ≡ count q xs
unfolding count
count-agree p q h [] = refl
count-agree p q h (x ∷ xs) = rw (h x, count-agree p q h xs) refl

-- The row waits, its time has come, and its target is wanted: the one, or not the other.
abbrev pub waits : JobStatus → Bool
waits pending = true
waits retrying = true
waits s = false

abbrev pub is_wanted : Option Text → Option Text → Text → Bool
is_wanted (some (c ∷ s)) exclude t = text_eq t (c ∷ s)
is_wanted none (some (c ∷ s)) t = not (text_eq t (c ∷ s))
is_wanted (some []) (some (c ∷ s)) t = not (text_eq t (c ∷ s))
is_wanted none none t = true
is_wanted none (some []) t = true
is_wanted (some []) none t = true
is_wanted (some []) (some []) t = true

abbrev pub is_ready : ℕ → Option Text → Option Text → Job → Bool
is_ready now target exclude j =
    waits j.status && iso_leb j.next_attempt_at now && is_wanted target exclude j.target

waits-waiting : (s : JobStatus) → is_waiting_job s ≡ waits s
waits-waiting pending = refl
waits-waiting retrying = refl
waits-waiting running = refl
waits-waiting succeeded = refl
waits-waiting failed = refl

passes-wanted :
    (target exclude : Option Text) (t : Text)
    → passes (target_filter target exclude) t ≡ is_wanted target exclude t
unfolding target_filter
passes-wanted (some (c ∷ s)) exclude t = refl
passes-wanted none (some (c ∷ s)) t = refl
passes-wanted (some []) (some (c ∷ s)) t = refl
passes-wanted none none t = refl
passes-wanted none (some []) t = refl
passes-wanted (some []) none t = refl
passes-wanted (some []) (some []) t = refl

pub is_ready-due :
    (now : ℕ) (target exclude : Option Text) (j : Job)
    → is_due_job now (target_filter target exclude) j ≡ is_ready now target exclude j
unfolding is_due_job
is_ready-due now target exclude j =
    rw (waits-waiting j.status, passes-wanted target exclude j.target) refl
