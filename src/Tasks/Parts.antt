-- ===== src/Tasks/Parts.antt =====
-- The condition of a claim and the claimed row, part by part.
use context_lattice.Prelude.{
  Bool, Option, Text, arith, false, inl, inr, ltb, none, not, refl, some, true, ℕ, ◌&&◌, ◌+◌, ◌<◌,
  ◌||◌, ◌≡◌, ◌⊎◌,
}
use context_lattice.Clock.{iso_leb}
use context_lattice.Tasks.{
  Status, Task, approved, blocked, canceled, failed, is_waiting, queued, running, succeeded,
}
use context_lattice.Tasks.Claim.{agent_accepts, can_claim, claim_row, is_due}

is_waiting-either : (s : Status) → is_waiting s ≡ true → (s ≡ queued) ⊎ (s ≡ approved)
is_waiting-either queued h = inl refl
is_waiting-either approved h = inr refl
is_waiting-either running h = cc
is_waiting-either blocked h = cc
is_waiting-either succeeded h = cc
is_waiting-either failed h = cc
is_waiting-either canceled h = cc

is_due-either :
    (now : ℕ) (o : Option ℕ)
    → is_due now o ≡ true
    → (o ≡ none) ⊎ ((at : ℕ) × (o ≡ some at) × (iso_leb at now ≡ true))
is_due-either now none h = inl refl
is_due-either now (some at) h = inr (at, refl, h)

gate-either : (a b : Bool) → (not a || b) ≡ true → (a ≡ false) ⊎ (b ≡ true)
gate-either true b h = inr h
gate-either false b h = inl refl

five :
    (a b c d e : Bool)
    → (a && b && c && d && e) ≡ true
    → (a ≡ true) × (b ≡ true) × (c ≡ true) × (d ≡ true) × (e ≡ true)
five a b c d e h = (ground arith, ground arith, ground arith, ground arith, ground arith)

pub can_claim-parts :
    (now : ℕ) (key : Text) (t : Task)
    → can_claim now key t ≡ true
    → ((t.status ≡ queued) ⊎ (t.status ≡ approved))
      × ((t.approval_required ≡ false) ⊎ (t.approved ≡ true))
      × (t.attempts < t.max_attempts)
      × ((t.run_after ≡ none) ⊎ ((at : ℕ) × (t.run_after ≡ some at) × (iso_leb at now ≡ true)))
      × (agent_accepts key t.agent ≡ true)
unfolding can_claim
can_claim-parts now key t h =
    let p =
      five (is_waiting t.status) (not t.approval_required || t.approved)
        (ltb t.attempts t.max_attempts) (is_due now t.run_after) (agent_accepts key t.agent) h in
    (
      is_waiting-either t.status p.0,
      gate-either t.approval_required t.approved p.1,
      ground (arith, p.2),
      is_due-either now t.run_after p.3,
      p.4,
    )

pub claim_row-fields :
    (now lease : ℕ) (name : Text) (t : Task)
    → ((claim_row now lease name t).id ≡ t.id)
      × ((claim_row now lease name t).status ≡ running)
      × ((claim_row now lease name t).claimed_by ≡ some name)
      × ((claim_row now lease name t).lease_expires_at ≡ some (now + lease))
      × ((claim_row now lease name t).attempts ≡ t.attempts + 1)
unfolding claim_row
claim_row-fields now lease name t = (refl, refl, refl, refl, refl)
