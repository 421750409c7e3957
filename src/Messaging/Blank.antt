-- ===== src/Messaging/Blank.antt =====
-- Texts that are not blank: stripping them leaves something, however often.
use mathlib.Core.List.{reverse, reverse-append}
use context_lattice.Prelude.{
  Bool, Bool-cases, Text, [], ap, arith, drop_while, false, inl, inr, is_empty, is_space, not, refl,
  strip, strip_by, sym, ℕ, ◌++◌, ◌||◌, ◌∙◌, ◌∷◌, ◌≡◌,
}

-- Some code point of the text fails the test.
unfoldable pub has_other : (ℕ → Bool) → Text → Bool
has_other p [] = false
has_other p (c ∷ s) = not (p c) || has_other p s

has_other-drop_while : (p : ℕ → Bool) (s : Text) → has_other p (drop_while p s) ≡ has_other p s
unfolding has_other drop_while
has_other-drop_while p [] = refl
has_other-drop_while p (c ∷ s) = elim (Bool-cases (p c)) [
  | inl e ↦ rw e (has_other-drop_while p s)
  | inr e ↦ rw e (rw e refl)
]

empty-drop_while : (p : ℕ → Bool) (s : Text) → is_empty (drop_while p s) ≡ not (has_other p s)
unfolding has_other drop_while
empty-drop_while p [] = refl
empty-drop_while p (c ∷ s) = elim (Bool-cases (p c)) [
  | inl e ↦ rw e (empty-drop_while p s)
  | inr e ↦ rw e refl
]

has_other-append :
    (p : ℕ → Bool) (s t : Text) → has_other p (s ++ t) ≡ (has_other p s || has_other p t)
unfolding has_other
has_other-append p [] t = refl
has_other-append p (c ∷ s) t = ground (arith, has_other-append p s t)

has_other-reverse : (p : ℕ → Bool) (s : Text) → has_other p (reverse s) ≡ has_other p s
unfolding has_other
has_other-reverse p [] = refl
has_other-reverse p (c ∷ s) =
    ap (has_other p) (reverse-append (c ∷ []) s)
    ∙ has_other-append p (reverse s) (c ∷ [])
    ∙ ground (arith, has_other-reverse p s)

pub has_other-strip : (s : Text) → has_other is_space (strip s) ≡ has_other is_space s
unfolding strip strip_by
has_other-strip s =
    has_other-reverse is_space _
    ∙ has_other-drop_while is_space _
    ∙ has_other-reverse is_space _
    ∙ has_other-drop_while is_space s

empty-snoc : (s : Text) (c : ℕ) → is_empty (s ++ c ∷ []) ≡ false
empty-snoc [] c = refl
empty-snoc (d ∷ s) c = refl

empty-reverse : (s : Text) → is_empty (reverse s) ≡ is_empty s
empty-reverse [] = refl
empty-reverse (c ∷ s) = ap is_empty (reverse-append (c ∷ []) s) ∙ empty-snoc (reverse s) c

pub empty-strip : (s : Text) → is_empty (strip s) ≡ not (has_other is_space s)
unfolding strip strip_by
empty-strip s =
    empty-reverse _
    ∙ empty-drop_while is_space _
    ∙ ap not (has_other-reverse is_space _ ∙ has_other-drop_while is_space s)

pub strip_twice-empty : (s : Text) → is_empty (strip (strip s)) ≡ is_empty (strip s)
strip_twice-empty s = empty-strip (strip s) ∙ ap not (has_other-strip s) ∙ sym (empty-strip s)
