-- ===== src/Messaging/Prefixes.antt =====
-- Which prefix `_strip_messaging_prefix` takes off.
use context_lattice.Prelude.{
  All, All-Has, Bool, Bool-cases, Has, Has-order_by, IsSorted, List, Text, [], All-intro, arith,
  drop, drop_while, false, if◌then◌else◌, inl, inr, is_empty, leb, length, lower, ltb, none,
  order_by, order_by-IsSorted, refl, some, starts_with, strip, true, ◌&&◌, ◌∷◌, ◌≡◌, ◌⊎◌,
}
use context_lattice.Paths.Topics.{prefixes}
use context_lattice.Messaging.{
  MessagingConfig, is_separator, longest_first, messaging_command_prefixes, strip_any_prefix,
  strip_messaging_prefix,
}

abbrev longer_first : Text → Text → Bool
longer_first a b = leb (length b) (length a)

-- What is left of a text behind a prefix.
abbrev pub behind : Text → Text → Text
behind p raw = drop_while is_separator (drop (length p) raw)

-- `p` is one of the prefixes, it stands at the start of the text, and no longer one does.
abbrev pub IsLongest : Text → List Text → Text → Type 0
IsLongest raw prefixes p =
    Has p prefixes
    × (starts_with (lower raw) p ≡ true)
    × All (λ q. (starts_with (lower raw) q && ltb (length p) (length q)) ≡ false) prefixes

abbrev pub NoneStarts : Text → List Text → Type 0
NoneStarts raw prefixes = All (λ q. starts_with (lower raw) q ≡ false) prefixes

not_longer :
    (raw p : Text) (ps : List Text)
    → All (λ q. longer_first p q ≡ true) ps
    → All (λ q. (starts_with (lower raw) q && ltb (length p) (length q)) ≡ false) ps
not_longer raw p [] h = tt
not_longer raw p (q ∷ ps) h = (ground (arith, h.0), not_longer raw p ps h.1)

-- In a list with the longest first, the first prefix that matches is the longest that does.
first_match :
    (raw : Text) (ps : List Text)
    → IsSorted longer_first ps
    → ((p : Text) × IsLongest raw ps p × (strip_any_prefix ps raw ≡ some (behind p raw)))
      ⊎ (NoneStarts raw ps × (strip_any_prefix ps raw ≡ none))
unfolding strip_any_prefix
first_match raw [] s = inr (tt, refl)
first_match raw (p ∷ ps) s = elim (Bool-cases (starts_with (lower raw) p)) [
  | inl e ↦ inl (p, (inl refl, e, (ground arith, not_longer raw p ps s.0)), rw e refl)
  | inr e ↦ elim (first_match raw ps s.1) [
    | inl m ↦ inl (m.0, (inr m.1.0, m.1.1, (rw e refl, m.1.2)), rw e m.2)
    | inr n ↦ inr ((e, n.0), rw e n.1)
  ]
]

All-order :
    (P : Text → Type 0) (le : Text → Text → Bool) (ps : List Text)
    → All P (order_by le ps)
    → All P ps
All-order P le ps h = All-intro P ps (λ x m. All-Has P x _ h ((Has-order_by le x ps).1 m))

-- Where the text starts with prefixes of commands, the longest of these is taken off, with the
-- separators behind it; where it starts with none, it is no command, or stays whole if no prefix is
-- required.
pub strip_messaging_prefix_lem :
    (config : MessagingConfig) (text : Text) (require_prefix : Bool)
    → is_empty (strip text) ≡ false
    → let prefixes = messaging_command_prefixes config in
      let raw = strip text in
      ((p : Text) × IsLongest raw prefixes p
        × (strip_messaging_prefix config text require_prefix ≡ some (behind p raw)))
      ⊎ (NoneStarts raw prefixes
          × (strip_messaging_prefix config text require_prefix
              ≡ (if require_prefix then none else some raw)))
unfolding strip_messaging_prefix longest_first
strip_messaging_prefix_lem config text require_prefix e =
    let prefixes = messaging_command_prefixes config in
    let raw = strip text in
    let sorted =
      order_by-IsSorted longer_first (λ a b h. ground arith) (λ a b c h k. ground arith) prefixes in
    elim (first_match raw (order_by longer_first prefixes) sorted) [
      | inl m ↦ inl (
        m.0,
        (
          (Has-order_by longer_first m.0 prefixes).0 m.1.0,
          m.1.1,
          All-order _ longer_first prefixes m.1.2,
        ),
        rw (e, m.2) refl,
      )
      | inr n ↦ inr (All-order _ longer_first prefixes n.0, rw (e, n.1) refl)
    ]
