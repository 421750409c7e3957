-- ===== src/Paths/Clean.antt =====
-- What `normalize_memory_path` returns: a clean relative path.
use context_lattice.Prelude.{
  All, Bool, Bool-cases, List, Text, [], arith, codes, contains, drop_while, false, http_error,
  if◌then◌else◌, inl, inr, is_empty, not, refl, reply, select, text_eq, true, ℕ, ◌&&◌, ◌++◌, ◌==◌,
  ◌∙◌, ◌∷◌, ◌≡◌, ◌⊎◌,
}
use context_lattice.Paths.{
  all_parts, collapse, forward, is_part, join, normalize_memory_path, path_parts, slash, split,
}

-- No code point of the text is `c`.
unfoldable pub lacks : ℕ → Text → Bool
lacks c [] = true
lacks c (x ∷ s) = not (x == c) && lacks c s

-- A part of a clean path.
pub record IsCleanPart (p : Text) : Type 0 where
  pub part : is_part p ≡ true
  pub not_parent : text_eq p (codes "..") ≡ false
  pub no_slash : lacks slash p ≡ true
  pub no_backslash : lacks 92 p ≡ true

split-lacks :
    (c : ℕ) (s : Text) → (lacks c (split c s).0 ≡ true) × All (λ p. lacks c p ≡ true) (split c s).1
unfolding split lacks
split-lacks c [] = (refl, tt)
split-lacks c (x ∷ s) =
    let ih = split-lacks c s in
    elim (Bool-cases (x == c)) [
      | inl e ↦ rw e (refl, (ih.0, ih.1))
      | inr e ↦ rw e (rw e (ih.0), ih.1)
    ]

-- Splitting keeps what holds of every code point.
split-keeps :
    (c b : ℕ) (s : Text)
    → lacks b s ≡ true
    → (lacks b (split c s).0 ≡ true) × All (λ p. lacks b p ≡ true) (split c s).1
unfolding split lacks
split-keeps c b [] h = (refl, tt)
split-keeps c b (x ∷ s) h =
    let ih = split-keeps c b s (ground arith) in
    let x_ok : (x == b) ≡ false = ground arith in
    elim (Bool-cases (x == c)) [
      | inl e ↦ rw e (refl, (ih.0, ih.1))
      | inr e ↦ rw e (rw x_ok (ih.0), ih.1)
    ]

lacks-forward : (s : Text) → lacks 92 (forward s) ≡ true
unfolding lacks
lacks-forward [] = refl
lacks-forward (x ∷ s) = ground (arith, lacks-forward s)

lacks-drop_while :
    (b : ℕ) (p : ℕ → Bool) (s : Text) → lacks b s ≡ true → lacks b (drop_while p s) ≡ true
unfolding lacks drop_while
lacks-drop_while b p [] h = refl
lacks-drop_while b p (x ∷ s) h = ground (arith, lacks-drop_while b p s)

lacks-collapse :
    (b : ℕ) (after : Bool) (s : Text) → lacks b s ≡ true → lacks b (collapse after s) ≡ true
unfolding lacks collapse
lacks-collapse b after [] h = refl
lacks-collapse b after (x ∷ s) h = ground (arith, lacks-collapse b true s, lacks-collapse b false s)

-- Joining and splitting again.
split-part : (c : ℕ) (p : Text) → lacks c p ≡ true → split c p ≡ (p, [])
unfolding split lacks
split-part c [] h = refl
split-part c (x ∷ p) h =
    let x_ok : (x == c) ≡ false = ground arith in rw (x_ok, split-part c p (ground arith)) refl

split-append :
    (c : ℕ) (p s : Text) → lacks c p ≡ true → split c (p ++ c ∷ s) ≡ (p, all_parts (split c s))
unfolding split lacks
split-append c [] s h = let same : (c == c) ≡ true = ground arith in rw same refl
split-append c (x ∷ p) s h =
    let x_ok : (x == c) ≡ false = ground arith in rw (x_ok, split-append c p s (ground arith)) refl

pub split-join :
    (c : ℕ) (p : Text) (ps : List Text)
    → lacks c p ≡ true
    → All (λ q. lacks c q ≡ true) ps
    → split c (join c (p ∷ ps)) ≡ (p, ps)
unfolding join
split-join c p [] h k = split-part c p h
split-join c p (q ∷ ps) h k =
    split-append c p (join c (q ∷ ps)) h ∙ rw (split-join c q ps k.0 k.1) refl

clean-select :
    (ps : List Text)
    → All (λ p. lacks slash p ≡ true) ps
    → All (λ p. lacks 92 p ≡ true) ps
    → contains (select is_part ps) (codes "..") ≡ false
    → All IsCleanPart (select is_part ps)
unfolding select contains
clean-select [] s b h = tt
clean-select (p ∷ ps) s b h = elim (Bool-cases (is_part p)) [
  | inl e ↦ rw e (
    record { part = e; not_parent = ground arith; no_slash = s.0; no_backslash = b.0 },
    clean-select ps s.1 b.1 (ground arith),
  )
  | inr e ↦ rw e (clean-select ps s.1 b.1 (ground arith))
]

-- The empty path, or one whose parts are all clean.
abbrev pub IsCleanPath : Text → Type 0
IsCleanPath out = (out ≡ []) ⊎ All IsCleanPart (all_parts (split slash out))

pub no_slashes : (ps : List Text) → All IsCleanPart ps → All (λ p. lacks slash p ≡ true) ps
no_slashes [] h = tt
no_slashes (p ∷ ps) h = (h.0.no_slash, no_slashes ps h.1)

join-IsCleanPath : (ps : List Text) → All IsCleanPart ps → IsCleanPath (join slash ps)
unfolding join
join-IsCleanPath [] h = inl refl
join-IsCleanPath (p ∷ ps) h = inr (rw (split-join slash p ps h.0.no_slash (no_slashes ps h.1)) h)

module _ (unquote : Text → Text) where
  pub path_parts-clean :
      (value : Text)
      → contains (path_parts unquote value) (codes "..") ≡ false
      → All IsCleanPart (path_parts unquote value)
  unfolding path_parts
  path_parts-clean value h =
      let s = collapse false (drop_while (λ x. x == slash) (forward (unquote value))) in
      clean-select (all_parts (split slash s)) (split-lacks slash s)
        (split-keeps slash 92 s
          (lacks-collapse 92 false _ (lacks-drop_while 92 _ _ (lacks-forward (unquote value)))))
        h

  -- The two ways in which a path is accepted.
  pub accepted :
      (value out : Text)
      → normalize_memory_path unquote value ≡ reply out
      → (out ≡ [])
        ⊎ ((contains (path_parts unquote value) (codes "..") ≡ false)
            × (out ≡ join slash (path_parts unquote value)))
  unfolding normalize_memory_path
  accepted value out h =
      go (is_empty value) (contains (path_parts unquote value) (codes "..")) refl h
    where
      go :
          (empty parent : Bool)
          → contains (path_parts unquote value) (codes "..") ≡ parent
          → (if empty
              then reply []
              else if parent
              then http_error 400
              else reply (join slash (path_parts unquote value)))
            ≡ reply out
          → (out ≡ [])
            ⊎ ((contains (path_parts unquote value) (codes "..") ≡ false)
                × (out ≡ join slash (path_parts unquote value)))
      go true parent p e = inl cc
      go false true p e = cc
      go false false p e = inr (p, cc)

  -- A path that is accepted is empty, or its parts between slashes are neither empty nor "." nor "..",
  -- and hold no backslash: it cannot leave the directory that it is joined to, and is relative.
  pub normalize-IsCleanPath :
      (value out : Text) → normalize_memory_path unquote value ≡ reply out → IsCleanPath out
  normalize-IsCleanPath value out h = elim (accepted value out h) [
    | inl e ↦ inl e
    | inr (p, e) ↦ rw e (join-IsCleanPath (path_parts unquote value) (path_parts-clean value p))
  ]
