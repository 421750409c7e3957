-- ===== src/Paths/Normal.antt =====
-- Paths that are normalised twice.
use context_lattice.Prelude.{
  All, Bool, Bool-cases, List, Text, [], ap, arith, codes, contains, drop_while, false,
  if◌then◌else◌, inl, inr, is_empty, refl, reply, select, sym, true, ℕ, ◌++◌, ◌==◌, ◌∙◌, ◌∷◌, ◌≡◌,
}
use context_lattice.Paths.{
  all_parts, collapse, forward, is_part, join, normalize_memory_path, path_parts, slash, split,
}
use context_lattice.Paths.Clean.{
  IsCleanPart, accepted, lacks, no_slashes, path_parts-clean, split-join,
}

select-clean : (ps : List Text) → All IsCleanPart ps → select is_part ps ≡ ps
unfolding select
select-clean [] h = refl
select-clean (p ∷ ps) h = rw (h.0.part, select-clean ps h.1) refl

contains-clean : (ps : List Text) → All IsCleanPart ps → contains ps (codes "..") ≡ false
unfolding contains
contains-clean [] h = refl
contains-clean (p ∷ ps) h = rw (h.0.not_parent, contains-clean ps h.1) refl

forward-lacks : (s : Text) → lacks 92 s ≡ true → forward s ≡ s
unfolding lacks
forward-lacks [] h = refl
forward-lacks (x ∷ s) h = ground (arith, forward-lacks s)

lacks-append : (c : ℕ) (s t : Text) → lacks c s ≡ true → lacks c t ≡ true → lacks c (s ++ t) ≡ true
unfolding lacks
lacks-append c [] t h k = k
lacks-append c (x ∷ s) t h k = ground (arith, lacks-append c s t)

lacks-join : (ps : List Text) → All IsCleanPart ps → lacks 92 (join slash ps) ≡ true
unfolding join lacks
lacks-join [] h = refl
lacks-join (p ∷ []) h = h.0.no_backslash
lacks-join (p ∷ q ∷ ps) h =
    lacks-append 92 p (slash ∷ join slash (q ∷ ps)) h.0.no_backslash (lacks-join (q ∷ ps) h.1)

split-other :
    (x : ℕ) (s : Text)
    → (x == slash) ≡ false
    → split slash (x ∷ s) ≡ (x ∷ (split slash s).0, (split slash s).1)
unfolding split
split-other x s e = rw e refl

split-slash :
    (x : ℕ) (s : Text) → (x == slash) ≡ true → split slash (x ∷ s) ≡ ([], all_parts (split slash s))
unfolding split
split-slash x s e = rw e refl

collapse-other :
    (after : Bool) (x : ℕ) (s : Text)
    → (x == slash) ≡ false
    → collapse after (x ∷ s) ≡ x ∷ collapse false s
unfolding collapse
collapse-other after x s e = rw e refl

select-cons :
    (p : Text) (ps qs : List Text)
    → select is_part ps ≡ select is_part qs
    → select is_part (p ∷ ps) ≡ select is_part (p ∷ qs)
unfolding select
select-cons p ps qs h = rw h refl

select-empty : (ps : List Text) → select is_part ([] ∷ ps) ≡ select is_part ps
unfolding select is_part
select-empty ps = refl

-- Slashes that are collapsed or taken off in front stand between empty parts.
collapse-parts :
    (s : Text)
    → ((split slash (collapse false s)).0 ≡ (split slash s).0)
      × (select is_part (split slash (collapse false s)).1 ≡ select is_part (split slash s).1)
      × (select is_part (all_parts (split slash (collapse true s)))
          ≡ select is_part (all_parts (split slash s)))
unfolding collapse
collapse-parts [] = (refl, refl, refl)
collapse-parts (x ∷ s) =
    let (first, others, all) = collapse-parts s in
    elim (Bool-cases (x == slash)) [
      | inl e ↦
          rw (split-slash x s e, e)
            (rw (split-slash x (collapse true s) e)
              (refl, all, all ∙ sym (select-empty (all_parts (split slash s)))))
      | inr e ↦
          rw (split-other x s e, e)
            (rw (split-other x (collapse false s) e) (
              ap (λ w. x ∷ w) first,
              others,
              rw first (select-cons (x ∷ (split slash s).0) _ _ others),
            ))
    ]

drop-parts :
    (s : Text)
    → select is_part (all_parts (split slash (drop_while (λ x. x == slash) s)))
      ≡ select is_part (all_parts (split slash s))
unfolding drop_while
drop-parts [] = refl
drop-parts (x ∷ s) = elim (Bool-cases (x == slash)) [
  | inl e ↦
      rw (split-slash x s e, e) (drop-parts s ∙ sym (select-empty (all_parts (split slash s))))
  | inr e ↦ rw e refl
]

normal-parts :
    (s : Text)
    → select is_part (all_parts (split slash (collapse false (drop_while (λ x. x == slash) s))))
      ≡ select is_part (all_parts (split slash s))
normal-parts s =
    let (first, others, _) = collapse-parts (drop_while (λ x. x == slash) s) in
    rw first (select-cons (split slash (drop_while (λ x. x == slash) s)).0 _ _ others)
    ∙ drop-parts s

pub split-clean :
    (p : Text) (ps : List Text)
    → All IsCleanPart (p ∷ ps)
    → split slash (join slash (p ∷ ps)) ≡ (p, ps)
split-clean p ps h = split-join slash p ps h.0.no_slash (no_slashes ps h.1)

reply_or_empty : (s : Text) → (if is_empty s then reply [] else reply s) ≡ reply s
reply_or_empty [] = refl
reply_or_empty (x ∷ s) = refl

module _ (unquote : Text → Text) where
  path_parts-join :
      (p : Text) (ps : List Text)
      → All IsCleanPart (p ∷ ps)
      → unquote (join slash (p ∷ ps)) ≡ join slash (p ∷ ps)
      → path_parts unquote (join slash (p ∷ ps)) ≡ p ∷ ps
  unfolding path_parts
  path_parts-join p ps h e =
      let s = join slash (p ∷ ps) in
      rw (e, forward-lacks s (lacks-join (p ∷ ps) h))
        (normal-parts s ∙ rw (split-clean p ps h) (select-clean (p ∷ ps) h))

  pub normalize-join :
      (ps : List Text)
      → All IsCleanPart ps
      → unquote (join slash ps) ≡ join slash ps
      → normalize_memory_path unquote (join slash ps) ≡ reply (join slash ps)
  unfolding normalize_memory_path join
  normalize-join [] h e = refl
  normalize-join (p ∷ ps) h e =
      rw (path_parts-join p ps h e, contains-clean (p ∷ ps) h)
        (reply_or_empty (join slash (p ∷ ps)))

  -- A path that was normalised is its own normal form, where `unquote` leaves it alone (as it does where
  -- there is no percent sign): normalising twice is normalising once.
  pub normalize_twice :
      (value out : Text)
      → unquote out ≡ out
      → normalize_memory_path unquote value ≡ reply out
      → normalize_memory_path unquote out ≡ reply out
  unfolding join
  normalize_twice value out e h = elim (accepted unquote value out h) [
    | inl n ↦ rw n (normalize-join [] tt (sym (ap unquote n) ∙ e ∙ n))
    | inr (p, n) ↦
        let q : unquote (join slash (path_parts unquote value))
            ≡ join slash (path_parts unquote value) =
          sym (ap unquote n) ∙ e ∙ n in
        rw n (normalize-join (path_parts unquote value) (path_parts-clean unquote value p) q)
  ]
