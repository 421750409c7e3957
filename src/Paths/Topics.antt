-- ===== src/Paths/Topics.antt =====
-- Topics of paths: the tags of a topic, and the topic of a file.
use mathlib.Core.List.{append_assoc}
use context_lattice.Prelude.{
  All, All-append, List, Text, [], ap, arith, false, is_empty, is_nil, leb, length, length-append,
  map, none, refl, reply, select, text_eq, true, ◌++◌, ◌∙◌, ◌∷◌, ◌≡◌,
}
use context_lattice.Paths.{
  derive_topic_path, init, is_part, join, nonempty, normalize_topic_path, slash, tags_from,
  tags_of_path, topic_of_file, topic_tags_for_path,
}
use context_lattice.Paths.Clean.{IsCleanPart}
use context_lattice.Paths.Normal.{normalize-join, split-clean}

nonempty-clean : (ps : List Text) → All IsCleanPart ps → nonempty ps ≡ ps
unfolding select is_part
nonempty-clean [] h = refl
nonempty-clean (p ∷ ps) h =
    let e : is_empty p ≡ false = ground (arith, h.0.part) in rw (e, nonempty-clean ps h.1) refl

-- The list of the first part, the first two parts, and so on.
unfoldable pub prefixes : List Text → List (List Text)
prefixes [] = []
prefixes (p ∷ ps) = (p ∷ []) ∷ map (λ q. p ∷ q) (prefixes ps)

tags_from-prefixes :
    (current ps : List Text)
    → tags_from current ps ≡ map (λ q. join slash (current ++ q)) (prefixes ps)
unfolding tags_from prefixes
tags_from-prefixes current [] = refl
tags_from-prefixes current (p ∷ ps) =
    ap (λ l. join slash (current ++ p ∷ []) ∷ l)
      (tags_from-prefixes (current ++ p ∷ []) ps ∙ shifted (prefixes ps))
  where
    shifted :
        (qs : List (List Text))
        → map (λ q. join slash ((current ++ p ∷ []) ++ q)) qs
          ≡ map (λ q. join slash (current ++ q)) (map (λ q. p ∷ q) qs)
    shifted [] = refl
    shifted (q ∷ qs) =
        rw (append_assoc current (p ∷ []) q)
          (ap (λ l. join slash (current ++ p ∷ q) ∷ l) (shifted qs))

join-nonempty :
    (p : Text) (ps : List Text) → is_part p ≡ true → is_empty (join slash (p ∷ ps)) ≡ false
unfolding join is_part
join-nonempty [] ps h = cc
join-nonempty (x ∷ p) [] h = refl
join-nonempty (x ∷ p) (q ∷ ps) h = refl

topic-join :
    (unquote : Text → Text) (p : Text) (ps : List Text)
    → All IsCleanPart (p ∷ ps)
    → unquote (join slash (p ∷ ps)) ≡ join slash (p ∷ ps)
    → normalize_topic_path unquote (join slash (p ∷ ps)) ≡ reply (join slash (p ∷ ps))
unfolding normalize_topic_path
topic-join unquote p ps h e = rw (join-nonempty p ps h.0.part) (normalize-join unquote (p ∷ ps) h e)

is_nil-append : (ps : List Text) (q : Text) → is_nil (ps ++ q ∷ []) ≡ false
is_nil-append [] q = refl
is_nil-append (p ∷ ps) q = refl

init-append : (ps : List Text) (q : Text) → init (ps ++ q ∷ []) ≡ ps
unfolding init
init-append [] q = refl
init-append (p ∷ []) q = refl
init-append (p ∷ r ∷ ps) q = ap (λ l. p ∷ l) (init-append (r ∷ ps) q)

-- Where the parts of a topic are clean, the topic is not the root, and `unquote` leaves its text alone,
-- its tags are the paths of its ancestors from the top, and itself as the last.
topic_tags_lem :
    (unquote : Text → Text) (root p : Text) (ps : List Text)
    → All IsCleanPart (p ∷ ps)
    → text_eq (join slash (p ∷ ps)) root ≡ false
    → unquote (join slash (p ∷ ps)) ≡ join slash (p ∷ ps)
    → topic_tags_for_path unquote root (join slash (p ∷ ps))
      ≡ reply (map (join slash) (prefixes (p ∷ ps)))
unfolding topic_tags_for_path tags_of_path
topic_tags_lem unquote root p ps h differs e = rw (topic-join unquote p ps h e) (
    rw (join-nonempty p ps h.0.part, differs, split-clean p ps h, nonempty-clean (p ∷ ps) h)
      (ap reply (tags_from-prefixes [] (p ∷ ps))))

-- The topic of a file is the path of its directory.
pub derive_topic_lem :
    (unquote : Text → Text) (root p name : Text) (ps : List Text)
    → All IsCleanPart (p ∷ ps)
    → IsCleanPart name
    → derive_topic_path unquote root (join slash ((p ∷ ps) ++ name ∷ [])) none
      ≡ reply (join slash (p ∷ ps))
unfolding derive_topic_path topic_of_file
derive_topic_lem unquote root p name ps h n =
    let all = All-append IsCleanPart ps (name ∷ []) h.1 (n, tt) in
    let size = length-append (p ∷ ps) (name ∷ []) in
    let many : leb (length ((p ∷ ps) ++ name ∷ [])) 1 ≡ false = ground (arith, size) in
    rw
      (
        split-clean p (ps ++ name ∷ []) (h.0, all),
        nonempty-clean (p ∷ ps ++ name ∷ []) (h.0, all),
        is_nil-append ps name,
        many,
        init-append (p ∷ ps) name,
        join-nonempty p ps h.0.part,
      )
      refl
