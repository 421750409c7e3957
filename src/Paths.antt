-- ===== src/Paths.antt =====
-- File and topic paths: `normalize_memory_path`, `normalize_topic_path`, `derive_topic_path` and
-- `topic_tags_for_path` of services/orchestrator/app.py.
pub mod Clean
pub mod Normal
pub mod Topics
use context_lattice.Prelude.{
  Bool, List, Option, Reply, Text, [], codes, contains, drop_while, false, http_error,
  if◌then◌else◌, is_empty, is_nil, leb, length, map, none, not, reply, select, some, text_eq, true,
  ℕ, ◌&&◌, ◌++◌, ◌==◌, ◌>>=◌, ◌||◌, ◌∷◌,
}

abbrev pub slash : ℕ
slash = b'/'

-- `s.split(c)`: the first part and the others.
unfoldable pub split : ℕ → Text → Text × List Text
split c [] = ([], [])
split c (x ∷ s) = let (w, ws) = split c s in if x == c then ([], w ∷ ws) else (x ∷ w, ws)

abbrev pub all_parts : Text × List Text → List Text
all_parts r = r.0 ∷ r.1

-- `c.join(parts)`
unfoldable pub join : ℕ → List Text → Text
join c [] = []
join c (p ∷ ps) = elim ps [ [] ↦ p | q ∷ qs ↦ p ++ c ∷ join c ps ]

-- `s.replace("\\", "/")`
abbrev pub forward : Text → Text
forward s = map (λ x. if x == 92 then slash else x) s

-- `re.sub(r"/+", "/", s)`; the flag tells whether a slash stands before.
unfoldable pub collapse : Bool → Text → Text
collapse after [] = []
collapse after (x ∷ s) =
    let slashed = collapse true s in
    let rest = collapse false s in
    if x == slash then (if after then slashed else x ∷ slashed) else x ∷ rest

-- `part and part != "."`
unfoldable pub is_part : Text → Bool
is_part p = not (is_empty p) && not (text_eq p (codes "."))

-- `part for part in … if part`
abbrev pub nonempty : List Text → List Text
nonempty ps = select (λ p. not (is_empty p)) ps

-- `unquote` is `urllib.parse.unquote`.
module _ (unquote : Text → Text) where
  unfoldable pub path_parts : Text → List Text
  path_parts value = select is_part (
      all_parts
        (split slash (collapse false (drop_while (λ x. x == slash) (forward (unquote value))))))

  unfoldable pub normalize_memory_path : Text → Reply Text
  normalize_memory_path value =
      if is_empty value
      then reply []
      else if contains (path_parts value) (codes "..")
      then http_error 400
      else reply (join slash (path_parts value))

  unfoldable pub normalize_topic_path : Text → Reply Text
  normalize_topic_path value = if is_empty value then reply [] else normalize_memory_path value

-- `parts[:-1]`
unfoldable pub init : List Text → List Text
init [] = []
init (p ∷ ps) = elim ps [ [] ↦ [] | q ∷ qs ↦ p ∷ init ps ]

abbrev or_root : Text → Text → Text
or_root root s = if is_empty s then root else s

-- The directory of a file name.
unfoldable pub topic_of_file : Text → Text → Text
topic_of_file root file_name =
    let parts = nonempty (all_parts (split slash file_name)) in
    if is_nil (split slash file_name).1 || leb (length parts) 1
    then root
    else or_root root (join slash (init parts))

-- `root` is DEFAULT_TOPIC_ROOT.
unfoldable pub derive_topic_path : (Text → Text) → Text → Text → Option Text → Reply Text
unfolding topic_of_file
derive_topic_path unquote root file_name none = reply (topic_of_file root file_name)
derive_topic_path unquote root file_name (some explicit) =
    if is_empty explicit
    then reply (topic_of_file root file_name)
    else normalize_topic_path unquote explicit >>= λ n. reply (or_root root n)

-- The loop over the parts of a topic path.
unfoldable pub tags_from : List Text → List Text → List Text
tags_from current [] = []
tags_from current (p ∷ ps) =
    let current' = current ++ p ∷ [] in join slash current' ∷ tags_from current' ps

unfoldable pub tags_of_path : Text → Text → List Text
unfolding tags_from
tags_of_path root normalized =
    let tags = tags_from [] (nonempty (all_parts (split slash normalized))) in
    if is_empty normalized || text_eq normalized root || is_nil tags then root ∷ [] else tags

unfoldable pub topic_tags_for_path : (Text → Text) → Text → Text → Reply (List Text)
unfolding tags_of_path
topic_tags_for_path unquote root topic_path =
    normalize_topic_path unquote topic_path >>= λ n. reply (tags_of_path root n)
