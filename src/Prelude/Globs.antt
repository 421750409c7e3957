-- ===== src/Prelude/Globs.antt =====
-- `fnmatch` of Python's standard library: a shell pattern is read into tokens, then matched.
use Prim.Native.Nat.{ℕ, zero, suc}
use mathlib.Core.Bool.{Bool, true, false, not, ◌&&◌, ◌||◌}
use mathlib.Core.Option.{Option, none, some}
use mathlib.Core.List.{List, [], ◌∷◌}
use context_lattice.Prelude.Tests.{leb, ◌==◌, if◌then◌else◌}
use context_lattice.Prelude.Lists.{length}
use context_lattice.Prelude.Strings.{Text, is_empty}

-- `[seq]` and `[!seq]` are classes: ranges of code points.
pub data Token : Type 0 where
  star any : Token
  literal : ℕ → Token
  class : (negated : Bool) → List (ℕ × ℕ) → Token

-- The text up to a closing bracket, and the text behind it.
abbrev prepend : ℕ → Option (Text × Text) → Option (Text × Text)
prepend c none = none
prepend c (some (s, t)) = some (c ∷ s, t)

until_bracket : Text → Option (Text × Text)
until_bracket [] = none
until_bracket (c ∷ s) =
    let rest = until_bracket s in if c == b']' then some ([], s) else prepend c rest

-- A class may start with a closing bracket.
class_text : Text → Option (Text × Text)
unfolding until_bracket
class_text [] = none
class_text (c ∷ s) = prepend c (until_bracket s)

ranges : Text → List (ℕ × ℕ)
ranges [] = []
ranges (a ∷ []) = (a, a) ∷ []
ranges (a ∷ b ∷ []) = (a, a) ∷ (b, b) ∷ []
ranges (a ∷ b ∷ c ∷ s) =
    let short = ranges (b ∷ c ∷ s) in
    let long = ranges s in if b == b'-' then (a, c) ∷ long else (a, a) ∷ short

-- The class that opens here, and the pattern behind it.
class_token : Text → Option (Token × Text)
unfolding class_text ranges
class_token [] = none
class_token (c ∷ s) =
    if c == b'!'
    then elim (class_text s) [ none ↦ none | some (m, t) ↦ some (class true (ranges m), t) ]
    else elim (class_text (c ∷ s)) [ none ↦ none | some (m, t) ↦ some (class false (ranges m), t) ]

-- Each round takes a code point out at least.
tokens_from : ℕ → Text → List Token
unfolding class_token
tokens_from fuel [] = []
tokens_from zero (c ∷ s) = []
tokens_from (suc fuel) (c ∷ s) =
    let rest = tokens_from fuel s in
    if c == b'*'
    then star ∷ rest
    else if c == b'?'
    then any ∷ rest
    else if c == b'['
    then elim (class_token s) [ none ↦ literal c ∷ rest | some (k, t) ↦ k ∷ tokens_from fuel t ]
    else literal c ∷ rest

within : ℕ → List (ℕ × ℕ) → Bool
within c [] = false
within c ((lo, hi) ∷ rs) = (leb lo c && leb c hi) || within c rs

one_matches : Token → ℕ → Bool
unfolding within
one_matches star c = false
one_matches any c = true
one_matches (literal d) c = c == d
one_matches (class negated rs) c = if negated then not (within c rs) else within c rs

-- Some text behind a prefix of the text matches.
some_suffix : (Text → Bool) → Text → Bool
some_suffix p [] = p []
some_suffix p (c ∷ s) = let later = some_suffix p s in if p (c ∷ s) then true else later

tokens_match : List Token → Text → Bool
unfolding some_suffix one_matches
tokens_match [] s = is_empty s
tokens_match (star ∷ ts) s = some_suffix (tokens_match ts) s
tokens_match (t ∷ ts) [] = false
tokens_match (t ∷ ts) (c ∷ s) = one_matches t c && tokens_match ts s

unfoldable pub fnmatch : Text → Text → Bool
unfolding tokens_from tokens_match
fnmatch name pattern = tokens_match (tokens_from (length pattern) pattern) name
