-- ===== src/Json.antt =====
-- JSON values as `json.loads` gives them, with the Python operations that the orchestrator applies
-- to them: `d.get(k)`, `d[k] = v`, truth values and `str`.
use context_lattice.Prelude.{
  ℕ, zero, suc, ◌+◌, ◌/◌, ◌%◌, ◌≡◌, refl, Bool, true, false, Option, none, some, [], ◌∷◌, arith,
  Text, codes, text_eq, text_eq_iff, is_empty, ◌==◌, if◌then◌else◌, ℤ, pos, negsuc,
}

-- `real` holds the text of a number with a fraction or an exponent, and whether it is zero.
mutual
  pub data Json : Type 0 where
    null : Json
    bool : Bool → Json
    int : ℤ → Json
    real : Text → Bool → Json
    str : Text → Json
    arr : Items → Json
    obj : Fields → Json

  pub data Items : Type 0 where
    nil : Items
    cons : Json → Items → Items

  pub data Fields : Type 0 where
    end : Fields
    field : Text → Json → Fields → Fields

-- An optional text as a value.
abbrev pub text_value : Option Text → Json
text_value none = null
text_value (some s) = str s

-- `d.get(k)`
unfoldable pub get : Text → Fields → Option Json
get k end = none
get k (field j v fs) = let rest = get k fs in if text_eq j k then some v else rest

-- `d[k] = v`: an old key keeps its place.
unfoldable pub put : Text → Json → Fields → Fields
put k v end = field k v end
put k v (field j w fs) =
    let rest = put k v fs in if text_eq j k then field j v fs else field j w rest

-- `bool(v)`
unfoldable pub truthy : Json → Bool
truthy null = false
truthy (bool b) = b
truthy (int (pos zero)) = false
truthy (int (pos (suc n))) = true
truthy (int (negsuc n)) = true
truthy (real s z) = if z then false else true
truthy (str s) = if is_empty s then false else true
truthy (arr nil) = false
truthy (arr (cons v vs)) = true
truthy (obj end) = false
truthy (obj (field k v fs)) = true

-- `a or b` on values, with `None` as `none`
unfoldable pub or_value : Option Json → Option Json → Option Json
unfolding truthy
or_value none b = b
or_value (some v) b = if truthy v then some v else b

digits : ℕ → ℕ → Text → Text
digits zero n acc = acc
digits (suc f) n acc =
    let rest = digits f (n / 10) ((48 + n % 10) ∷ acc) in
    if n / 10 == 0 then (48 + n % 10) ∷ acc else rest

-- `str(n)`
unfoldable pub decimal : ℕ → Text
unfolding digits
decimal n = digits (suc n) n []

-- `str(v)`. The text of a list or an object is `repr`'s.
module _ (repr : Json → Text) where
  unfoldable pub str_of : Json → Text
  unfolding decimal
  str_of null = codes "None"
  str_of (bool true) = codes "True"
  str_of (bool false) = codes "False"
  str_of (int (pos n)) = decimal n
  str_of (int (negsuc n)) = b'-' ∷ decimal (n + 1)
  str_of (real s z) = s
  str_of (str s) = s
  str_of (arr vs) = repr (arr vs)
  str_of (obj fs) = repr (obj fs)

pub get-put :
    (k j : Text) (v : Json) (fs : Fields)
    → get j (put k v fs) ≡ (if text_eq k j then some v else get j fs)
unfolding get put
get-put k j v end = refl
get-put k j v (field i w fs) =
    ground (arith, text_eq_iff i k, text_eq_iff i j, text_eq_iff k j, get-put k j v fs)

pub put-get : (k : Text) (v : Json) (fs : Fields) → get k fs ≡ some v → put k v fs ≡ fs
unfolding get put
put-get k v end h = ground arith
put-get k v (field j w fs) h = ground (arith, put-get k v fs)
