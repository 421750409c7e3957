-- ===== src/Prelude/Replies.antt =====
-- What a request ends with: a value, or an HTTP error (`raise HTTPException(code, …)`).
use mathlib.Core.Path.{◌≡◌, refl}
use mathlib.Core.Bool.{Bool, true, false}
use Prim.Native.Nat.{ℕ}

pub data Reply {ℓ} (A : Type ℓ) : Type ℓ where
  reply : A → Reply A
  http_error : (code : ℕ) → Reply A

infixl 5 ◌>>=◌ ◌>>◌
abbrev pub ◌>>=◌ {ℓ κ} : {A : Type ℓ} {B : Type κ} → Reply A → (A → Reply B) → Reply B
reply a >>= f = f a
http_error c >>= f = http_error c

abbrev pub ◌>>◌ {ℓ} : {B : Type ℓ} → Reply (Unit {0}) → Reply B → Reply B
m >> k = m >>= λ _. k

-- `if test: raise HTTPException(code, …)`
abbrev pub refuse_if : Bool → ℕ → Reply (Unit {0})
refuse_if true code = http_error code
refuse_if false code = reply tt

pub >>=-eq-reply {ℓ κ} :
    {A : Type ℓ} {B : Type κ} (m : Reply A) (f : A → Reply B) {b : B}
    → (m >>= f) ≡ reply b
    → (a : A) × (m ≡ reply a) × (f a ≡ reply b)
>>=-eq-reply (reply a) f h = (a, refl, h)
>>=-eq-reply (http_error c) f h = cc
