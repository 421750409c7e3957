-- ===== src/Prelude/Numbers.antt =====
-- Products and powers of two.
use Prim.Native.Nat.{ℕ, suc, zero, ◌*◌, ◌^◌, ◌≤◌}
use native.Mathlib.Nat.{pow-suc}
use native.Mathlib.Omega.{arith}

pow-pos : (n : ℕ) → 1 ≤ 2 ^ n
pow-pos zero = omega arith
pow-pos (suc n) = rw (pow-suc 2 n) (omega (arith, pow-pos n))

pub pow_mono : (a b : ℕ) → a ≤ b → 2 ^ a ≤ 2 ^ b
pow_mono zero b h = pow-pos b
pow_mono (suc a) zero h = absurd (omega arith)
pow_mono (suc a) (suc b) h =
    rw (pow-suc 2 a, pow-suc 2 b) (omega (arith, pow_mono a b (omega arith)))

pub mul_mono : (k a b : ℕ) → a ≤ b → k * a ≤ k * b
mul_mono k a b h = grind arith
