-- ===== src/Base/Masks.antt =====
-- `x & 0xff` for a number of any size, from the digit recursion that `&` stands for.
use Prim.Native.Nat.{ℕ, zero, suc, ◌+◌, ◌-◌, ◌*◌, ◌/◌, ◌%◌, ◌^◌, ◌≤◌, ◌<◌, min, bit_and, digits}
use Prim.Native.Nat.{bit_and-bitwise}
use mathlib.Core.Path.{◌≡◌, ap, ◌∙◌}
use native.Mathlib.Omega.{arith}
use native.Mathlib.Nat.{
  pow-suc, one-le-pow, add-mul-mod_self_left, add-mul-div_left, mod-eq_of_lt, mod-lt,
}
use native.Mathlib.Nat.{div-eq_of_lt, div-add-mod}

ones : ℕ → ℕ
ones k = 2 ^ k - 1

ones-suc : (k : ℕ) → ones (suc k) ≡ 2 * ones k + 1
unfolding ones
ones-suc k = omega (arith, pow-suc 2 k, one-le-pow k 2)

-- A quotient and a remainder are known by their equation.
pub mod-eq_of_parts : (x d q r : ℕ) → r < d → x ≡ r + d * q → x % d ≡ r
mod-eq_of_parts x d q r h e = rw e (add-mul-mod_self_left r d q ∙ mod-eq_of_lt h)

pub div-eq_of_parts : (x d q r : ℕ) → r < d → x ≡ r + d * q → x / d ≡ q
div-eq_of_parts x d q r h e =
    rw (e, add-mul-div_left r q {y = d} (omega arith), div-eq_of_lt h) (omega arith)

mod_double : (x p : ℕ) → 0 < p → x % (2 * p) ≡ x / 2 % p * 2 + x % 2
mod_double x p h =
    mod-eq_of_parts x (2 * p) (x / 2 / p) (x / 2 % p * 2 + x % 2) (omega (arith, mod-lt (x / 2) h))
      (omega (arith, div-add-mod (x / 2) p))

-- With fuel for every digit of `a`, and-ing with `k` ones leaves the remainder by `2 ^ k`.
digits-ones : (n a k : ℕ) → a ≤ n → digits (λ b. zero) min n a (ones k) ≡ a % 2 ^ k
unfolding ones
digits-ones zero zero k h = omega arith
digits-ones zero (suc a) k h = absurd (omega arith)
digits-ones (suc n) zero k h = omega arith
digits-ones (suc n) (suc a) zero h = omega (arith, digits-ones n (suc a / 2) 0 (omega arith))
digits-ones (suc n) (suc a) (suc k) h =
    rw (halves.0, halves.1)
      (omega (
        arith,
        digits-ones n (suc a / 2) k (omega arith),
        mod_double (suc a) (2 ^ k) (one-le-pow k 2 (omega arith)),
        ap (λ (t : ℕ). suc a % t) (double k),
      ))
  where
    halves : (ones (suc k) / 2 ≡ ones k) × (ones (suc k) % 2 ≡ 1)
    halves = omega (arith, ones-suc k)

    double : (j : ℕ) → 2 ^ suc j ≡ 2 * 2 ^ j
    double j = omega (arith, pow-suc 2 j)

pub low_byte : (x : ℕ) → bit_and x 0xff ≡ x % 256
unfolding ones
low_byte x = bit_and-bitwise x 0xff ∙ digits-ones x x 8 (omega arith)
