-- ===== src/Base/Decimal.antt =====
-- A number as a stream prints it.
use Prim.Native.Nat.{ℕ, zero, suc, ◌+◌, ◌-◌, ◌*◌, ◌/◌, ◌%◌, ◌^◌, ◌≤◌, ◌<◌}
use mathlib.Core.Path.{◌≡◌, refl}
use mathlib.Core.Logic.{◌≢◌, inl, inr}
use mathlib.Core.List.{List, [], ◌∷◌, ◌++◌}
use native.Mathlib.Omega.{arith}
use native.Mathlib.Nat.{pow-suc}
use cppsocks.Base.Tests.{ltb, if◌then◌else◌, Bool-cases, ltb→le}
use cppsocks.Base.Lists.{length, length-append, All, All-append}

digits : ℕ → ℕ → List ℕ
digits zero n = []
digits (suc fuel) n =
    let higher = digits fuel (n / 10) ++ ((48 + n % 10) ∷ []) in
    if ltb n 10 then (48 + n) ∷ [] else higher

-- `n` has fewer than `n + 1` digits.
unfoldable pub decimal : ℕ → List ℕ
unfolding digits
decimal n = digits (suc n) n

value_from : ℕ → List ℕ → ℕ
value_from acc [] = acc
value_from acc (c ∷ cs) = value_from (acc * 10 + (c - 48)) cs

-- The number that decimal digits stand for.
pub decimal_value : List ℕ → ℕ
unfolding value_from
decimal_value cs = value_from 0 cs

value_from-append :
    (acc : ℕ) (cs : List ℕ) (c : ℕ)
    → value_from acc (cs ++ (c ∷ [])) ≡ value_from acc cs * 10 + (c - 48)
unfolding value_from
value_from-append acc [] c = refl
value_from-append acc (d ∷ cs) c = value_from-append (acc * 10 + (d - 48)) cs c

value_from-digits : (fuel n : ℕ) → n < fuel → value_from 0 (digits fuel n) ≡ n
unfolding digits
value_from-digits zero n h = absurd (omega arith)
value_from-digits (suc fuel) n h = elim (Bool-cases (ltb n 10)) [
  | inl small ↦ rw small (unfold value_from in omega arith)
  | inr large ↦
      rw (large, value_from-append 0 (digits fuel (n / 10)) (48 + n % 10))
        (omega (
          arith,
          ltb→le n 10 large,
          value_from-digits fuel (n / 10) (omega (arith, ltb→le n 10 large)),
        ))
]

pub decimal_value-decimal : (n : ℕ) → decimal_value (decimal n) ≡ n
unfolding decimal decimal_value
decimal_value-decimal n = value_from-digits (suc n) n (omega arith)

length-digits : (k fuel n : ℕ) → n < 10 ^ suc k → length (digits fuel n) ≤ suc k
unfolding digits
length-digits k zero n h = omega arith
length-digits zero (suc fuel) n h = ground arith
length-digits (suc k) (suc fuel) n h = elim (Bool-cases (ltb n 10)) [
  | inl small ↦ rw small (omega arith)
  | inr large ↦ rw large (
      omega (
        arith,
        length-append (digits fuel (n / 10)) ((48 + n % 10) ∷ []),
        length-digits k fuel (n / 10) (omega (arith, pow-suc 10 (suc k))),
      ))
]

pub length-decimal : (n : ℕ) → n < 2 ^ 64 → length (decimal n) ≤ 20
unfolding decimal
length-decimal n h = length-digits 19 (suc n) n (omega arith)

digits-nonzero : (fuel n : ℕ) → All (λ c. c ≢ 0) (digits fuel n)
unfolding digits
digits-nonzero zero n = tt
digits-nonzero (suc fuel) n = elim (Bool-cases (ltb n 10)) [
  | inl small ↦ rw small (nonzero n, tt)
  | inr large ↦ rw large (
      All-append (λ c. c ≢ 0) (digits fuel (n / 10)) ((48 + n % 10) ∷ [])
        (digits-nonzero fuel (n / 10)) (nonzero (n % 10), tt))
]
  where
    nonzero : (m : ℕ) → 48 + m ≢ 0
    nonzero m h = absurd (omega arith)

pub decimal-nonzero : (n : ℕ) → All (λ c. c ≢ 0) (decimal n)
unfolding decimal
decimal-nonzero n = digits-nonzero (suc n) n
