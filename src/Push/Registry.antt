-- ===== src/Push/Registry.antt =====
-- The set of registered connections: what it holds, and that the order of the calls that lead to
-- it leaves no trace.
pub mod Changes
use cppsocks.Base.{
  ℕ, ◌<◌, Bool, true, false, not, ◌&&◌, ◌||◌, List, [], ◌∷◌, All, ltb, ◌==◌, ltb→lt, ltb→le, ==_iff,
  ==-refl, Bool-cases, inl, inr,
}
use cppsocks.Base.{◌≡◌, refl, sym, ap, ap₂, ◌∙◌, arith}
use cppsocks.Base.Outcome.{ok}
use cppsocks.Base.Effect.{M, return, ◌>>◌}
use cppsocks.Push.{Hub, insert, erase, add_conn, del_conn}
use mathlib.Core.Path.{subst}

abbrev pub has : List ℕ → ℕ → Bool
has [] k = false
has (j ∷ js) k = (k == j) || has js k

abbrev pub Sorted : List ℕ → Type 0
Sorted [] = Unit {0}
Sorted (j ∷ js) = All (λ k. j < k) js × Sorted js

All-weaken : (i j : ℕ) (js : List ℕ) → i < j → All (λ k. j < k) js → All (λ k. i < k) js
All-weaken i j [] h t = t
All-weaken i j (k ∷ ks) h (first, rest) = (omega arith, All-weaken i j ks h rest)

pub has-below : (i : ℕ) (js : List ℕ) → All (λ k. i < k) js → has js i ≡ false
has-below i [] h = refl
has-below i (j ∷ js) (first, rest) = ground (arith, has-below i js rest)

All-insert : (b i : ℕ) (js : List ℕ) → b < i → All (λ k. b < k) js → All (λ k. b < k) (insert i js)
unfolding insert
All-insert b i [] h t = (h, tt)
All-insert b i (j ∷ js) h (first, rest) = elim (Bool-cases (ltb i j)) [
  | inl below ↦ rw below (h, (first, rest))
  | inr above ↦ elim (Bool-cases (i == j)) [
    | inl same ↦ rw (above, same) (first, rest)
    | inr other ↦ rw (above, other) (first, All-insert b i js h rest)
  ]
]

above_all : (i j : ℕ) → ltb i j ≡ false → (i == j) ≡ false → j < i
above_all i j h k = ground arith

pub insert-Sorted : (i : ℕ) (js : List ℕ) → Sorted js → Sorted (insert i js)
unfolding insert
insert-Sorted i [] t = (tt, tt)
insert-Sorted i (j ∷ js) (all, sorted) = elim (Bool-cases (ltb i j)) [
  | inl below ↦
      rw below ((ltb→lt i j below, All-weaken i j js (ltb→lt i j below) all), (all, sorted))
  | inr above ↦ elim (Bool-cases (i == j)) [
    | inl same ↦ rw (above, same) (all, sorted)
    | inr other ↦
        rw (above, other)
          (All-insert j i js (above_all i j above other) all, insert-Sorted i js sorted)
  ]
]

All-erase : (b i : ℕ) (js : List ℕ) → All (λ k. b < k) js → All (λ k. b < k) (erase i js)
unfolding erase
All-erase b i [] t = t
All-erase b i (j ∷ js) (first, rest) = elim (Bool-cases (i == j)) [
  | inl same ↦ rw same rest
  | inr other ↦ rw other (first, All-erase b i js rest)
]

pub erase-Sorted : (i : ℕ) (js : List ℕ) → Sorted js → Sorted (erase i js)
unfolding erase
erase-Sorted i [] t = t
erase-Sorted i (j ∷ js) (all, sorted) = elim (Bool-cases (i == j)) [
  | inl same ↦ rw same sorted
  | inr other ↦ rw other (All-erase j i js all, erase-Sorted i js sorted)
]

pub has-insert : (i k : ℕ) (js : List ℕ) → has (insert i js) k ≡ (k == i) || has js k
unfolding insert
has-insert i k [] = refl
has-insert i k (j ∷ js) = ground (arith, has-insert i k js)

pub has-erase : (i k : ℕ) (js : List ℕ) → Sorted js → has (erase i js) k ≡ not (k == i) && has js k
unfolding erase
has-erase i k [] t = ground arith
has-erase i k (j ∷ js) (all, sorted) = ground (arith, has-erase i k js sorted, has-below j js all)

has-member : (x : ℕ) (ys : List ℕ) (b : ℕ) → All (λ k. b < k) ys → has ys x ≡ true → b < x
has-member x [] b t h = cc h
has-member x (y ∷ ys) b (first, rest) h = elim (Bool-cases (x == y)) [
  | inl same ↦ ground arith
  | inr other ↦ has-member x ys b rest (ground (arith, h, other))
]

same_first :
    (x y : ℕ) (xs ys : List ℕ)
    → Sorted (x ∷ xs)
    → Sorted (y ∷ ys)
    → has (x ∷ xs) y ≡ true
    → has (y ∷ ys) x ≡ true
    → x ≡ y
same_first x y xs ys (all, s) (all', s') h h' = elim (Bool-cases (x == y)) [
  | inl same ↦ ground arith
  | inr other ↦ absurd (
      omega (
        arith,
        has-member x ys y all' (ground (arith, h', other)),
        has-member y xs x all (ground (arith, h, other)),
      ))
]

same_rest :
    (x : ℕ) (xs ys : List ℕ)
    → Sorted (x ∷ xs)
    → Sorted (x ∷ ys)
    → (k : ℕ) → has (x ∷ xs) k ≡ has (x ∷ ys) k
    → has xs k ≡ has ys k
same_rest x xs ys (all, s) (all', s') k h = ground (arith, has-below x xs all, has-below x ys all')

-- A sorted list is determined by what it holds.
pub Sorted-unique :
    (xs ys : List ℕ) → Sorted xs → Sorted ys → ((k : ℕ) → has xs k ≡ has ys k) → xs ≡ ys
Sorted-unique [] [] s t h = refl
Sorted-unique [] (y ∷ ys) s t h = ground (arith, h y)
Sorted-unique (x ∷ xs) [] s t h = ground (arith, h x)
Sorted-unique (x ∷ xs) (y ∷ ys) s t h =
    let same : x ≡ y = same_first x y xs ys s t (ground (arith, h y)) (ground (arith, h x)) in
    ap₂ (◌∷◌) same (
      Sorted-unique xs ys s.1 t.1 (λ k.
        same_rest y xs ys (subst (λ z. Sorted (z ∷ xs)) same s) t k
          (subst (λ z. has (z ∷ xs) k ≡ has (y ∷ ys) k) same (h k))))
