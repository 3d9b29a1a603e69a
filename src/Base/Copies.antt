-- ===== src/Base/Copies.antt =====
-- `memcpy` and `resize` where the memory is known to be made of parts.
use Prim.Native.Nat.{ℕ, ◌+◌, ◌≤◌}
use mathlib.Core.Logic.{inl, inr}
use mathlib.Core.Path.{◌≡◌, sym, ap, ap₂, ◌∙◌}
use mathlib.Core.List.{List, ◌++◌}
use native.Mathlib.Omega.{arith}
use cppsocks.Base.Tests.{le→ltb, ltb, ltb→le, Bool-cases}
use cppsocks.Base.Lists.{length, take, drop, set, replicate, length-append, take-append_length}
use cppsocks.Base.Lists.{length-take, length-drop, length-set}
use cppsocks.Base.Lists.{drop-append_length, drop-append_more, take_all}
use cppsocks.Base.Bytes.{load_n, store, store_n, resize}
use cppsocks.Base.Outcome.{ok}

pub load_n-append :
    (pre mid post : List ℕ) → load_n (pre ++ (mid ++ post)) (length pre) (length mid) ≡ ok mid
load_n-append pre mid post =
    rw (le→ltb (length (pre ++ (mid ++ post))) (length pre + length mid) room)
      (ap ok (rw (drop-append_length pre (mid ++ post)) (take-append_length mid post)))
  where
    room : length pre + length mid ≤ length (pre ++ (mid ++ post))
    room = omega (arith, length-append pre (mid ++ post), length-append mid post)

pub store_n-append :
    (pre old post bs : List ℕ)
    → length bs ≡ length old
    → store_n (pre ++ (old ++ post)) (length pre) bs ≡ ok (pre ++ (bs ++ post))
store_n-append pre old post bs e =
    rw (le→ltb (length (pre ++ (old ++ post))) (length pre + length bs) room) (
      ap ok (
        ap₂ (λ a b. a ++ (bs ++ b)) (take-append_length pre (old ++ post))
          (drop-append_more pre (old ++ post) (length bs)
            ∙ ap (λ k. drop k (old ++ post)) e
            ∙ drop-append_length old post)))
  where
    room : length pre + length bs ≤ length (pre ++ (old ++ post))
    room = omega (arith, length-append pre (old ++ post), length-append old post)

pub resize_more : (m : List ℕ) (n : ℕ) → resize (length m + n) m ≡ m ++ replicate n 0
resize_more m n =
    ap₂ (λ a k. a ++ replicate k 0) (take_all (length m + n) m (omega arith)) (omega arith)

pub store_n_front :
    (m bs : List ℕ) → length bs ≤ length m → store_n m 0 bs ≡ ok (bs ++ drop (length bs) m)
store_n_front m bs h =
    rw (le→ltb (length m) (0 + length bs) (omega arith))
      (ap (λ k. ok (bs ++ drop k m)) (omega arith))

-- What the accesses to memory leave.
ok-injective : {A : Type 0} (a b : A) → ok a ≡ ok b → a ≡ b
ok-injective a b h = cc h

pub load_n-length : (m bs : List ℕ) (n : ℕ) → load_n m 0 n ≡ ok bs → length bs ≡ n
load_n-length m bs n h = elim (Bool-cases (ltb (length m) (0 + n))) [
  | inl over ↦ cc (rw over at h)
  | inr within ↦
      let same = ok-injective (take n m) bs (rw within at h) in
      omega (arith, ap length same, length-take n m, ltb→le (length m) (0 + n) within)
]

pub store_n-length :
    (m bs m' : List ℕ) (off : ℕ)
    → store_n m off bs ≡ ok m'
    → (length m' ≡ length m) × (off + length bs ≤ length m)
store_n-length m bs m' off h = elim (Bool-cases (ltb (length m) (off + length bs))) [
  | inl over ↦ cc (rw over at h)
  | inr within ↦
      let same =
        ok-injective (take off m ++ (bs ++ drop (off + length bs) m)) m' (rw within at h) in
      let bound = ltb→le (length m) (off + length bs) within in
      (
        omega (
          arith,
          ap length same,
          bound,
          length-append (take off m) (bs ++ drop (off + length bs) m),
          length-append bs (drop (off + length bs) m),
          length-take off m,
          length-drop (off + length bs) m,
        ),
        bound,
      )
]

pub store-length : (m m' : List ℕ) (i v : ℕ) → store m i v ≡ ok m' → length m' ≡ length m
store-length m m' i v h = elim (Bool-cases (ltb i (length m))) [
  | inl within ↦ ap length (sym (ok-injective (set m i v) m' (rw within at h))) ∙ length-set m i v
  | inr over ↦ cc (rw over at h)
]
