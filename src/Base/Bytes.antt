-- ===== src/Base/Bytes.antt =====
-- Memory as lists of bytes: checked reads, writes and copies; C strings; masks on one byte.
use Prim.Native.Nat.{ℕ, zero, suc, ◌+◌, ◌-◌, ◌*◌, ◌/◌, ◌%◌, ◌<◌, bit_and, bit_or, bit_xor}
use Prim.Native.Char.{code}
use Prim.Native.String.{String}
use mathlib.Core.Path.{◌≡◌, refl, ap}
use mathlib.Core.Logic.{◌≢◌, inl, inr}
use mathlib.Core.Bool.{Bool, true, false, ◌&&◌}
use mathlib.Core.List.{List, [], ◌∷◌, ◌++◌}
use mathlib.Core.Option.{Option, none, some}
use native.Mathlib.Omega.{arith}
use cppsocks.Base.Lists.{
  length-append, get_elem?-append_more, get_elem?-append_length, set-append_length,
}
use cppsocks.Base.Tests.{Bool-cases, lt→ltb, ◌==◌, ==_iff, ltb, if◌then◌else◌}
use cppsocks.Base.Lists.{length, get_elem?, set, take, drop, replicate, All}
use cppsocks.Base.Outcome.{Result, ok, err, fault, or_fault}

abbrev pub IsByte : ℕ → Type 0
IsByte b = b < 256

-- The code points of a literal: its bytes, as all literals here are ASCII.
abbrev pub codes : String → List ℕ
codes String.[] = []
codes (String.◌∷◌ c s) = code c ∷ codes s

abbrev pub load : List ℕ → ℕ → Result ℕ
load m i = or_fault (get_elem? m i)

abbrev pub store : List ℕ → ℕ → ℕ → Result (List ℕ)
store m i v = if ltb i (length m) then ok (set m i v) else err fault

-- Reads and writes at the joint of two lists.
pub load-append :
    (pre : List ℕ) (b : ℕ) (post : List ℕ) (i : ℕ)
    → length pre ≡ i
    → load (pre ++ (b ∷ post)) i ≡ ok b
load-append pre b post i h = rw (← h, get_elem?-append_length pre b post)

pub load_more : (pre ys : List ℕ) (i : ℕ) → load (pre ++ ys) (length pre + i) ≡ load ys i
load_more pre ys i = ap or_fault (get_elem?-append_more pre ys i)

pub store-append :
    (pre : List ℕ) (a b : ℕ) (post : List ℕ) (i : ℕ)
    → length pre ≡ i
    → store (pre ++ (a ∷ post)) i b ≡ ok (pre ++ (b ∷ post))
store-append pre a b post i h =
    rw (← h, lt→ltb (length pre) (length (pre ++ (a ∷ post))) below, set-append_length pre a b post)
  where
    below : length pre < length (pre ++ (a ∷ post))
    below = omega (arith, length-append pre (a ∷ post))

-- What `memcpy` of `n` bytes at `m + off` reads, and what it writes.
abbrev pub load_n : List ℕ → ℕ → ℕ → Result (List ℕ)
load_n m off n = if ltb (length m) (off + n) then err fault else ok (take n (drop off m))

abbrev pub store_n : List ℕ → ℕ → List ℕ → Result (List ℕ)
store_n m off bs =
    if ltb (length m) (off + length bs)
    then err fault
    else ok (take off m ++ (bs ++ drop (off + length bs) m))

-- `std::vector::resize` with room left: cut off, or filled up with zeros.
abbrev pub resize : ℕ → List ℕ → List ℕ
resize n m = take n m ++ replicate (n - length m) 0

-- The text before the first NUL.
pub until_nul : List ℕ → Option (List ℕ)
until_nul [] = none
until_nul (c ∷ m) =
    let rest = until_nul m in
    if c == 0 then some [] else elim rest [ none ↦ none | some s ↦ some (c ∷ s) ]

unfoldable pub c_str : List ℕ → Result (List ℕ)
unfolding until_nul
c_str m = or_fault (until_nul m)

abbrev pub IsText : List ℕ → Type 0
IsText = All (λ c. c ≢ 0)

until_nul-append : (s m : List ℕ) → IsText s → until_nul (s ++ (0 ∷ m)) ≡ some s
unfolding until_nul
until_nul-append [] m h = refl
until_nul-append (c ∷ s) m h = ground (arith, until_nul-append s m h.1)

pub c_str-append : (s m : List ℕ) → IsText s → c_str (s ++ (0 ∷ m)) ≡ ok s
unfolding c_str
c_str-append s m h = rw (until_nul-append s m h)

-- Equality of texts.
unfoldable pub text_eq : List ℕ → List ℕ → Bool
text_eq [] [] = true
text_eq [] (b ∷ bs) = false
text_eq (a ∷ as_) [] = false
text_eq (a ∷ as_) (b ∷ bs) = a == b && text_eq as_ bs

pub text_eq→eq : (s t : List ℕ) → text_eq s t ≡ true → s ≡ t
unfolding text_eq
text_eq→eq [] [] h = refl
text_eq→eq [] (b ∷ bs) h = ground arith
text_eq→eq (a ∷ as_) [] h = ground arith
text_eq→eq (a ∷ as_) (b ∷ bs) h = ground (arith, text_eq→eq as_ bs)

pub text_eq_refl : (s : List ℕ) → text_eq s s ≡ true
unfolding text_eq
text_eq_refl [] = refl
text_eq_refl (a ∷ s) = ground (arith, text_eq_refl s)

-- Masks on one byte as arithmetic; each is a table, checked by evaluation.
same_below : (ℕ → ℕ) → (ℕ → ℕ) → ℕ → Bool
same_below f g zero = true
same_below f g (suc b) = if f b == g b then same_below f g b else false

module _ (f g : ℕ → ℕ) where
  by_table : (n : ℕ) → same_below f g n ≡ true → (b : ℕ) → b < n → f b ≡ g b
  unfolding same_below
  by_table zero table b h = absurd (omega arith)
  by_table (suc n) table b h = elim (Bool-cases (f n == g n)) [
    | inl same ↦ elim (Bool-cases (b == n)) [
      | inl last ↦ rw ((==_iff b n).0 last) ((==_iff (f n) (g n)).0 same)
      | inr before ↦ by_table n (rw same at table) b (ground (arith, before))
    ]
    | inr differ ↦ cc (rw differ at table)
  ]

pub low_seven : (b : ℕ) → b < 256 → bit_and b 0x7f ≡ b % 128
unfolding same_below
low_seven = by_table _ _ 256 refl

pub low_four : (b : ℕ) → b < 256 → bit_and b 0x0f ≡ b % 16
unfolding same_below
low_four = by_table _ _ 256 refl

pub top_bit : (b : ℕ) → b < 256 → bit_and b 0x80 ≡ b / 128 * 128
unfolding same_below
top_bit = by_table _ _ 256 refl

pub set_top_bit : (b : ℕ) → b < 16 → bit_or 0x80 b ≡ 128 + b
unfolding same_below
set_top_bit = by_table _ _ 16 refl

pub zero-bit_or : (b : ℕ) → b < 256 → bit_or 0 b ≡ b
unfolding same_below
zero-bit_or = by_table _ _ 256 refl

-- 0 where all keys undo themselves on `x`.
undone : ℕ → ℕ
undone x = if same_below (λ k. bit_xor (bit_xor x k) k) (λ k. x) 256 then 0 else 1

undone_everywhere : (x : ℕ) → x < 256 → undone x ≡ 0
unfolding same_below undone
undone_everywhere = by_table undone (λ x. 0) 256 refl

all_keys : (x : ℕ) → undone x ≡ 0 → same_below (λ k. bit_xor (bit_xor x k) k) (λ k. x) 256 ≡ true
unfolding undone
all_keys x h = ground (arith, h)

pub xor_twice : (x k : ℕ) → x < 256 → k < 256 → bit_xor (bit_xor x k) k ≡ x
xor_twice x k hx hk =
    by_table (λ k. bit_xor (bit_xor x k) k) (λ k. x) 256 (all_keys x (undone_everywhere x hx)) k hk
