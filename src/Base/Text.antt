-- ===== src/Base/Text.antt =====
-- What the code uses of `std::string`, `std::getline` and `std::strchr`, on lists of bytes.
use Prim.Native.Nat.{ℕ, suc}
use mathlib.Core.Path.{◌≡◌, refl}
use mathlib.Core.Logic.{◌≢◌}
use mathlib.Core.Bool.{Bool, true, false, ◌&&◌}
use mathlib.Core.List.{List, [], ◌∷◌, ◌++◌}
use mathlib.Core.Option.{Option, none, some}
use mathlib.Core.Option
use native.Mathlib.Omega.{arith}
use cppsocks.Base.Tests.{◌==◌, if◌then◌else◌, ==-refl}
use cppsocks.Base.Lists.{length, All}

abbrev pub Text : Type 0
Text = List ℕ

-- `c` does not occur.
abbrev pub Without : ℕ → Text → Type 0
Without c = All (λ b. b ≢ c)

unfoldable pub starts_with : Text → Text → Bool
starts_with [] s = true
starts_with (c ∷ p) [] = false
starts_with (c ∷ p) (b ∷ s) = c == b && starts_with p s

-- `std::string::find` and `std::strstr`: where the first match begins.
unfoldable pub find_text : Text → Text → Option ℕ
unfolding starts_with
find_text p [] = if starts_with p [] then some 0 else none
find_text p (b ∷ s) =
    let later = Option.map suc (find_text p s) in if starts_with p (b ∷ s) then some 0 else later

-- `std::strchr`.
unfoldable pub find_char : ℕ → Text → Option ℕ
find_char c [] = none
find_char c (b ∷ s) = let later = Option.map suc (find_char c s) in if b == c then some 0 else later

unfoldable pub before_char : ℕ → Text → Text
before_char c [] = []
before_char c (b ∷ s) = let later = b ∷ before_char c s in if b == c then [] else later

cons_head : ℕ → List Text → List Text
cons_head b [] = (b ∷ []) ∷ []
cons_head b (l ∷ ls) = (b ∷ l) ∷ ls

-- What successive calls of `std::getline` read: the last line may lack its newline, and behind
-- a last newline there is no line.
unfoldable pub lines : Text → List Text
unfolding cons_head
lines [] = []
lines (b ∷ s) = let rest = lines s in if b == b'\n' then [] ∷ rest else cons_head b rest

pub starts_with-append : (p s : Text) → starts_with p (p ++ s) ≡ true
unfolding starts_with
starts_with-append [] s = refl
starts_with-append (c ∷ p) s = ground (arith, starts_with-append p s)

pub find_char-append :
    (c : ℕ) (s t : Text) → Without c s → find_char c (s ++ (c ∷ t)) ≡ some (length s)
unfolding find_char
find_char-append c [] t h = rw (==-refl c)
find_char-append c (b ∷ s) t h = ground (arith, find_char-append c s t h.1)

pub before_char_all : (c : ℕ) (s : Text) → Without c s → before_char c s ≡ s
unfolding before_char
before_char_all c [] h = refl
before_char_all c (b ∷ s) h = ground (arith, before_char_all c s h.1)

pub before_char-append : (c : ℕ) (s t : Text) → Without c s → before_char c (s ++ (c ∷ t)) ≡ s
unfolding before_char
before_char-append c [] t h = rw (==-refl c)
before_char-append c (b ∷ s) t h = ground (arith, before_char-append c s t h.1)

-- A match that begins with `c` is not found before the first `c`.
pub find_text-append :
    (c : ℕ) (p s t : Text) → Without c s → find_text (c ∷ p) (s ++ ((c ∷ p) ++ t)) ≡ some (length s)
unfolding find_text
find_text-append c p [] t h = rw (starts_with-append (c ∷ p) t)
find_text-append c p (b ∷ s) t h =
    unfold starts_with in ground (arith, find_text-append c p s t h.1)

pub lines-append : (l s : Text) → Without b'\n' l → lines (l ++ (b'\n' ∷ s)) ≡ l ∷ lines s
unfolding lines
lines-append [] s h = refl
lines-append (b ∷ l) s h = ground (arith, lines-append l s h.1)
