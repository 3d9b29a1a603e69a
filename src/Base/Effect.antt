-- ===== src/Base/Effect.antt =====
-- Code that works on a state of type `S`: it ends with an outcome and leaves a state behind,
-- also where it throws.
use cppsocks.Base.Outcome.{Result, ok, err, Exception, thrown}

abbrev pub M : Type 0 → Type 0 → Type 0
M S A = S → Result A × S

module _ {S : Type 0} where
  abbrev pub continue : {A B : Type 0} → Result A × S → (A → M S B) → Result B × S
  continue (ok a, s) k = k a s
  continue (err e, s) k = (err e, s)

  abbrev pub return : {A : Type 0} → A → M S A
  return a s = (ok a, s)

  abbrev pub raise : {A : Type 0} → Exception → M S A
  raise e s = (err (thrown e), s)

  -- Code that touches no state.
  abbrev pub lift : {A : Type 0} → Result A → M S A
  lift r s = (r, s)

  -- `catch (const std::exception&)`: what is no exception passes.
  abbrev pub recover : {A : Type 0} → Result A × S → (Exception → M S A) → Result A × S
  recover (ok a, s) k = (ok a, s)
  recover (err (thrown e), s) k = k e s
  recover (err other, s) k = (err other, s)

infixl 5 ◌>>=◌ ◌>>◌
abbrev pub ◌>>=◌ : {S A B : Type 0} → M S A → (A → M S B) → M S B
◌>>=◌ m k s = continue (m s) k

abbrev pub ◌>>◌ : {S A B : Type 0} → M S A → M S B → M S B
◌>>◌ m k s = continue (m s) (λ _. k)
