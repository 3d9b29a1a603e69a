-- ===== src/Base/Outcome.antt =====
-- What C++ code may do: return, throw, step outside defined behaviour, end the process by
-- `std::terminate`, wait for ever for a thread, or still be running when the model's fuel or
-- schedule ends. Code with effects maps a state to an outcome and a state.
use mathlib.Core.Option.{Option, none, some}

-- The classes of exceptions that the code throws or lets pass.
pub data Exception : Type 0 where
  invalid_argument runtime_error out_of_range length_error : Exception

pub data Error : Type 0 where
  thrown : Exception → Error
  fault : Error
  terminated : Error
  blocked : Error
  running : Error

pub data Result {ℓ} (A : Type ℓ) : Type ℓ where
  ok : A → Result A
  err : Error → Result A

-- A read or write that is out of range is a fault.
abbrev pub or_fault {ℓ} : {A : Type ℓ} → Option A → Result A
or_fault none = err fault
or_fault (some a) = ok a

-- The rest of the code runs where the first part returns.
infixl 5 ◌>>=◌
abbrev pub ◌>>=◌ {ℓ ℓ'} : {A : Type ℓ} {B : Type ℓ'} → Result A → (A → Result B) → Result B
err error >>= rest = err error
ok a >>= rest = rest a
