-- ===== src/Common/Outcome.antt =====
-- The outcome of code that reads memory and loops: a result, a bad access, or no fuel left.
use mathlib.Core.Option.{Option, none, some}

pub data Run {ℓ} (A : Type ℓ) : Type ℓ where
  ok : A → Run A
  fault : Run A
  out_of_fuel : Run A

infixl 5 ◌>>=◌
abbrev pub ◌>>=◌ {ℓ κ} : {A : Type ℓ} {B : Type κ} → Run A → (A → Run B) → Run B
ok a >>= f = f a
fault >>= f = fault
out_of_fuel >>= f = out_of_fuel

-- A read of memory: no object at the address is a fault.
abbrev pub read {ℓ} : {A : Type ℓ} → Option A → Run A
read none = fault
read (some a) = ok a
