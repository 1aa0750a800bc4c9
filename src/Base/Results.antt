-- ===== src/Base/Results.antt =====
-- How a call of the source ends: it returns, or it does not come back (an assertion, `EXL_ABORT`).
use mathlib.Core.Bool.{Bool, true, false}
use Prim.Native.Nat.{ℕ}

pub data Outcome {ℓ} (A : Type ℓ) : Type ℓ where
  ok : A → Outcome A
  -- `EXL_ABORT` or `exl_abort` with this result code.
  aborted : ℕ → Outcome A
  -- A failed `EXL_ASSERT`.
  assertion : Outcome A
  -- An access behind the pages that are mapped.
  fault : Outcome A
  -- A loop of the model has used up its rounds.
  out_of_fuel : Outcome A

infixl 5 ◌>>=◌
abbrev pub ◌>>=◌ {ℓ κ} :
    {A : Type ℓ} {B : Type κ} (call : Outcome A) (next : A → Outcome B) → Outcome B
ok a >>= next = next a
assertion >>= next = assertion
fault >>= next = fault
out_of_fuel >>= next = out_of_fuel
aborted r >>= next = aborted r

-- `EXL_ASSERT(test)`.
abbrev pub exl_assert : Bool → Outcome (Unit {0})
exl_assert true = ok tt
exl_assert false = assertion

-- A call whose value is not used.
infixl 5 ◌>>◌
abbrev pub ◌>>◌ {ℓ} : {B : Type ℓ} (call : Outcome (Unit {0})) (next : Outcome B) → Outcome B
call >> next = call >>= λ _. next
