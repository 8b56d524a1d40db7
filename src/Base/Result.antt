-- ===== src/Base/Result.antt =====
-- What a function that may stop the process returns: its result, or how it ended.
use mathlib.Core.Bool.{Bool, true, false}

-- A failed `assert`, an access through a null pointer, one outside an object, `exit`, and a loop
-- without end.
pub data Stop : Type 0 where
  assertion_failed null_pointer out_of_bounds exited hung : Stop

pub data Result {ℓ} (A : Type ℓ) : Type ℓ where
  ok : A → Result A
  err : Stop → Result A

-- What follows is done with the result, if there is one.
module _ {ℓ κ} {A : Type ℓ} {B : Type κ} where
  infixl 5 ◌>>=◌
  abbrev pub ◌>>=◌ : Result A → (A → Result B) → Result B
  err stop >>= rest = err stop
  ok result >>= rest = rest result

module _ {ℓ} {B : Type ℓ} where
  infixl 5 ◌>>◌
  abbrev pub ◌>>◌ : Result (Unit {0}) → Result B → Result B
  test >> rest = test >>= λ done. rest

-- `assert(b)`
abbrev pub assert : Bool → Result (Unit {0})
assert true = ok tt
assert false = err Stop.assertion_failed
