-- ===== src/Base/Maybe.antt =====
-- `do` blocks for what may be missing.
use mathlib.Core.Option.{Option, none, some}

module _ {A B : Type 0} where
  infixl 5 ◌>>=◌
  abbrev pub ◌>>=◌ : Option A → (A → Option B) → Option B
  none >>= next = none
  some found >>= next = next found
