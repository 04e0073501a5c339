-- ===== src/Prelude/Options.antt =====
-- Chains of optional results, for do blocks; each module that has them takes this name itself, since
-- those of Platform have the same.
use mathlib.Core.Option.{Option, none, some}

infixl 5 ◌>>=◌
abbrev pub ◌>>=◌ : {A B : Type 0} → Option A → (A → Option B) → Option B
none >>= f = none
some a >>= f = f a
