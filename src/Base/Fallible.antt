-- ===== src/Base/Fallible.antt =====
-- `do` blocks of calls that only may fail.
use x4c.Base.Effect.{Outcome, try}

infixl 5 ◌>>=◌ ◌>>◌
abbrev pub ◌>>=◌ : {E A B : Type 0} → Outcome E A → (A → Outcome E B) → Outcome E B
r >>= f = try r f

abbrev pub ◌>>◌ : {E B : Type 0} → Outcome E (Unit {0}) → Outcome E B → Outcome E B
r >> k = r >>= λ _. k
