-- ===== src/Base/Effect.antt =====
-- Go's `(value, error)` results, and code that changes a state and may fail.
use Prim.Native.String.{String}
use mathlib.Core.Path.{◌≡◌, refl}
use mathlib.Core.Logic.{◌⊎◌, inl, inr}
use mathlib.Core.Bool.{Bool, true, false}
use mathlib.Core.Option.{Option, none, some}
use mathlib.Core.List.{List, [], ◌∷◌}
use native.Mathlib.Omega.{arith}

-- What `errors.As` and `errors.Is` look for in a chain of errors.
pub data Cause : Type 0 where
  url_error not_exist other : Cause

-- An error: the texts of its chain from the outside in, without the values that were printed into
-- them, and its cause.
pub record Error : Type 0 where
  pub trace : List String
  pub cause : Cause

abbrev pub errorf : String → Error
errorf text = record { trace = text ∷ []; cause = other }

-- `fmt.Errorf` with `%w` keeps the chain, with `%v` only the text.
abbrev pub wrap : String → Error → Error
wrap text e = record e { trace = text ∷ e.trace }

abbrev pub wrap_text : String → Error → Error
wrap_text text e = record { trace = text ∷ e.trace; cause = other }

pub data Outcome (E A : Type 0) : Type 0 where
  ok : A → Outcome E A
  err : E → Outcome E A

-- State and failure. What was done before a failure stays done.
abbrev pub Action : Type 0 → Type 0 → Type 0 → Type 0
Action S E A = S → Outcome E A × S

module _ {E F A : Type 0} where
  abbrev pub map_err : (E → F) → Outcome E A → Outcome F A
  map_err f (ok a) = ok a
  map_err f (err e) = err (f e)

  -- The second result where the first is an error.
  abbrev pub or_try : Outcome E A → Outcome F A → Outcome F A
  or_try (ok a) other_result = ok a
  or_try (err e) other_result = other_result

module _ {E A : Type 0} where
  abbrev pub ok_or : Option A → E → Outcome E A
  ok_or (some a) e = ok a
  ok_or none e = err e

  pub Outcome-cases : (r : Outcome E A) → ((a : A) × (r ≡ ok a)) ⊎ ((e : E) × (r ≡ err e))
  Outcome-cases (ok a) = inl (a, refl)
  Outcome-cases (err e) = inr (e, refl)

  abbrev pub try : {B : Type 0} → Outcome E A → (A → Outcome E B) → Outcome E B
  try (ok a) f = f a
  try (err e) f = err e

module _ {S E A : Type 0} where
  abbrev pub pure : A → Action S E A
  pure a s = (ok a, s)

  abbrev pub lift : Outcome E A → Action S E A
  lift r s = (r, s)

  -- The error of a call, as the error of the caller.
  abbrev pub or_fail : {F : Type 0} → Action S E A → (E → F) → Action S F A
  or_fail m f s = let (r, s') = m s in (map_err f r, s')

module _ {S E : Type 0} where
  abbrev pub fail_if : Bool → E → Action S E (Unit {0})
  fail_if true e s = (err e, s)
  fail_if false e s = (ok tt, s)

infixl 5 ◌>>=◌ ◌>>◌
abbrev pub ◌>>=◌ : {S E A B : Type 0} → Action S E A → (A → Action S E B) → Action S E B
◌>>=◌ m f s = let (r, s') = m s in elim r [ ok a ↦ f a s' | err e ↦ (err e, s') ]

abbrev pub ◌>>◌ : {S E B : Type 0} → Action S E (Unit {0}) → Action S E B → Action S E B
m >> k = m >>= λ _. k

-- Inversion of a successful chain, for proofs where the parts stay shut.
pub try-eq-ok :
    {E A B : Type 0} (r : Outcome E A) (f : A → Outcome E B) {b : B}
    → try r f ≡ ok b
    → (a : A) × (r ≡ ok a) × (f a ≡ ok b)
try-eq-ok (ok a) f h = (a, refl, h)
try-eq-ok (err e) f h = cc

pub ok-injective : {E A : Type 0} {a b : A} → ◌≡◌ {A = Outcome E A} (ok a) (ok b) → a ≡ b
ok-injective h = cc

-- The same for chains with a state.
pub bind-eq-ok :
    {S E A B : Type 0} (m : Action S E A) (f : A → Action S E B) (s : S) {b : B} {s' : S}
    → (m >>= f) s ≡ (ok b, s')
    → (a : A) × (s1 : S) × (m s ≡ (ok a, s1)) × (f a s1 ≡ (ok b, s'))
bind-eq-ok m f s h = elim (Outcome-cases (m s).0) [
  | inl (a, e) ↦ (a, (m s).1, ground (arith, e), ground (arith, e))
  | inr (e, q) ↦ ground (arith, q)
]

pub or_fail-eq-ok :
    {S E F A : Type 0} (m : Action S E A) (f : E → F) (s : S) {a : A} {s' : S}
    → or_fail m f s ≡ (ok a, s')
    → m s ≡ (ok a, s')
or_fail-eq-ok m f s h = ground arith

pub lift-eq-ok :
    {S E A : Type 0} (r : Outcome E A) (s : S) {a : A} {s' : S}
    → ◌≡◌ {A = Outcome E A × S} (lift r s) (ok a, s')
    → (r ≡ ok a) × (s ≡ s')
lift-eq-ok r s h = ground arith
