-- ===== src/Base/Tests.antt =====
-- Boolean tests on the native numbers, and the splits on a computed value that keep its equation.
use Prim.Native.Nat.{ℕ, ◌≤◌, ◌<◌, compare, Ordering}
use mathlib.Core.Path.{◌≡◌, refl}
use mathlib.Core.Logic.{◌⊎◌, inl, inr}
use mathlib.Core.Bool.{Bool, true, false}
use mathlib.Core.Option.{Option, none, some}
use mathlib.Core.List.{List, [], ◌∷◌}
use native.Mathlib.Omega.{arith}

abbrev pub ltb : ℕ → ℕ → Bool
ltb a b = elim (compare a b) [ Ordering.lt ↦ true | _ ↦ false ]

abbrev pub leb : ℕ → ℕ → Bool
leb a b = elim (compare a b) [ Ordering.gt ↦ false | _ ↦ true ]

pub ltb→lt : (a b : ℕ) → ltb a b ≡ true → a < b
ltb→lt a b h = ground arith

pub lt→ltb : (a b : ℕ) → a < b → ltb a b ≡ true
lt→ltb a b h = ground arith

pub leb→le : (a b : ℕ) → leb a b ≡ true → a ≤ b
leb→le a b h = ground arith

pub Bool-cases : (b : Bool) → (b ≡ true) ⊎ (b ≡ false)
Bool-cases true = inl refl
Bool-cases false = inr refl

pub Option-cases {ℓ} : {A : Type ℓ} (o : Option A) → (o ≡ none) ⊎ ((a : A) × (o ≡ some a))
Option-cases none = inl refl
Option-cases (some a) = inr (a, refl)

-- A property of every element of a list.
abbrev pub All {ℓ κ} : {B : Type ℓ} → (B → Type κ) → List B → Type κ
All Q [] = Unit
All Q (b ∷ bs) = Q b × All Q bs

pub weaken_each {ℓ κ μ} :
    {B : Type ℓ} {Q : B → Type κ} {P : B → Type μ}
    → ((b : B) → Q b → P b)
    → (bs : List B) → All Q bs
    → All P bs
weaken_each f [] all = tt
weaken_each f (b ∷ bs) (q, all) = (f b q, weaken_each f bs all)

pub each_of {ℓ κ} : {B : Type ℓ} {Q : B → Type κ} → ((b : B) → Q b) → (bs : List B) → All Q bs
each_of f [] = tt
each_of f (b ∷ bs) = (f b, each_of f bs)
