-- ===== src/Contracts/Custodian/Operations.antt =====
-- Sums over the operations that a call of custodian.mligo leaves.
use mathlib.Core.List.{flat_map}
use x4c.Base.{
  ℕ, String, ◌+◌, ◌≡◌, refl, sym, ap, ◌∙◌, List, [], ◌∷◌, ◌++◌, map, ok, err, try, try-eq-ok,
  ok-injective, if◌then◌else◌, arith, Bool-cases, inl, inr,
}
use x4c.Contracts.Balance.{Address, Context, Failing, total}
use x4c.Contracts.Custodian.Types.{Others, Operation}
use x4c.Contracts.Custodian.Guards.{address_not_found}
use x4c.Contracts.Custodian.Entrypoints.{calls}

module _ (w : Operation → ℕ) where
  pub total-append : (xs ys : List Operation) → total w (xs ++ ys) ≡ total w xs + total w ys
  total-append [] ys = ground arith
  total-append (o ∷ xs) ys = omega (arith, total-append xs ys)

  module _ {B : Type 0} (event : B → Operation) (none_owed : (b : B) → w (event b) ≡ 0) where
    pub total-map : (bs : List B) → total w (map event bs) ≡ 0
    total-map [] = refl
    total-map (b ∷ bs) = omega (arith, none_owed b, total-map bs)

  module _ {A : Type 0} (ops : A → List Operation) (none_owed : (a : A) → total w (ops a) ≡ 0) where
    pub total-flat_map : (p : List A) → total w (flat_map ops p) ≡ 0
    unfolding flat_map
    total-flat_map [] = refl
    total-flat_map (a ∷ p) =
        omega (arith, total-append (ops a) (flat_map ops p), none_owed a, total-flat_map p)

  module _ (x : Context) (others : Others) (entrypoint : String) {A : Type 0}
      (address : A → Address) (call : A → Operation) (v : A → ℕ)
      (weight : (p : A) → w (call p) ≡ v p) where
    abbrev of_all : List A → Failing (List Operation)
    of_all = calls x others entrypoint address call

    calls-nil : of_all [] ≡ ok []
    unfolding calls
    calls-nil = refl

    calls-cons :
        (p : A) (ps : List A)
        → of_all (p ∷ ps) ≡ (
            if others.has_entrypoint entrypoint (address p)
            then try (of_all ps) (λ ops. ok (call p ∷ ops))
            else err address_not_found)
    unfolding calls
    calls-cons p ps = refl

    -- One operation for each element, so the sums agree.
    pub calls-total :
        (p : List A) {ops : List Operation} → of_all p ≡ ok ops → total w ops ≡ total v p
    calls-total [] h = omega (arith, ap (total w) (ok-injective (sym h ∙ calls-nil)))
    calls-total (p ∷ ps) {ops = left} h =
        let c = calls-cons p ps in
        elim (Bool-cases (others.has_entrypoint entrypoint (address p))) [
          | inr e ↦ ground (arith, h, c, e)
          | inl e ↦
              let (rest, q, h1) =
                try-eq-ok (of_all ps) (λ ops. ok (call p ∷ ops)) {b = left}
                  (ground (arith, h, c, e)) in
              omega (arith, ap (total w) (ok-injective h1), weight p, calls-total ps q)
        ]
