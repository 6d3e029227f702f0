-- ===== src/Contracts/Settlement/Performing.antt =====
-- What the operations of the custodian contract take from it at the token contract.
use x4c.Base.{
  ℕ, ◌≡◌, subst, map, ok, try-eq-ok, ok-injective, ◌==◌, string_eq, arith, Bool-cases, inl, inr,
}
use x4c.Contracts.Custodian.Types.{
  token_eq, Operation, call_transfer, call_retire, emit_internal_transfer, emit_internal_mint,
  emit_retire,
}
use x4c.Contracts.Fa2
use x4c.Contracts.Settlement.{World, perform, token_transfer, token_retire, from_custodian}
use x4c.Contracts.Settlement.Owed.{owed}
use x4c.Contracts.Settlement.Custody.{IsSafe}
use x4c.Contracts.Settlement.Keeping.{here, Loses, transfer-Loses, retire-Loses}

module _ (w : World) where
  pub perform-Loses :
      (id : ℕ) (op : Operation) (s s' : Fa2.Types.Storage)
      → perform w op s ≡ ok s'
      → IsSafe w.custodian_address s
      → Loses w id (owed (here w id) op) s s'
  unfolding perform
  perform-Loses id (call_transfer address ts) s s' h safe =
      elim (Bool-cases (w.token_address == address)) [
        | inr e ↦
            subst (Loses w id (owed (here w id) (call_transfer address ts)) s)
              (ok-injective (rw e at h)) (safe, omega arith)
        | inl e ↦
            let (r, called, same) =
              try-eq-ok
                (Fa2.Entrypoints.main (from_custodian w)
                  (Fa2.Types.Entrypoint.transfer (map token_transfer ts)) s)
                _ (rw e at h) in
            let (safe', lost) = transfer-Loses w id ts s called safe in
            subst (Loses w id (owed (here w id) (call_transfer address ts)) s) (ok-injective same)
              (safe', rw e lost)
      ]
  perform-Loses id (call_retire address rs) s s' h safe =
      elim (Bool-cases (w.token_address == address)) [
        | inr e ↦
            subst (Loses w id (owed (here w id) (call_retire address rs)) s)
              (ok-injective (rw e at h)) (safe, omega arith)
        | inl e ↦
            let (r, called, same) =
              try-eq-ok
                (Fa2.Entrypoints.main (from_custodian w)
                  (Fa2.Types.Entrypoint.retire (map token_retire rs)) s)
                _ (rw e at h) in
            let (safe', lost) = retire-Loses w id rs s called safe in
            subst (Loses w id (owed (here w id) (call_retire address rs)) s) (ok-injective same)
              (safe', rw e lost)
      ]
  perform-Loses id (emit_internal_transfer e) s s' h safe =
      subst (Loses w id 0 s) (ok-injective h) (safe, omega arith)
  perform-Loses id (emit_internal_mint e) s s' h safe =
      subst (Loses w id 0 s) (ok-injective h) (safe, omega arith)
  perform-Loses id (emit_retire e) s s' h safe =
      subst (Loses w id 0 s) (ok-injective h) (safe, omega arith)
