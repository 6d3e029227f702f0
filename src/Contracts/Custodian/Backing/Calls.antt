-- ===== src/Contracts/Custodian/Backing/Calls.antt =====
-- The agreement of the two ledgers over the calls of custodian.mligo.
use x4c.Base.{◌≡◌, subst, ap, List, [], ◌∷◌, ok, try-eq-ok, ok-injective, ◌==◌, string_eq}
use x4c.Contracts.Balance.{Address, Context, fold, fold_inv}
use x4c.Contracts.Custodian.Types.{
  Token, Storage, Others, InternalTransfer, ExternalTransferBatch, ExternalTransfer,
  UpdateInternalOperator, add_operator, remove_operator, InternalRetire, Entrypoint, Operation,
}
use x4c.Contracts.Custodian.Guards.{require, permissions_denied}
use x4c.Contracts.Custodian.Entrypoints.{
  transfer_one, transfer_batch, internal_transfer, mint_updates, apply_mint, internal_mint, calls,
  transfer_call, retire_call, external_one, external_batch, external_group, external_transfer,
  retire_one, retire_batch, retire, update_internal_operator, update_all, update_internal_operators,
  update_custodian, main,
}
use x4c.Contracts.Custodian.Steps.{
  token_at, owner_at, transfer_one-Transferred, apply_mint-BothMoved, take_out-BothMoved,
  retire_one-eq-ok,
}
use x4c.Contracts.Custodian.Backing.{IsBacked, BothMoved-IsBacked, Transferred-IsBacked}

module _ (x : Context) where
  transfer_batch-IsBacked :
      (s : Storage) (p : InternalTransfer) (s' : Storage)
      → transfer_batch x s p ≡ ok s'
      → IsBacked s
      → IsBacked s'
  unfolding transfer_batch
  transfer_batch-IsBacked s p s' h b =
      fold_inv IsBacked (transfer_one x p)
        (λ s d s' e b. Transferred-IsBacked x (transfer_one-Transferred x p d s s' e) b) p.txs s s'
        h b

  internal_transfer-IsBacked :
      (p : List InternalTransfer) (s : Storage) {ops : List Operation} {s' : Storage}
      → internal_transfer x p s ≡ ok (ops, s')
      → IsBacked s
      → IsBacked s'
  unfolding internal_transfer
  internal_transfer-IsBacked p s h b =
      let (updated, e, h1) = try-eq-ok (fold (transfer_batch x) p s) _ h in
      subst IsBacked (ap (λ r. r.1) (ok-injective h1))
        (fold_inv IsBacked (transfer_batch x) transfer_batch-IsBacked p s updated e b)

  update_internal_operator-IsBacked :
      (s : Storage) (u : UpdateInternalOperator)
      → IsBacked s
      → IsBacked (update_internal_operator x s u)
  unfolding update_internal_operator
  update_internal_operator-IsBacked s (add_operator o) b = record {
    ledger_nodup = b.ledger_nodup;
    external_nodup = b.external_nodup;
    agree = b.agree;
  }
  update_internal_operator-IsBacked s (remove_operator o) b = record {
    ledger_nodup = b.ledger_nodup;
    external_nodup = b.external_nodup;
    agree = b.agree;
  }

  update_all-IsBacked :
      (s : Storage) (us : List UpdateInternalOperator) → IsBacked s → IsBacked (update_all x s us)
  unfolding update_all
  update_all-IsBacked s [] b = b
  update_all-IsBacked s (u ∷ us) b =
      update_all-IsBacked (update_internal_operator x s u) us
        (update_internal_operator-IsBacked s u b)

  update_internal_operators-IsBacked :
      (us : List UpdateInternalOperator) (s : Storage) {ops : List Operation} {s' : Storage}
      → update_internal_operators x us s ≡ ok (ops, s')
      → IsBacked s
      → IsBacked s'
  unfolding update_internal_operators
  update_internal_operators-IsBacked us s h b =
      let (_, _, h1) = try-eq-ok (require (x.sender == s.custodian) permissions_denied) _ h in
      subst IsBacked (ap (λ r. r.1) (ok-injective h1)) (update_all-IsBacked s us b)

  update_custodian-IsBacked :
      (a : Address) (s : Storage) {ops : List Operation} {s' : Storage}
      → update_custodian x a s ≡ ok (ops, s')
      → IsBacked s
      → IsBacked s'
  unfolding update_custodian
  update_custodian-IsBacked a s h b =
      let (_, _, h1) = try-eq-ok (require (x.sender == s.custodian) permissions_denied) _ h in
      subst IsBacked (ap (λ r. r.1) (ok-injective h1)) (record {
        ledger_nodup = b.ledger_nodup;
        external_nodup = b.external_nodup;
        agree = b.agree;
      })

  module _ (others : Others) where
    internal_mint-IsBacked :
        (p : List Token) (s : Storage) {ops : List Operation} {s' : Storage}
        → internal_mint x others p s ≡ ok (ops, s')
        → IsBacked s
        → IsBacked s'
    unfolding internal_mint
    internal_mint-IsBacked p s h b =
        let (_, _, h1) = try-eq-ok (require (x.sender == s.custodian) permissions_denied) _ h in
        let (updates, _, h2) = try-eq-ok (mint_updates x others s p) _ h1 in
        let (updated, e, h3) = try-eq-ok (fold (apply_mint x others) updates s) _ h2 in
        subst IsBacked (ap (λ r. r.1) (ok-injective h3)) (
          fold_inv IsBacked (apply_mint x others)
            (λ s u s' e b.
              BothMoved-IsBacked _ u.amount s s' (apply_mint-BothMoved x others u s s' e) b)
            updates s updated e b)

    external_batch-IsBacked :
        (a : Address) (s : Storage) (p : ExternalTransferBatch) (s' : Storage)
        → external_batch x others a s p ≡ ok s'
        → IsBacked s
        → IsBacked s'
    unfolding external_batch external_one
    external_batch-IsBacked a s p s' h b =
        fold_inv IsBacked (external_one x others a p.from_)
          (λ s d s' e b.
            let o = owner_at p.from_ (token_at a d.token_id) in
            BothMoved-IsBacked o _ s s' (take_out-BothMoved x others o d.amount s s' e) b)
          p.txs s s' h b

    external_group-IsBacked :
        (s : Storage) (p : ExternalTransfer) (s' : Storage)
        → external_group x others s p ≡ ok s'
        → IsBacked s
        → IsBacked s'
    unfolding external_group
    external_group-IsBacked s p s' h b =
        fold_inv IsBacked (external_batch x others p.token_address)
          (external_batch-IsBacked p.token_address) p.txn_batch s s' h b

    external_transfer-IsBacked :
        (p : List ExternalTransfer) (s : Storage) {ops : List Operation} {s' : Storage}
        → external_transfer x others p s ≡ ok (ops, s')
        → IsBacked s
        → IsBacked s'
    unfolding external_transfer
    external_transfer-IsBacked p s h b =
        let (_, _, h1) = try-eq-ok (require (x.sender == s.custodian) permissions_denied) _ h in
        let (updated, e, h2) = try-eq-ok (fold (external_group x others) p s) _ h1 in
        let (ops, _, h3) =
          try-eq-ok (calls x others "%transfer" (λ p. p.token_address) (transfer_call x others) p) _
            h2 in
        subst IsBacked (ap (λ r. r.1) (ok-injective h3))
          (fold_inv IsBacked (external_group x others) external_group-IsBacked p s updated e b)

    retire_batch-IsBacked :
        (s : Storage) (p : InternalRetire) (s' : Storage)
        → retire_batch x others s p ≡ ok s'
        → IsBacked s
        → IsBacked s'
    unfolding retire_batch
    retire_batch-IsBacked s p s' h b =
        fold_inv IsBacked (retire_one x others p.token_address)
          (λ s d s' e b.
            BothMoved-IsBacked _ _ s s' (retire_one-eq-ok x others p.token_address d s s' e).1 b)
          p.txs s s' h b

    retire-IsBacked :
        (p : List InternalRetire) (s : Storage) {ops : List Operation} {s' : Storage}
        → retire x others p s ≡ ok (ops, s')
        → IsBacked s
        → IsBacked s'
    unfolding retire
    retire-IsBacked p s h b =
        let (updated, e, h1) = try-eq-ok (fold (retire_batch x others) p s) _ h in
        let (ops, _, h2) =
          try-eq-ok (calls x others "%retire" (λ p. p.token_address) (retire_call x others) p) _
            h1 in
        subst IsBacked (ap (λ r. r.1) (ok-injective h2))
          (fold_inv IsBacked (retire_batch x others) retire_batch-IsBacked p s updated e b)

    -- Every call of the contract that succeeds keeps the two ledgers in agreement: for every token, the
    -- sum over all owners is the amount recorded in the external ledger.
    pub main-IsBacked :
        (call : Entrypoint) (s : Storage) {ops : List Operation} {s' : Storage}
        → main x others call s ≡ ok (ops, s')
        → IsBacked s
        → IsBacked s'
    unfolding main
    main-IsBacked (Entrypoint.internal_transfer p) s h b = internal_transfer-IsBacked p s h b
    main-IsBacked (Entrypoint.internal_mint p) s h b = internal_mint-IsBacked p s h b
    main-IsBacked (Entrypoint.external_transfer p) s h b = external_transfer-IsBacked p s h b
    main-IsBacked (Entrypoint.update_internal_operators p) s h b =
        update_internal_operators-IsBacked p s h b
    main-IsBacked (Entrypoint.retire p) s h b = retire-IsBacked p s h b
    main-IsBacked (Entrypoint.update_custodian a) s h b = update_custodian-IsBacked a s h b
