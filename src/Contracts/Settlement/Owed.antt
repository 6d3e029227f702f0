-- ===== src/Contracts/Settlement/Owed.antt =====
-- What the operations of a call of custodian.mligo owe: what they take of a token at its contract,
-- against what the call takes out of the custodian's ledger.
use x4c.Base.{
  ℕ, ◌+◌, ◌≡◌, ap, List, [], ◌∷◌, map, ok, try-eq-ok, ok-injective, ◌==◌, if◌then◌else◌, string_eq,
  nat_eq, arith,
}
use x4c.Base.Int.{pos, neg_ℤ, neg_ℤ-pos}
use x4c.Contracts.Balance.{
  Address, Bytes, Context, fold, fold_moves, total, total-zero, sum_where-update_balance,
}
use x4c.Contracts.Custodian.Types.{
  Token, token_eq, owner_eq, Storage, Others, TransferTo, Transfer, ExternalTransferBatch,
  ExternalTransfer, Operation, call_transfer, call_retire,
}
use x4c.Contracts.Custodian.Guards.{require, permissions_denied, insufficient_balance}
use x4c.Contracts.Custodian.Entrypoints.{
  calls, transfer_call, external_one, external_batch, external_group, external_transfer,
}
use x4c.Contracts.Custodian.Steps.{token_at, owner_at, take_out-BothMoved}
use x4c.Contracts.Custodian.Backing.{held, holds}
use x4c.Contracts.Custodian.Settling.{part, token-split}
use x4c.Contracts.Custodian.Operations.{calls-total}

module _ (t : Token) where
  abbrev pub sent : TransferTo → ℕ
  sent d = if t.token_id == d.token_id then d.amount else 0

  abbrev pub sent_all : Transfer → ℕ
  sent_all p = total sent p.txs

  -- What an operation takes of the token.
  abbrev pub owed : Operation → ℕ
  owed (call_retire address rs) = if t.token_address == address then total (part t) rs else 0
  owed (call_transfer address ts) = if t.token_address == address then total sent_all ts else 0
  owed _ = 0

  -- What an external transfer takes out of the ledger.
  abbrev leaving : Address → TransferTo → ℕ
  leaving address d = if t == token_at address d.token_id then d.amount else 0

  abbrev leaving_batch : Address → ExternalTransferBatch → ℕ
  leaving_batch address b = total (leaving address) b.txs

  abbrev spent : ExternalTransfer → ℕ
  spent p = total (leaving_batch p.token_address) p.txn_batch

  leaving-sent :
      (address : Address) (txs : List TransferTo)
      → total (leaving address) txs ≡ (if t.token_address == address then total sent txs else 0)
  leaving-sent address [] = ground arith
  leaving-sent address (d ∷ txs) =
      ground (arith, token-split t address d.token_id d.amount, leaving-sent address txs)

  module _ (x : Context) (others : Others) where
    abbrev as_self : ExternalTransferBatch → Transfer
    as_self b = record { from_ = x.self_address; txs = b.txs }

    spent-owed :
        (address : Address) (bs : List ExternalTransferBatch)
        → (if t.token_address == address then total sent_all (map as_self bs) else 0)
          ≡ total (leaving_batch address) bs
    spent-owed address [] = ground arith
    spent-owed address (b ∷ bs) = ground (arith, leaving-sent address b.txs, spent-owed address bs)

    external_one-held :
        (address : Address) (from : Bytes) (s : Storage) (d : TransferTo) (s' : Storage)
        → external_one x others address from s d ≡ ok s'
        → held t s'.ledger + leaving address d ≡ held t s.ledger + 0
    unfolding external_one
    external_one-held address from s d s' h =
        let o = owner_at from (token_at address d.token_id) in
        let m = take_out-BothMoved x others o d.amount s s' h in
        ground (
          arith,
          m.result,
          neg_ℤ-pos d.amount,
          sum_where-update_balance (holds t) insufficient_balance o (neg_ℤ (pos d.amount)) s.ledger
              m.in_ledger,
        )

    external_batch-held :
        (address : Address) (s : Storage) (b : ExternalTransferBatch) (s' : Storage)
        → external_batch x others address s b ≡ ok s'
        → held t s'.ledger + leaving_batch address b ≡ held t s.ledger + 0
    unfolding external_batch
    external_batch-held address s b s' h = omega (
      arith,
      total-zero {0} b.txs,
      fold_moves (λ s. held t s.ledger) (leaving address) (λ _. 0)
          (external_one x others address b.from_) (external_one-held address b.from_) b.txs s s' h,
    )

    external_group-held :
        (s : Storage) (p : ExternalTransfer) (s' : Storage)
        → external_group x others s p ≡ ok s'
        → held t s'.ledger + spent p ≡ held t s.ledger + 0
    unfolding external_group
    external_group-held s p s' h = omega (
      arith,
      total-zero {0} p.txn_batch,
      fold_moves (λ s. held t s.ledger) (leaving_batch p.token_address) (λ _. 0)
          (external_batch x others p.token_address) (external_batch-held p.token_address)
          p.txn_batch s s' h,
    )

    -- What an external transfer takes out of the custodian's ledger of a token is what its operations
    -- take of the token at its contract.
    pub external_transfer-owed :
        (p : List ExternalTransfer) (s : Storage) {ops : List Operation} {s' : Storage}
        → external_transfer x others p s ≡ ok (ops, s')
        → held t s'.ledger + total owed ops ≡ held t s.ledger
    unfolding external_transfer
    external_transfer-owed p s h =
        let (_, _, h1) = try-eq-ok (require (x.sender == s.custodian) permissions_denied) _ h in
        let (updated, e, h2) = try-eq-ok (fold (external_group x others) p s) _ h1 in
        let (ops, q, h3) =
          try-eq-ok (calls x others "%transfer" (λ p. p.token_address) (transfer_call x others) p) _
            h2 in
        omega (
          arith,
          total-zero {0} p,
          ap (λ r. held t r.1.ledger + total owed r.0) (ok-injective h3),
          calls-total owed x others "%transfer" (λ p. p.token_address) (transfer_call x others)
              spent (λ p. spent-owed p.token_address p.txn_batch) p q,
          fold_moves (λ s. held t s.ledger) spent (λ _. 0) (external_group x others)
              external_group-held p s updated e,
        )
