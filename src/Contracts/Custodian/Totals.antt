-- ===== src/Contracts/Custodian/Totals.antt =====
-- How calls of the custodian contract move what it holds of a token.
use x4c.Base.{
  ℕ, ◌+◌, ◌≡◌, refl, sym, ap, ◌∙◌, List, ok, try-eq-ok, ok-injective, ◌==◌, if◌then◌else◌, arith,
}
use x4c.Base.Int.{pos, neg_ℤ, neg_ℤ-pos}
use x4c.Contracts.Balance.{
  Address, Context, fold, fold_inv, fold_moves, total, total-zero, sum_where-update_balance,
}
use x4c.Contracts.Custodian.Types.{
  Token, token_eq, Storage, Others, InternalTransfer, InternalRetireData, InternalRetire, Operation,
  owner_eq,
}
use x4c.Contracts.Custodian.Guards.{insufficient_balance}
use x4c.Contracts.Custodian.Entrypoints.{
  transfer_one, transfer_batch, internal_transfer, retire_one, retire_batch, retire, calls,
  retire_call,
}
use x4c.Contracts.Custodian.Steps.{token_at, owner_at, transfer_one-Transferred, retire_one-eq-ok}
use x4c.Contracts.Custodian.Backing.{holds, held, held-Transferred}

module _ (x : Context) where
  -- What a transfer leaves alone: what is held of each token, and the external ledger.
  record Conserves (s s' : Storage) : Type 0 where
    held_same : (t : Token) → held t s'.ledger ≡ held t s.ledger
    external_same : s'.external_ledger ≡ s.external_ledger

  transfer_batch-Conserves :
      (s a : Storage) (p : InternalTransfer) (a' : Storage)
      → transfer_batch x a p ≡ ok a'
      → Conserves s a
      → Conserves s a'
  unfolding transfer_batch
  transfer_batch-Conserves s a p a' h c =
      fold_inv (Conserves s) (transfer_one x p)
        (λ a d a' e c.
          let m = transfer_one-Transferred x p d a a' e in
          record {
            held_same = λ t. held-Transferred x m t ∙ c.held_same t;
            external_same = ground (arith, m.result, c.external_same);
          })
        p.txs a a' h c

  -- A transfer conserves every token: the sum over all owners and the external ledger stay the same.
  pub internal_transfer-conserves :
      (p : List InternalTransfer) (s : Storage) {ops : List Operation} {s' : Storage}
      → internal_transfer x p s ≡ ok (ops, s')
      → ((t : Token) → held t s'.ledger ≡ held t s.ledger)
        × (s'.external_ledger ≡ s.external_ledger)
  unfolding internal_transfer
  internal_transfer-conserves p s h =
      let (updated, e, h1) = try-eq-ok (fold (transfer_batch x) p s) _ h in
      let c =
        fold_inv (Conserves s) (transfer_batch x) (transfer_batch-Conserves s) p s updated e
          (record { held_same = λ t. refl; external_same = refl }) in
      let same = ap (λ r. r.1) (ok-injective h1) in
      (
        λ t. ap (λ r. held t r.ledger) (sym same) ∙ c.held_same t,
        ap (λ r. r.external_ledger) (sym same) ∙ c.external_same,
      )

  module _ (others : Others) (t : Token) where
    -- The amount of the token that an element retires.
    abbrev pub amount_of : Address → InternalRetireData → ℕ
    amount_of address d = if t == token_at address d.token_id then d.amount else 0

    abbrev pub retired : InternalRetire → ℕ
    retired p = total (amount_of p.token_address) p.txs

    retire_one_moves :
        (address : Address) (s : Storage) (d : InternalRetireData) (s' : Storage)
        → retire_one x others address s d ≡ ok s'
        → held t s'.ledger + amount_of address d ≡ held t s.ledger + 0
    retire_one_moves address s d s' h =
        let (_, m) = retire_one-eq-ok x others address d s s' h in
        ground (
          arith,
          m.result,
          neg_ℤ-pos d.amount,
          sum_where-update_balance (holds t) insufficient_balance
              (owner_at d.retiring_party_kyc (token_at address d.token_id)) (neg_ℤ (pos d.amount))
              s.ledger m.in_ledger,
        )

    retire_batch_moves :
        (s : Storage) (p : InternalRetire) (s' : Storage)
        → retire_batch x others s p ≡ ok s'
        → held t s'.ledger + retired p ≡ held t s.ledger + 0
    unfolding retire_batch
    retire_batch_moves s p s' h = omega (
      arith,
      total-zero {0} p.txs,
      fold_moves (λ s. held t s.ledger) (amount_of p.token_address) (λ _. 0)
          (retire_one x others p.token_address) (retire_one_moves p.token_address) p.txs s s' h,
    )

    -- A retirement takes out of the ledger exactly what it retires of each token.
    pub retire-held :
        (p : List InternalRetire) (s : Storage) {ops : List Operation} {s' : Storage}
        → retire x others p s ≡ ok (ops, s')
        → held t s'.ledger + total retired p ≡ held t s.ledger
    unfolding retire
    retire-held p s h =
        let (updated, e, h1) = try-eq-ok (fold (retire_batch x others) p s) _ h in
        let (ops, _, h2) =
          try-eq-ok (calls x others "%retire" (λ p. p.token_address) (retire_call x others) p) _
            h1 in
        omega (
          arith,
          total-zero {0} p,
          ap (λ r. held t r.1.ledger) (ok-injective h2),
          fold_moves (λ s. held t s.ledger) retired (λ _. 0) (retire_batch x others)
              retire_batch_moves p s updated e,
        )
