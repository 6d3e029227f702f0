-- ===== src/Contracts/Custodian/Access.antt =====
-- Who may call what in the custodian contract.
use x4c.Base.{◌≡◌, refl, true, List, ok, try-eq-ok, ◌==◌, ==_iff, string_eq, arith, All}
use x4c.Contracts.Balance.{Address, Context, fold, fold-All}
use x4c.Contracts.Custodian.Types.{
  Storage, Others, InternalTransferTo, InternalTransfer, InternalRetireData, InternalRetire,
  Entrypoint, Operation,
}
use x4c.Contracts.Custodian.Guards.{require, permissions_denied}
use x4c.Contracts.Custodian.Entrypoints.{
  may_move, transfer_one, transfer_batch, internal_transfer, internal_mint, external_transfer,
  update_internal_operators, update_custodian, retire_one, retire_batch, retire, main,
}
use x4c.Contracts.Custodian.Steps.{require-eq-ok, transfer_one-Transferred, retire_one-eq-ok}

-- The custodian and the operators, on which permission rests, are those of a given storage.
record SameRights (s s' : Storage) : Type 0 where
  custodian_same : s'.custodian ≡ s.custodian
  operators_same : s'.operators ≡ s.operators

module _ (x : Context) (s : Storage) where
  -- What has to hold of each element.
  abbrev pub MayTransfer : InternalTransfer → Type 0
  MayTransfer p = All (λ d. may_move x s p.from_ d.token_id ≡ true) p.txs

  abbrev pub MayRetire : InternalRetire → Type 0
  MayRetire p = All (λ d. may_move x s d.retiring_party_kyc d.token_id ≡ true) p.txs

  transfer_one-SameRights :
      (p : InternalTransfer) (a : Storage) (d : InternalTransferTo) (a' : Storage)
      → transfer_one x p a d ≡ ok a'
      → SameRights s a
      → SameRights s a' × (may_move x s p.from_ d.token_id ≡ true)
  transfer_one-SameRights p a d a' h r =
      let m = transfer_one-Transferred x p d a a' h in
      (
        record {
          custodian_same = ground (arith, m.result, r.custodian_same);
          operators_same = ground (arith, m.result, r.operators_same);
        },
        rw (← r.custodian_same, ← r.operators_same) m.allowed,
      )

  transfer_batch-SameRights :
      (a : Storage) (p : InternalTransfer) (a' : Storage)
      → transfer_batch x a p ≡ ok a'
      → SameRights s a
      → SameRights s a' × MayTransfer p
  unfolding transfer_batch
  transfer_batch-SameRights a p a' h r =
      fold-All (SameRights s) (λ d. may_move x s p.from_ d.token_id ≡ true) (transfer_one x p)
        (transfer_one-SameRights p) p.txs a a' h r

  -- A transfer that succeeds was allowed in each of its parts: the sender was the custodian, or an
  -- operator for the owner that it takes from and the token, in the storage before the call.
  pub internal_transfer-MayTransfer :
      (p : List InternalTransfer) {ops : List Operation} {s' : Storage}
      → internal_transfer x p s ≡ ok (ops, s')
      → All MayTransfer p
  unfolding internal_transfer
  internal_transfer-MayTransfer p h =
      let (updated, e, _) = try-eq-ok (fold (transfer_batch x) p s) _ h in
      (fold-All (SameRights s) MayTransfer (transfer_batch x) transfer_batch-SameRights p s updated
        e (record { custodian_same = refl; operators_same = refl })).1

  module _ (others : Others) where
    retire_one-SameRights :
        (address : Address) (a : Storage) (d : InternalRetireData) (a' : Storage)
        → retire_one x others address a d ≡ ok a'
        → SameRights s a
        → SameRights s a' × (may_move x s d.retiring_party_kyc d.token_id ≡ true)
    retire_one-SameRights address a d a' h r =
        let (allowed, m) = retire_one-eq-ok x others address d a a' h in
        (
          record {
            custodian_same = ground (arith, m.result, r.custodian_same);
            operators_same = ground (arith, m.result, r.operators_same);
          },
          rw (← r.custodian_same, ← r.operators_same) allowed,
        )

    retire_batch-SameRights :
        (a : Storage) (p : InternalRetire) (a' : Storage)
        → retire_batch x others a p ≡ ok a'
        → SameRights s a
        → SameRights s a' × MayRetire p
    unfolding retire_batch
    retire_batch-SameRights a p a' h r =
        fold-All (SameRights s) (λ d. may_move x s d.retiring_party_kyc d.token_id ≡ true)
          (retire_one x others p.token_address) (retire_one-SameRights p.token_address) p.txs a a' h
          r

    retire-MayRetire :
        (p : List InternalRetire) {ops : List Operation} {s' : Storage}
        → retire x others p s ≡ ok (ops, s')
        → All MayRetire p
    unfolding retire
    retire-MayRetire p h =
        let (updated, e, _) = try-eq-ok (fold (retire_batch x others) p s) _ h in
        (fold-All (SameRights s) MayRetire (retire_batch x others) retire_batch-SameRights p s
          updated e (record { custodian_same = refl; operators_same = refl })).1

    -- What a call needs of its sender.
    abbrev pub IsAllowed : Entrypoint → Type 0
    IsAllowed (Entrypoint.internal_transfer p) = All MayTransfer p
    IsAllowed (Entrypoint.retire p) = All MayRetire p
    IsAllowed _ = x.sender ≡ s.custodian

    sender_is_custodian :
        {u : Unit {0}}
        → require (x.sender == s.custodian) permissions_denied ≡ ok u
        → x.sender ≡ s.custodian
    sender_is_custodian h = (==_iff x.sender s.custodian).0 (require-eq-ok _ _ h)

    -- A call that succeeds was allowed: transfers and retirements for the custodian or an operator of
    -- each owner that loses tokens, and everything else for the custodian alone.
    pub main-IsAllowed :
        (call : Entrypoint) {ops : List Operation} {s' : Storage}
        → main x others call s ≡ ok (ops, s')
        → IsAllowed call
    unfolding main internal_mint external_transfer update_internal_operators update_custodian
    main-IsAllowed (Entrypoint.internal_transfer p) h = internal_transfer-MayTransfer p h
    main-IsAllowed (Entrypoint.internal_mint p) h =
        sender_is_custodian (try-eq-ok (require (x.sender == s.custodian) permissions_denied) _ h).1
    main-IsAllowed (Entrypoint.external_transfer p) h =
        sender_is_custodian (try-eq-ok (require (x.sender == s.custodian) permissions_denied) _ h).1
    main-IsAllowed (Entrypoint.update_internal_operators p) h =
        sender_is_custodian (try-eq-ok (require (x.sender == s.custodian) permissions_denied) _ h).1
    main-IsAllowed (Entrypoint.retire p) h = retire-MayRetire p h
    main-IsAllowed (Entrypoint.update_custodian a) h =
        sender_is_custodian (try-eq-ok (require (x.sender == s.custodian) permissions_denied) _ h).1
