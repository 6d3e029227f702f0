-- ===== src/Contracts/Fa2/Consent.antt =====
-- Who may move and retire tokens of the FA2 contract, and change who may.
use x4c.Base.{◌≡◌, refl, true, List, ok, try-eq-ok, ap, ◌∙◌, string_eq, All}
use x4c.Contracts.Balance.{Address, Context, fold, fold-All}
use x4c.Contracts.Fa2.Types.{
  Storage, owner_eq, TransferTo, Transfer, UpdateOperator, RetireTokens, Entrypoint, Operation,
}
use x4c.Contracts.Fa2.Steps.{
  owner_in, transfer_one-Transferred, retire_one-Changed, update_operator-eq-ok,
}
use x4c.Contracts.Fa2.Entrypoints.{
  may_move, transfer_one, transfer_batch, transfer, update_operator, update_operators, retire_one,
  retire_tokens, main,
}

module _ (x : Context) (s : Storage) where
  abbrev SameOperators : Storage → Type 0
  SameOperators a = a.operators ≡ s.operators

  -- What has to hold of the elements of a call.
  abbrev pub MayTransfer : Transfer → Type 0
  MayTransfer p = All (λ d. may_move x s p.from_ d.token_id ≡ true) p.txs

  abbrev pub MayRetire : RetireTokens → Type 0
  MayRetire p = may_move x s p.retiring_party p.token_id ≡ true

  abbrev pub IsOwner : UpdateOperator → Type 0
  IsOwner p = x.sender ≡ owner_in p

  transfer_one-SameOperators :
      (from : Address) (a : Storage) (d : TransferTo) (a' : Storage)
      → transfer_one x from a d ≡ ok a'
      → SameOperators a
      → SameOperators a' × (may_move x s from d.token_id ≡ true)
  transfer_one-SameOperators from a d a' h same =
      let (allowed, m) = transfer_one-Transferred x from a d a' h in
      (ap (λ r. r.operators) m.result ∙ same, rw (← same) allowed)

  transfer_batch-SameOperators :
      (a : Storage) (p : Transfer) (a' : Storage)
      → transfer_batch x a p ≡ ok a'
      → SameOperators a
      → SameOperators a' × MayTransfer p
  unfolding transfer_batch
  transfer_batch-SameOperators a p a' h same =
      fold-All SameOperators (λ d. may_move x s p.from_ d.token_id ≡ true) (transfer_one x p.from_)
        (transfer_one-SameOperators p.from_) p.txs a a' h same

  retire_one-SameOperators :
      (a : Storage) (p : RetireTokens) (a' : Storage)
      → retire_one x s a p ≡ ok a'
      → SameOperators a
      → SameOperators a' × MayRetire p
  retire_one-SameOperators a p a' h same =
      let (allowed, m) = retire_one-Changed x s a p a' h in
      (ap (λ r. r.operators) m.result, rw (← same) allowed)

  update_operator-IsOwner :
      (a : Storage) (p : UpdateOperator) (a' : Storage)
      → update_operator x a p ≡ ok a'
      → Unit {0}
      → Unit {0} × IsOwner p
  update_operator-IsOwner a p a' h _ = (tt, (update_operator-eq-ok x a p a' h).0)

  -- What a call needs of the owners whose tokens or operators it touches.
  abbrev pub HasConsent : Entrypoint → Type 0
  HasConsent (Entrypoint.transfer p) = All MayTransfer p
  HasConsent (Entrypoint.retire p) = All MayRetire p
  HasConsent (Entrypoint.update_operators p) = All IsOwner p
  HasConsent _ = Unit

  -- A call that succeeds had the consent of everyone it touches: tokens are moved and retired by
  -- their owner or an operator of the owner in the storage before the call, and operators are changed
  -- by the owner alone.
  pub main-HasConsent :
      (call : Entrypoint) {ops : List Operation} {s' : Storage}
      → main x call s ≡ ok (ops, s')
      → HasConsent call
  unfolding main transfer update_operators retire_tokens
  main-HasConsent (Entrypoint.transfer p) h =
      let (updated, e, _) = try-eq-ok (fold (transfer_batch x) p s) _ h in
      (fold-All SameOperators MayTransfer (transfer_batch x) transfer_batch-SameOperators p s
        updated e refl).1
  main-HasConsent (Entrypoint.retire p) h =
      let (updated, e, _) = try-eq-ok (fold (retire_one x s) p s) _ h in
      (fold-All SameOperators MayRetire (retire_one x s) retire_one-SameOperators p s updated e
        refl).1
  main-HasConsent (Entrypoint.update_operators p) h =
      let (updated, e, _) = try-eq-ok (fold (update_operator x) p s) _ h in
      (fold-All (λ _. Unit {0}) IsOwner (update_operator x) update_operator-IsOwner p s updated e
        tt).1
  main-HasConsent (Entrypoint.balance_of requests callback) h = tt
  main-HasConsent (Entrypoint.mint p) h = tt
  main-HasConsent (Entrypoint.add_token_id p) h = tt
  main-HasConsent (Entrypoint.update_contract_metadata p) h = tt
  main-HasConsent (Entrypoint.update_oracle p) h = tt
