-- ===== src/Contracts/Settlement/Debits.antt =====
-- How each call of custodian.mligo moves what is held of a token and what its operations owe.
use mathlib.Core.List.{flat_map}
use x4c.Base.{
  ◌+◌, ◌≡◌, refl, sym, ap, List, [], ◌∷◌, map, ok, try-eq-ok, ok-injective, ◌==◌, string_eq, arith,
}
use x4c.Contracts.Balance.{Address, Context, fold, total}
use x4c.Contracts.Custodian.Types.{
  Token, token_eq, owner_eq, Storage, Others, InternalTransfer, InternalRetire,
  UpdateInternalOperator, add_operator, remove_operator, EmitInternalMint, Entrypoint, Operation,
}
use x4c.Contracts.Custodian.Guards.{require, permissions_denied}
use x4c.Contracts.Custodian.Entrypoints.{
  transfer_batch, internal_transfer, transfer_event, mint_updates, apply_mint, mint_events,
  internal_mint, calls, retire_call, retire_event, retire_batch, retire, update_internal_operator,
  update_all, update_internal_operators, update_custodian, main,
}
use x4c.Contracts.Custodian.Backing.{held}
use x4c.Contracts.Custodian.Totals.{retired, retire-held, internal_transfer-conserves}
use x4c.Contracts.Custodian.Settling.{amounts-asked}
use x4c.Contracts.Custodian.Operations.{total-append, total-map, total-flat_map, calls-total}
use x4c.Contracts.Settlement.Owed.{owed, external_transfer-owed}

module _ (t : Token) (x : Context) where
  -- The operations of a call owe what the call takes out of the ledger.
  abbrev pub Balances : Storage → List Operation → Storage → Type 0
  Balances s ops s' = held t s'.ledger + total (owed t) ops ≡ held t s.ledger

  internal_transfer-owed :
      (p : List InternalTransfer) (s : Storage) {ops : List Operation} {s' : Storage}
      → internal_transfer x p s ≡ ok (ops, s')
      → total (owed t) ops ≡ 0
  unfolding internal_transfer
  internal_transfer-owed p s h =
      let (updated, _, h1) = try-eq-ok (fold (transfer_batch x) p s) _ h in
      omega (
        arith,
        ap (λ r. total (owed t) r.0) (ok-injective h1),
        total-flat_map (owed t) (λ p. map (transfer_event x p) p.txs)
            (λ p. total-map (owed t) (transfer_event x p) (λ d. refl) p.txs) p,
      )

  update_all-ledger :
      (s : Storage) (us : List UpdateInternalOperator) → (update_all x s us).ledger ≡ s.ledger
  unfolding update_all update_internal_operator
  update_all-ledger s [] = refl
  update_all-ledger s (add_operator o ∷ us) =
      update_all-ledger (update_internal_operator x s (add_operator o)) us
  update_all-ledger s (remove_operator o ∷ us) =
      update_all-ledger (update_internal_operator x s (remove_operator o)) us

  update_internal_operators-Balances :
      (us : List UpdateInternalOperator) (s : Storage) {ops : List Operation} {s' : Storage}
      → update_internal_operators x us s ≡ ok (ops, s')
      → Balances s ops s'
  unfolding update_internal_operators
  update_internal_operators-Balances us s h =
      let (_, _, h1) = try-eq-ok (require (x.sender == s.custodian) permissions_denied) _ h in
      omega (
        arith,
        ap (λ r. held t r.1.ledger + total (owed t) r.0) (ok-injective h1),
        ap (held t) (update_all-ledger s us),
      )

  update_custodian-Balances :
      (a : Address) (s : Storage) {ops : List Operation} {s' : Storage}
      → update_custodian x a s ≡ ok (ops, s')
      → Balances s ops s'
  unfolding update_custodian
  update_custodian-Balances a s h =
      let (_, _, h1) = try-eq-ok (require (x.sender == s.custodian) permissions_denied) _ h in
      omega (arith, ap (λ r. held t r.1.ledger + total (owed t) r.0) (ok-injective h1))

  module _ (others : Others) where
    mint_events-owed : (us : List EmitInternalMint) → total (owed t) (mint_events x others us) ≡ 0
    unfolding mint_events
    mint_events-owed [] = refl
    mint_events-owed (u ∷ us) = ground (arith, mint_events-owed us)

    -- A mint leaves events alone.
    pub internal_mint-owed :
        (p : List Token) (s : Storage) {ops : List Operation} {s' : Storage}
        → internal_mint x others p s ≡ ok (ops, s')
        → total (owed t) ops ≡ 0
    unfolding internal_mint
    internal_mint-owed p s h =
        let (_, _, h1) = try-eq-ok (require (x.sender == s.custodian) permissions_denied) _ h in
        let (updates, _, h2) = try-eq-ok (mint_updates x others s p) _ h1 in
        let (updated, _, h3) = try-eq-ok (fold (apply_mint x others) updates s) _ h2 in
        omega (arith, ap (λ r. total (owed t) r.0) (ok-injective h3), mint_events-owed updates)

    retire-Balances :
        (p : List InternalRetire) (s : Storage) {ops : List Operation} {s' : Storage}
        → retire x others p s ≡ ok (ops, s')
        → Balances s ops s'
    unfolding retire
    retire-Balances p s h =
        let (updated, _, h1) = try-eq-ok (fold (retire_batch x others) p s) _ h in
        let (ops, e, h2) =
          try-eq-ok (calls x others "%retire" (λ p. p.token_address) (retire_call x others) p) _
            h1 in
        omega (
          arith,
          ap (λ r. total (owed t) r.0) (ok-injective h2),
          total-append (owed t) ops (flat_map (λ p. map (retire_event x others p) p.txs) p),
          calls-total (owed t) x others "%retire" (λ p. p.token_address) (retire_call x others)
              (retired x others t) (λ p. sym (amounts-asked t x others p.token_address p.txs)) p e,
          total-flat_map (owed t) (λ p. map (retire_event x others p) p.txs)
              (λ p. total-map (owed t) (retire_event x others p) (λ d. refl) p.txs) p,
          retire-held x others t p s h,
        )

    abbrev pub Moves : Entrypoint → Storage → List Operation → Storage → Type 0
    Moves (Entrypoint.internal_mint p) s ops s' = total (owed t) ops ≡ 0
    Moves _ s ops s' = Balances s ops s'

    pub main-Moves :
        (call : Entrypoint) (s : Storage) {ops : List Operation} {s' : Storage}
        → main x others call s ≡ ok (ops, s')
        → Moves call s ops s'
    unfolding main
    main-Moves (Entrypoint.internal_transfer p) s h =
        omega (arith, internal_transfer-owed p s h, (internal_transfer-conserves x p s h).0 t)
    main-Moves (Entrypoint.internal_mint p) s h = internal_mint-owed p s h
    main-Moves (Entrypoint.external_transfer p) s h = external_transfer-owed t x others p s h
    main-Moves (Entrypoint.update_internal_operators us) s h =
        update_internal_operators-Balances us s h
    main-Moves (Entrypoint.retire p) s h = retire-Balances p s h
    main-Moves (Entrypoint.update_custodian a) s h = update_custodian-Balances a s h
