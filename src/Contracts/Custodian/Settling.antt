-- ===== src/Contracts/Custodian/Settling.antt =====
-- What the custodian contract asks the token contracts to retire.
use mathlib.Core.List.{flat_map}
use x4c.Base.{
  ℕ, ◌+◌, ◌≡◌, refl, sym, ap, List, [], ◌∷◌, map, ok, try-eq-ok, ok-injective, ◌==◌, ==_iff,
  if◌then◌else◌, string_eq, nat_eq, arith,
}
use x4c.Contracts.Balance.{Address, Context, fold, total}
use x4c.Contracts.Custodian.Types.{
  Token, token_eq, Storage, Others, InternalRetireData, InternalRetire, ExternalRetire, Operation,
  call_retire,
}
use x4c.Contracts.Custodian.Entrypoints.{retire, retire_batch, calls, retire_call, retire_event}
use x4c.Contracts.Custodian.Steps.{token_at}
use x4c.Contracts.Custodian.Operations.{total-append, total-map, total-flat_map, calls-total}
use x4c.Contracts.Custodian.Backing.{held}
use x4c.Contracts.Custodian.Totals.{amount_of, retired, retire-held}

module _ (t : Token) where
  abbrev pub part : ExternalRetire → ℕ
  part r = if t.token_id == r.token_id then r.amount else 0

  -- What an operation asks the token's contract to retire of the token.
  abbrev pub asked : Operation → ℕ
  asked (call_retire address rs) = if t.token_address == address then total part rs else 0
  asked _ = 0

  pub token-split :
      (address : Address) (id n : ℕ)
      → (if t == token_at address id then n else 0)
        ≡ (if t.token_address == address then (if t.token_id == id then n else 0) else 0)
  token-split address id n =
      ground (
        arith,
        ==_iff t (token_at address id),
        ==_iff t.token_address address,
        ==_iff t.token_id id,
      )

  module _ (x : Context) (others : Others) where
    abbrev pub external : InternalRetireData → ExternalRetire
    external tx = record {
      retiring_party = x.self_address;
      token_id = tx.token_id;
      amount = tx.amount;
      retiring_data = tx.retiring_data;
    }

    pub amounts-asked :
        (address : Address) (txs : List InternalRetireData)
        → total (amount_of x others t address) txs
          ≡ (if t.token_address == address then total part (map external txs) else 0)
    amounts-asked address [] = ground arith
    amounts-asked address (d ∷ txs) =
        ground (arith, token-split address d.token_id d.amount, amounts-asked address txs)

    -- What a retirement takes out of the ledger of a token is what its operations ask the token's
    -- contract to retire.
    pub retire-asked :
        (p : List InternalRetire) (s : Storage) {ops : List Operation} {s' : Storage}
        → retire x others p s ≡ ok (ops, s')
        → held t s'.ledger + total asked ops ≡ held t s.ledger
    unfolding retire
    retire-asked p s h =
        let (updated, _, h1) = try-eq-ok (fold (retire_batch x others) p s) _ h in
        let (ops, e, h2) =
          try-eq-ok (calls x others "%retire" (λ p. p.token_address) (retire_call x others) p) _
            h1 in
        omega (
          arith,
          ap (λ r. total asked r.0) (ok-injective h2),
          total-append asked ops (flat_map (λ p. map (retire_event x others p) p.txs) p),
          calls-total asked x others "%retire" (λ p. p.token_address) (retire_call x others)
              (retired x others t) (λ p. sym (amounts-asked p.token_address p.txs)) p e,
          total-flat_map asked (λ p. map (retire_event x others p) p.txs)
              (λ p. total-map asked (retire_event x others p) (λ d. refl) p.txs) p,
          retire-held x others t p s h,
        )
