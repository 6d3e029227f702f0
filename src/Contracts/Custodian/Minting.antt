-- ===== src/Contracts/Custodian/Minting.antt =====
-- What internal_mint of custodian.mligo records.
use x4c.Base.{
  ℕ, ◌+◌, ◌-◌, ◌*◌, ◌≤◌, ◌≡◌, sym, subst, ap, List, [], ◌∷◌, some, ok, try-eq-ok, ok-injective,
  ◌==◌, if◌then◌else◌, string_eq, arith, Option-cases, inl, inr,
}
use x4c.Base.Int.{pos_part, neg_part}
use x4c.Base.Dict.{NodupKeys}
use x4c.Contracts.Balance.{
  Context, fold, fold_moves_inv, total, balance, balance-update_balance, update_balance-NodupKeys,
}
use x4c.Contracts.Custodian.Types.{Token, token_eq, Storage, Others, EmitInternalMint, Operation}
use x4c.Contracts.Custodian.Guards.{require, permissions_denied, insufficient_balance}
use x4c.Contracts.Custodian.Entrypoints.{mint_update, mint_updates, apply_mint, internal_mint}
use x4c.Contracts.Custodian.Steps.{apply_mint-BothMoved}

-- How often a token is in a list.
abbrev pub count : Token → List Token → ℕ
count t [] = 0
count t (token ∷ p) = (if t == token then 1 else 0) + count t p

module _ (x : Context) (others : Others) (s : Storage) (t : Token) {external : ℕ}
    (reported : others.view_balance_of t.token_address x.self_address t.token_id
      ≡ some external) where
  abbrev gain : EmitInternalMint → ℕ
  gain u = if t == u.token then pos_part u.amount else 0

  abbrev loss : EmitInternalMint → ℕ
  loss u = if t == u.token then neg_part u.amount else 0

  mint_update-gain :
      (token : Token) (u : EmitInternalMint)
      → mint_update x others s token ≡ ok u
      → (gain u ≡ (if t == token then external - balance t s.external_ledger else 0))
        × (loss u ≡ 0)
        × (t ≡ token → balance t s.external_ledger ≤ external)
  unfolding mint_update
  mint_update-gain token u h =
      elim (Option-cases
        (others.view_balance_of token.token_address x.self_address token.token_id)) [
          | inl e ↦ ground arith
          | inr (b, e) ↦ (ground arith, ground arith, ground arith)
        ]

  mint_updates-gain :
      (p : List Token) (us : List EmitInternalMint)
      → mint_updates x others s p ≡ ok us
      → (total gain us ≡ count t p * (external - balance t s.external_ledger)) × (total loss us ≡ 0)
  unfolding mint_updates
  mint_updates-gain [] us h = (
    omega (arith, ap (total gain) (ok-injective h)),
    omega (arith, ap (total loss) (ok-injective h)),
  )
  mint_updates-gain (token ∷ p) us h =
      let (u, e1, h1) = try-eq-ok (mint_update x others s token) _ h in
      let (rest, e2, h2) = try-eq-ok (mint_updates x others s p) _ h1 in
      let first = mint_update-gain token u e1 in
      let others_gain = mint_updates-gain p rest e2 in
      let same = ok-injective h2 in
      (
        ground (arith, ap (total gain) same, first.0, others_gain.0),
        omega (arith, ap (total loss) same, first.1, others_gain.1),
      )

  apply_mint_moves :
      (a : Storage) (u : EmitInternalMint) (a' : Storage)
      → apply_mint x others a u ≡ ok a'
      → NodupKeys a.external_ledger
      → NodupKeys a'.external_ledger
        × (balance t a'.external_ledger + loss u ≡ balance t a.external_ledger + gain u)
  apply_mint_moves a u a' h n =
      let m = apply_mint-BothMoved x others u a a' h in
      let n' =
        update_balance-NodupKeys insufficient_balance u.token u.amount a.external_ledger n
          m.in_external in
      (
        subst (λ r. NodupKeys r.external_ledger) (sym m.result) n',
        ground (
          arith,
          m.result,
          balance-update_balance t insufficient_balance u.token u.amount a.external_ledger n
              m.in_external,
        ),
      )

  -- A mint that succeeds adds to the record of a token what the token's contract reports beyond the
  -- record, once for each time that the call names the token.
  pub internal_mint-adds :
      (p : List Token) {ops : List Operation} {s' : Storage}
      → NodupKeys s.external_ledger
      → internal_mint x others p s ≡ ok (ops, s')
      → balance t s'.external_ledger
        ≡ balance t s.external_ledger + count t p * (external - balance t s.external_ledger)
  unfolding internal_mint
  internal_mint-adds p n h =
      let (_, _, h1) = try-eq-ok (require (x.sender == s.custodian) permissions_denied) _ h in
      let (updates, e1, h2) = try-eq-ok (mint_updates x others s p) _ h1 in
      let (updated, e2, h3) = try-eq-ok (fold (apply_mint x others) updates s) _ h2 in
      let (gained, lost) = mint_updates-gain p updates e1 in
      omega (
        arith,
        gained,
        lost,
        ap (λ r. balance t r.1.external_ledger) (ok-injective h3),
        fold_moves_inv (λ a. NodupKeys a.external_ledger) (λ a. balance t a.external_ledger) loss
            gain (apply_mint x others) apply_mint_moves updates s updated e2 n,
      )
