-- ===== src/Contracts/Fa2/Supply.antt =====
-- How calls of fa2.mligo move the supply of a token.
use x4c.Base.{
  ℕ, ◌+◌, ◌≡◌, refl, ap, Bool, List, ok, try-eq-ok, ok-injective, ◌==◌, if◌then◌else◌, nat_eq,
  string_eq, arith,
}
use x4c.Base.Int.{pos, neg_ℤ, neg_ℤ-pos}
use x4c.Contracts.Balance.{
  Address, Context, fold, fold_inv, fold_moves, total, total-zero, sum_where,
  sum_where-update_balance,
}
use x4c.Contracts.Fa2.Types.{
  Owner, owner_eq, Storage, TransferTo, Transfer, UpdateOperator, MintData, RetireTokens,
  TokenMetadata, Entrypoint, Operation,
}
use x4c.Contracts.Fa2.Steps.{
  owner_at, transfer_one-Transferred, mint_one-Changed, retire_one-Changed, add_one-eq-ok,
  update_operator-eq-ok,
}
use x4c.Contracts.Fa2.Entrypoints.{
  require, permissions_denied, insufficient_balance, transfer_one, transfer_batch, transfer,
  balance_of, update_operator, update_operators, mint_one, mint_tokens, retire_one, retire_tokens,
  add_one, add_token_id, update_contract_metadata, update_oracle, main,
}

module _ (t : ℕ) where
  abbrev of_token : Owner → Bool
  of_token owner = t == owner.token_id

  -- The sum over all owners of the balances of a token.
  abbrev pub supply : Storage → ℕ
  supply s = sum_where of_token s.ledger

  abbrev pub minted_by : MintData → ℕ
  minted_by p = if t == p.token_id then p.qty else 0

  abbrev pub retired_by : RetireTokens → ℕ
  retired_by p = if t == p.token_id then p.amount else 0

  -- What a call mints and retires of the token.
  abbrev pub minted : Entrypoint → ℕ
  minted (Entrypoint.mint p) = total minted_by p
  minted _ = 0

  abbrev pub retired : Entrypoint → ℕ
  retired (Entrypoint.retire p) = total retired_by p
  retired _ = 0

  module _ (x : Context) where
    transfer_one-supply :
        (from : Address) (s : Storage) (p : TransferTo) (s' : Storage)
        → transfer_one x from s p ≡ ok s'
        → supply s' + 0 ≡ supply s + 0
    transfer_one-supply from s p s' h =
        let (_, m) = transfer_one-Transferred x from s p s' h in
        ground (
          arith,
          m.result,
          neg_ℤ-pos p.amount,
          sum_where-update_balance of_token insufficient_balance (owner_at p.to_ p.token_id)
              (pos p.amount) s.ledger m.credit,
          sum_where-update_balance of_token insufficient_balance (owner_at from p.token_id)
              (neg_ℤ (pos p.amount)) m.credited m.debit,
        )

    transfer_batch-supply :
        (s : Storage) (p : Transfer) (s' : Storage)
        → transfer_batch x s p ≡ ok s'
        → supply s' + 0 ≡ supply s + 0
    unfolding transfer_batch
    transfer_batch-supply s p s' h = omega (
      arith,
      total-zero {0} p.txs,
      fold_moves supply (λ _. 0) (λ _. 0) (transfer_one x p.from_) (transfer_one-supply p.from_)
          p.txs s s' h,
    )

    mint_one-supply :
        (s0 s : Storage) (p : MintData) (s' : Storage)
        → mint_one x s0 s p ≡ ok s'
        → supply s' + 0 ≡ supply s + minted_by p
    mint_one-supply s0 s p s' h =
        let (_, m) = mint_one-Changed x s0 s p s' h in
        ground (
          arith,
          m.result,
          sum_where-update_balance of_token insufficient_balance (owner_at p.owner p.token_id)
              (pos p.qty) s.ledger m.moved,
        )

    retire_one-supply :
        (s0 s : Storage) (p : RetireTokens) (s' : Storage)
        → retire_one x s0 s p ≡ ok s'
        → supply s' + retired_by p ≡ supply s + 0
    retire_one-supply s0 s p s' h =
        let (_, m) = retire_one-Changed x s0 s p s' h in
        ground (
          arith,
          m.result,
          neg_ℤ-pos p.amount,
          sum_where-update_balance of_token insufficient_balance
              (owner_at p.retiring_party p.token_id) (neg_ℤ (pos p.amount)) s.ledger m.moved,
        )

    update_operator-keeps :
        (n : ℕ) (s : Storage) (p : UpdateOperator) (s' : Storage)
        → update_operator x s p ≡ ok s'
        → supply s ≡ n
        → supply s' ≡ n
    update_operator-keeps n s p s' h e =
        omega (arith, e, ap supply (update_operator-eq-ok x s p s' h).1)

    add_one-keeps :
        (n : ℕ) (s : Storage) (d : TokenMetadata) (s' : Storage)
        → add_one x s d ≡ ok s'
        → supply s ≡ n
        → supply s' ≡ n
    add_one-keeps n s d s' h e = omega (arith, e, ap supply (add_one-eq-ok x s d s' h).1)

    -- A call that succeeds leaves the supply of a token what it was, with what a mint adds and less
    -- what a retirement takes; every other call leaves it alone.
    pub main-supply :
        (call : Entrypoint) (s : Storage) {ops : List Operation} {s' : Storage}
        → main x call s ≡ ok (ops, s')
        → supply s' + retired call ≡ supply s + minted call
    unfolding main transfer balance_of update_operators mint_tokens retire_tokens add_token_id
        update_contract_metadata update_oracle
    main-supply (Entrypoint.transfer p) s h =
        let (updated, e, h1) = try-eq-ok (fold (transfer_batch x) p s) _ h in
        omega (
          arith,
          total-zero {0} p,
          ap (λ r. supply r.1) (ok-injective h1),
          fold_moves supply (λ _. 0) (λ _. 0) (transfer_batch x) transfer_batch-supply p s updated
              e,
        )
    main-supply (Entrypoint.balance_of requests callback) s h =
        omega (arith, ap (λ r. supply r.1) (ok-injective h))
    main-supply (Entrypoint.update_operators p) s h =
        let (updated, e, h1) = try-eq-ok (fold (update_operator x) p s) _ h in
        omega (
          arith,
          ap (λ r. supply r.1) (ok-injective h1),
          fold_inv (λ a. supply a ≡ supply s) (update_operator x) (update_operator-keeps (supply s))
              p s updated e refl,
        )
    main-supply (Entrypoint.mint p) s h =
        let (_, _, h1) = try-eq-ok (require (x.sender == s.oracle) permissions_denied) _ h in
        let (updated, e, h2) = try-eq-ok (fold (mint_one x s) p s) _ h1 in
        omega (
          arith,
          total-zero {0} p,
          ap (λ r. supply r.1) (ok-injective h2),
          fold_moves supply (λ _. 0) minted_by (mint_one x s) (mint_one-supply s) p s updated e,
        )
    main-supply (Entrypoint.retire p) s h =
        let (updated, e, h1) = try-eq-ok (fold (retire_one x s) p s) _ h in
        omega (
          arith,
          total-zero {0} p,
          ap (λ r. supply r.1) (ok-injective h1),
          fold_moves supply retired_by (λ _. 0) (retire_one x s) (retire_one-supply s) p s updated
              e,
        )
    main-supply (Entrypoint.add_token_id p) s h =
        let (_, _, h1) = try-eq-ok (require (x.sender == s.oracle) permissions_denied) _ h in
        let (updated, e, h2) = try-eq-ok (fold (add_one x) p s) _ h1 in
        omega (
          arith,
          ap (λ r. supply r.1) (ok-injective h2),
          fold_inv (λ a. supply a ≡ supply s) (add_one x) (add_one-keeps (supply s)) p s updated e
              refl,
        )
    main-supply (Entrypoint.update_contract_metadata p) s h =
        let (_, _, h1) = try-eq-ok (require (x.sender == s.oracle) permissions_denied) _ h in
        omega (arith, ap (λ r. supply r.1) (ok-injective h1))
    main-supply (Entrypoint.update_oracle p) s h =
        let (_, _, h1) = try-eq-ok (require (x.sender == s.oracle) permissions_denied) _ h in
        omega (arith, ap (λ r. supply r.1) (ok-injective h1))
