-- ===== src/Contracts/Fa2/Metadata.antt =====
-- What calls of fa2.mligo do to the metadata of tokens.
use x4c.Base.{
  ℕ, ◌≡◌, sym, List, some, ok, try-eq-ok, ok-injective, subst, ◌==◌, nat_eq, string_eq, arith,
}
use x4c.Base.Dict.{lookup, lookup-insert}
use x4c.Contracts.Balance.{Address, Context, fold, fold_inv}
use x4c.Contracts.Fa2.Types.{
  Storage, owner_eq, TransferTo, Transfer, UpdateOperator, RetireTokens, MintData, TokenMetadata,
  Entrypoint, Operation,
}
use x4c.Contracts.Fa2.Steps.{
  transfer_one-Transferred, mint_one-Changed, retire_one-Changed, add_one-eq-ok,
  update_operator-eq-ok,
}
use x4c.Contracts.Fa2.Entrypoints.{
  require, permissions_denied, transfer_one, transfer_batch, transfer, update_operator,
  update_operators, retire_one, retire_tokens, mint_one, mint_tokens, add_one, add_token_id,
  balance_of, update_contract_metadata, update_oracle, main,
}

module _ (x : Context) (id : ℕ) (m : TokenMetadata) where
  abbrev HasMetadata : Storage → Type 0
  HasMetadata s = lookup id s.token_metadata ≡ some m

  transfer_one-HasMetadata :
      (from : Address) (s : Storage) (d : TransferTo) (s' : Storage)
      → transfer_one x from s d ≡ ok s'
      → HasMetadata s
      → HasMetadata s'
  transfer_one-HasMetadata from s d s' h e =
      subst HasMetadata (sym (transfer_one-Transferred x from s d s' h).1.result) e

  transfer_batch-HasMetadata :
      (s : Storage) (p : Transfer) (s' : Storage)
      → transfer_batch x s p ≡ ok s'
      → HasMetadata s
      → HasMetadata s'
  unfolding transfer_batch
  transfer_batch-HasMetadata s p s' h e =
      fold_inv HasMetadata (transfer_one x p.from_) (transfer_one-HasMetadata p.from_) p.txs s s' h
        e

  update_operator-HasMetadata :
      (s : Storage) (p : UpdateOperator) (s' : Storage)
      → update_operator x s p ≡ ok s'
      → HasMetadata s
      → HasMetadata s'
  update_operator-HasMetadata s p s' h e =
      subst HasMetadata (sym (update_operator-eq-ok x s p s' h).1) e

  mint_one-HasMetadata :
      (s a : Storage) (p : MintData) (a' : Storage)
      → mint_one x s a p ≡ ok a'
      → HasMetadata s
      → HasMetadata a'
  mint_one-HasMetadata s a p a' h e =
      subst HasMetadata (sym (mint_one-Changed x s a p a' h).1.result) e

  retire_one-HasMetadata :
      (s a : Storage) (p : RetireTokens) (a' : Storage)
      → retire_one x s a p ≡ ok a'
      → HasMetadata s
      → HasMetadata a'
  retire_one-HasMetadata s a p a' h e =
      subst HasMetadata (sym (retire_one-Changed x s a p a' h).1.result) e

  add_one-HasMetadata :
      (s : Storage) (d : TokenMetadata) (s' : Storage)
      → add_one x s d ≡ ok s'
      → HasMetadata s
      → HasMetadata s'
  add_one-HasMetadata s d s' h e =
      let (fresh, result) = add_one-eq-ok x s d s' h in
      subst HasMetadata (sym result)
        (ground (arith, e, fresh, lookup-insert id d.token_id d s.token_metadata))

  -- Once a token has metadata, no call of the contract that succeeds changes it.
  pub main-HasMetadata :
      (call : Entrypoint) (s : Storage) {ops : List Operation} {s' : Storage}
      → main x call s ≡ ok (ops, s')
      → lookup id s.token_metadata ≡ some m
      → lookup id s'.token_metadata ≡ some m
  unfolding main transfer balance_of update_operators mint_tokens retire_tokens add_token_id
      update_contract_metadata update_oracle
  main-HasMetadata (Entrypoint.transfer p) s h e =
      let (updated, f, h1) = try-eq-ok (fold (transfer_batch x) p s) _ h in
      subst (λ r. HasMetadata r.1) (ok-injective h1)
        (fold_inv HasMetadata (transfer_batch x) transfer_batch-HasMetadata p s updated f e)
  main-HasMetadata (Entrypoint.balance_of requests callback) s h e =
      subst (λ r. HasMetadata r.1) (ok-injective h) e
  main-HasMetadata (Entrypoint.update_operators p) s h e =
      let (updated, f, h1) = try-eq-ok (fold (update_operator x) p s) _ h in
      subst (λ r. HasMetadata r.1) (ok-injective h1)
        (fold_inv HasMetadata (update_operator x) update_operator-HasMetadata p s updated f e)
  main-HasMetadata (Entrypoint.mint p) s h e =
      let (_, _, h1) = try-eq-ok (require (x.sender == s.oracle) permissions_denied) _ h in
      let (updated, f, h2) = try-eq-ok (fold (mint_one x s) p s) _ h1 in
      subst (λ r. HasMetadata r.1) (ok-injective h2)
        (fold_inv HasMetadata (mint_one x s) (λ a d a' g _. mint_one-HasMetadata s a d a' g e) p s
          updated f e)
  main-HasMetadata (Entrypoint.retire p) s h e =
      let (updated, f, h1) = try-eq-ok (fold (retire_one x s) p s) _ h in
      subst (λ r. HasMetadata r.1) (ok-injective h1)
        (fold_inv HasMetadata (retire_one x s) (λ a d a' g _. retire_one-HasMetadata s a d a' g e) p
          s updated f e)
  main-HasMetadata (Entrypoint.add_token_id p) s h e =
      let (_, _, h1) = try-eq-ok (require (x.sender == s.oracle) permissions_denied) _ h in
      let (updated, f, h2) = try-eq-ok (fold (add_one x) p s) _ h1 in
      subst (λ r. HasMetadata r.1) (ok-injective h2)
        (fold_inv HasMetadata (add_one x) add_one-HasMetadata p s updated f e)
  main-HasMetadata (Entrypoint.update_contract_metadata p) s h e =
      let (_, _, h1) = try-eq-ok (require (x.sender == s.oracle) permissions_denied) _ h in
      subst (λ r. HasMetadata r.1) (ok-injective h1) e
  main-HasMetadata (Entrypoint.update_oracle p) s h e =
      let (_, _, h1) = try-eq-ok (require (x.sender == s.oracle) permissions_denied) _ h in
      subst (λ r. HasMetadata r.1) (ok-injective h1) e
