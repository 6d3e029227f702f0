-- ===== src/Contracts/Settlement/Keeping.antt =====
-- The calls of fa2.mligo by others, and the calls that the custodian contract asks for, against what
-- the custodian contract has.
use x4c.Base.{
  ℕ, ◌+◌, ◌≤◌, ◌≡◌, ◌≢◌, subst, List, [], ◌∷◌, map, ok, try-eq-ok, ok-injective, ◌==◌, ==_iff,
  string_eq, nat_eq, arith,
}
use x4c.Contracts.Balance.{Address, Context, Failing, fold, total, total-zero}
use x4c.Contracts.Custodian
use x4c.Contracts.Custodian.Types.{
  Token, TransferTo, call_transfer, call_retire, emit_internal_transfer, emit_internal_mint,
  emit_retire,
}
use x4c.Contracts.Custodian.Settling.{part}
use x4c.Contracts.Fa2.Types.{Storage, owner_eq, Transfer, Entrypoint, Operation}
use x4c.Contracts.Fa2.Steps.{owner_at}
use x4c.Contracts.Fa2.Entrypoints.{
  require, permissions_denied, transfer_batch, transfer, balance_of, update_operator,
  update_operators, mint_one, mint_tokens, retire_one, retire_tokens, add_one, add_token_id,
  update_contract_metadata, update_oracle, main,
}
use x4c.Contracts.Settlement.{World, token_transfer, token_retire, from_custodian}
use x4c.Contracts.Settlement.Owed.{sent, sent_all}
use x4c.Contracts.Settlement.Custody.{
  IsSafe, owned, taken, retired_from, fold_loses, transfer_batch-loses, retire_one-loses,
}
use x4c.Contracts.Settlement.Outside.{
  Keeps, transfer_batch-Keeps, retire_one-Keeps, mint_one-Keeps, add_one-Keeps,
  update_operator-Keeps,
}

module _ (c : Address) (x : Context) (outside : x.sender ≢ c) (id : ℕ) where
  -- A loop whose steps keep what the holder has keeps it.
  fold-Keeps :
      {B : Type 0} (f : Storage → B → Failing Storage)
      → ((a : Storage) (b : B) (a' : Storage)
          → f a b ≡ ok a'
          → IsSafe c a
          → Keeps c x outside id a a')
      → (bs : List B) (s updated : Storage) → fold f bs s ≡ ok updated
      → IsSafe c s
      → Keeps c x outside id s updated
  fold-Keeps f step bs s updated e safe =
      let (safe', lost) = fold_loses (IsSafe c) (owned c id) (λ _. 0) f step bs s updated e safe in
      (safe', omega (arith, lost, total-zero {0} bs))

  -- A call of the token contract by anyone but the holder takes nothing from a holder that has named
  -- no operator, and names none for it.
  pub main-Keeps :
      (call : Entrypoint) (s : Storage) {ops : List Operation} {s' : Storage}
      → main x call s ≡ ok (ops, s')
      → IsSafe c s
      → Keeps c x outside id s s'
  unfolding main transfer balance_of update_operators mint_tokens retire_tokens add_token_id
      update_contract_metadata update_oracle
  main-Keeps (Entrypoint.transfer p) s h safe =
      let (updated, e, h1) = try-eq-ok (fold (transfer_batch x) p s) _ h in
      subst (λ r. Keeps c x outside id s r.1) (ok-injective h1)
        (fold-Keeps (transfer_batch x) (transfer_batch-Keeps c x outside id) p s updated e safe)
  main-Keeps (Entrypoint.balance_of requests callback) s h safe =
      subst (λ r. Keeps c x outside id s r.1) (ok-injective h) (safe, omega arith)
  main-Keeps (Entrypoint.update_operators p) s h safe =
      let (updated, e, h1) = try-eq-ok (fold (update_operator x) p s) _ h in
      subst (λ r. Keeps c x outside id s r.1) (ok-injective h1)
        (fold-Keeps (update_operator x) (update_operator-Keeps c x outside id) p s updated e safe)
  main-Keeps (Entrypoint.mint p) s h safe =
      let (_, _, h1) = try-eq-ok (require (x.sender == s.oracle) permissions_denied) _ h in
      let (updated, e, h2) = try-eq-ok (fold (mint_one x s) p s) _ h1 in
      subst (λ r. Keeps c x outside id s r.1) (ok-injective h2)
        (fold-Keeps (mint_one x s) (mint_one-Keeps c x outside id s safe) p s updated e safe)
  main-Keeps (Entrypoint.retire p) s h safe =
      let (updated, e, h1) = try-eq-ok (fold (retire_one x s) p s) _ h in
      subst (λ r. Keeps c x outside id s r.1) (ok-injective h1)
        (fold-Keeps (retire_one x s) (retire_one-Keeps c x outside id s safe) p s updated e safe)
  main-Keeps (Entrypoint.add_token_id p) s h safe =
      let (_, _, h1) = try-eq-ok (require (x.sender == s.oracle) permissions_denied) _ h in
      let (updated, e, h2) = try-eq-ok (fold (add_one x) p s) _ h1 in
      subst (λ r. Keeps c x outside id s r.1) (ok-injective h2)
        (fold-Keeps (add_one x) (add_one-Keeps c x outside id) p s updated e safe)
  main-Keeps (Entrypoint.update_contract_metadata p) s h safe =
      let (_, _, h1) = try-eq-ok (require (x.sender == s.oracle) permissions_denied) _ h in
      subst (λ r. Keeps c x outside id s r.1) (ok-injective h1)
        (record { nodup = safe.nodup; no_operator = safe.no_operator }, omega arith)
  main-Keeps (Entrypoint.update_oracle p) s h safe =
      let (_, _, h1) = try-eq-ok (require (x.sender == s.oracle) permissions_denied) _ h in
      subst (λ r. Keeps c x outside id s r.1) (ok-injective h1)
        (record { nodup = safe.nodup; no_operator = safe.no_operator }, omega arith)

module _ (w : World) (id : ℕ) where
  abbrev pub here : Token
  here = record { token_address = w.token_address; token_id = id }

  taken-le :
      (from : Address) (txs : List TransferTo)
      → total
          (taken w.custodian_address id from)
          (map (λ d. record { to_ = d.to_; token_id = d.token_id; amount = d.amount }) txs)
        ≤ total (sent here) txs
  taken-le from [] = omega arith
  taken-le from (d ∷ txs) = ground (
    arith,
    ==_iff (owner_at w.custodian_address id) (owner_at from d.token_id),
    taken-le from txs,
  )

  abbrev pub out : Transfer → ℕ
  out p = total (taken w.custodian_address id p.from_) p.txs

  pub out-le :
      (ts : List Custodian.Types.Transfer)
      → total out (map token_transfer ts) ≤ total (sent_all here) ts
  out-le [] = omega arith
  out-le (p ∷ ts) = omega (arith, taken-le p.from_ p.txs, out-le ts)

  pub retired-le :
      (rs : List Custodian.Types.ExternalRetire)
      → total (retired_from w.custodian_address id) (map token_retire rs) ≤ total (part here) rs
  retired-le [] = omega arith
  retired-le (r ∷ rs) = ground (
    arith,
    ==_iff (owner_at w.custodian_address id) (owner_at r.retiring_party r.token_id),
    retired-le rs,
  )

  abbrev pub Loses : ℕ → Storage → Storage → Type 0
  Loses n s s' =
      IsSafe w.custodian_address s'
      × (owned w.custodian_address id s ≤ owned w.custodian_address id s' + n)

  pub transfer-Loses :
      (ts : List Custodian.Types.Transfer) (s : Storage) {ops : List Operation} {s' : Storage}
      → main (from_custodian w) (Entrypoint.transfer (map token_transfer ts)) s ≡ ok (ops, s')
      → IsSafe w.custodian_address s
      → Loses (total (sent_all here) ts) s s'
  unfolding main transfer
  transfer-Loses ts s h safe =
      let x = from_custodian w in
      let (updated, e, h1) = try-eq-ok (fold (transfer_batch x) (map token_transfer ts) s) _ h in
      let (safe', lost) =
        fold_loses (IsSafe w.custodian_address) (owned w.custodian_address id) out
          (transfer_batch x) (transfer_batch-loses w.custodian_address x id) (map token_transfer ts)
          s updated e safe in
      subst (λ r. Loses (total (sent_all here) ts) s r.1) (ok-injective h1)
        (safe', omega (arith, lost, out-le ts))

  pub retire-Loses :
      (rs : List Custodian.Types.ExternalRetire) (s : Storage) {ops : List Operation} {s' : Storage}
      → main (from_custodian w) (Entrypoint.retire (map token_retire rs)) s ≡ ok (ops, s')
      → IsSafe w.custodian_address s
      → Loses (total (part here) rs) s s'
  unfolding main retire_tokens
  retire-Loses rs s h safe =
      let x = from_custodian w in
      let (updated, e, h1) = try-eq-ok (fold (retire_one x s) (map token_retire rs) s) _ h in
      let (safe', lost) =
        fold_loses (IsSafe w.custodian_address) (owned w.custodian_address id)
          (retired_from w.custodian_address id) (retire_one x s)
          (retire_one-loses w.custodian_address x id s safe) (map token_retire rs) s updated e
          safe in
      subst (λ r. Loses (total (part here) rs) s r.1) (ok-injective h1)
        (safe', omega (arith, lost, retired-le rs))
