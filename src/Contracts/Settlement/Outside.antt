-- ===== src/Contracts/Settlement/Outside.antt =====
-- What calls of fa2.mligo by others do to the tokens of a holder that has named no operator.
use x4c.Base.{
  ℕ, ◌+◌, ◌≤◌, ◌≡◌, ◌≢◌, refl, sym, ap, subst, ◌∙◌, true, false, List, [], ◌∷◌, ok, try-eq-ok,
  ok-injective, ◌==◌, ==_iff, not, string_eq, nat_eq, arith,
}
use x4c.Base.Int.{pos}
use x4c.Contracts.Balance.{Address, Context, total-zero, balance-update_balance}
use x4c.Contracts.Fa2.Types.{
  Operator, owner_eq, operator_eq, Storage, TransferTo, Transfer, UpdateOperator, add_operator,
  remove_operator, MintData, RetireTokens, TokenMetadata,
}
use x4c.Contracts.Fa2.Steps.{
  owner_at, require-true, transfer_one-Transferred, mint_one-Changed, retire_one-Changed,
  add_one-eq-ok,
}
use x4c.Contracts.Fa2.Entrypoints.{
  require, permissions_denied, collision, insufficient_balance, may_move, is_operator, set_add,
  set_remove, transfer_one, transfer_batch, update_operator, mint_one, retire_one, add_one,
}
use x4c.Contracts.Settlement.Custody.{
  IsSafe, owned, update-IsSafe, fold_loses, transfer_one-loses, retire_one-loses,
}

is_operator-set_remove :
    (o p : Operator) (operators : List Operator)
    → is_operator o operators ≡ false
    → is_operator o (set_remove p operators) ≡ false
unfolding is_operator set_remove
is_operator-set_remove o p [] h = refl
is_operator-set_remove o p (q ∷ operators) h = ground (arith, is_operator-set_remove o p operators)

is_operator-set_add :
    (o p : Operator) (operators : List Operator)
    → o ≢ p
    → is_operator o operators ≡ false
    → is_operator o (set_add p operators) ≡ false
unfolding is_operator
is_operator-set_add o p operators differ h = ground (arith, ==_iff o p)

module _ (c : Address) (x : Context) (outside : x.sender ≢ c) where
  -- The holder keeps what it has, and the storage stays safe.
  abbrev pub Keeps : ℕ → Storage → Storage → Type 0
  Keeps id s s' = IsSafe c s' × (owned c id s ≤ owned c id s' + 0)

  not_holder :
      (s : Storage) (from : Address) (id : ℕ) → IsSafe c s → may_move x s from id ≡ true → from ≢ c
  not_holder s from id safe allowed e =
      let refused : is_operator
            (record { token_owner = from; token_operator = x.sender; token_id = id }) s.operators
          ≡ false =
        rw e (safe.no_operator x.sender id) in
      outside (ground (arith, refused, e, ==_iff x.sender from))

  transfer_one-Keeps :
      (id : ℕ) (from : Address) (s : Storage) (d : TransferTo) (s' : Storage)
      → transfer_one x from s d ≡ ok s'
      → IsSafe c s
      → Keeps id s s'
  transfer_one-Keeps id from s d s' h safe =
      let (allowed, _) = transfer_one-Transferred x from s d s' h in
      let (safe', lost) = transfer_one-loses c x id from s d s' h safe in
      let other : from ≢ c = not_holder s from d.token_id safe allowed in
      (safe', ground (arith, lost, ==_iff (owner_at c id) (owner_at from d.token_id)))

  pub transfer_batch-Keeps :
      (id : ℕ) (s : Storage) (p : Transfer) (s' : Storage)
      → transfer_batch x s p ≡ ok s'
      → IsSafe c s
      → Keeps id s s'
  unfolding transfer_batch
  transfer_batch-Keeps id s p s' h safe =
      let (safe', lost) =
        fold_loses (IsSafe c) (owned c id) (λ _. 0) (transfer_one x p.from_)
          (transfer_one-Keeps id p.from_) p.txs s s' h safe in
      (safe', omega (arith, lost, total-zero {0} p.txs))

  pub retire_one-Keeps :
      (id : ℕ) (s0 : Storage)
      → IsSafe c s0
      → (s : Storage) (p : RetireTokens) (s' : Storage) → retire_one x s0 s p ≡ ok s'
      → IsSafe c s
      → Keeps id s s'
  retire_one-Keeps id s0 safe0 s p s' h safe =
      let (allowed, _) = retire_one-Changed x s0 s p s' h in
      let (safe', lost) = retire_one-loses c x id s0 safe0 s p s' h safe in
      let other : p.retiring_party ≢ c = not_holder s p.retiring_party p.token_id safe allowed in
      (safe', ground (arith, lost, ==_iff (owner_at c id) (owner_at p.retiring_party p.token_id)))

  pub mint_one-Keeps :
      (id : ℕ) (s0 : Storage)
      → IsSafe c s0
      → (s : Storage) (p : MintData) (s' : Storage) → mint_one x s0 s p ≡ ok s'
      → IsSafe c s
      → Keeps id s s'
  mint_one-Keeps id s0 safe0 s p s' h safe =
      let (_, m) = mint_one-Changed x s0 s p s' h in
      let o = owner_at p.owner p.token_id in
      (
        subst (IsSafe c) (sym m.result) (update-IsSafe c o (pos p.qty) s0 s m.moved safe0 safe),
        ground (
          arith,
          m.result,
          balance-update_balance (owner_at c id) insufficient_balance o (pos p.qty) s.ledger
              safe.nodup m.moved,
        ),
      )

  pub add_one-Keeps :
      (id : ℕ) (s : Storage) (d : TokenMetadata) (s' : Storage)
      → add_one x s d ≡ ok s'
      → IsSafe c s
      → Keeps id s s'
  add_one-Keeps id s d s' h safe =
      let (_, same) = add_one-eq-ok x s d s' h in
      (
        subst (IsSafe c) (sym same) (record { nodup = safe.nodup; no_operator = safe.no_operator }),
        omega (arith, ap (owned c id) same),
      )

  -- Only the owner of an operator changes it, so the holder's stay none.
  pub update_operator-Keeps :
      (id : ℕ) (s : Storage) (p : UpdateOperator) (s' : Storage)
      → update_operator x s p ≡ ok s'
      → IsSafe c s
      → Keeps id s s'
  unfolding update_operator
  update_operator-Keeps id s (add_operator o) s' h safe =
      let (_, allowed, h1) = try-eq-ok (require (x.sender == o.owner) permissions_denied) _ h in
      let (_, _, h2) = try-eq-ok (require (not (o.operator == o.owner)) collision) _ h1 in
      let mine : x.sender ≡ o.owner = (==_iff x.sender o.owner).0 (require-true _ _ allowed) in
      (
        subst (IsSafe c) (ok-injective h2) (record {
          nodup = safe.nodup;
          no_operator = λ operator i.
              is_operator-set_add _ _ s.operators
                (λ e. outside (mine ∙ sym (ap (λ q. q.token_owner) e)))
                (safe.no_operator operator i);
        }),
        omega (arith, ap (owned c id) (ok-injective h2)),
      )
  update_operator-Keeps id s (remove_operator o) s' h safe =
      let (_, _, h1) = try-eq-ok (require (x.sender == o.owner) permissions_denied) _ h in
      (
        subst (IsSafe c) (ok-injective h1) (record {
          nodup = safe.nodup;
          no_operator =
              λ operator i. is_operator-set_remove _ _ s.operators (safe.no_operator operator i);
        }),
        omega (arith, ap (owned c id) (ok-injective h1)),
      )
