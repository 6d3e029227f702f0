-- ===== src/Contracts/Settlement/Custody.antt =====
-- What calls of fa2.mligo do to the tokens of one holder that has named no operator.
use x4c.Base.{
  ℕ, ◌+◌, ◌≤◌, ◌≡◌, sym, ap, subst, false, List, [], ◌∷◌, ok, try-eq-ok, ok-injective, ◌==◌,
  if◌then◌else◌, string_eq, nat_eq, arith,
}
use x4c.Base.Int.{ℤ, pos, neg_ℤ, neg_ℤ-pos}
use x4c.Base.Dict.{Dict, NodupKeys}
use x4c.Contracts.Balance.{
  Address, Context, Failing, fold, total, balance, update_balance, balance-update_balance,
  update_balance-NodupKeys,
}
use x4c.Contracts.Fa2.Types.{
  Owner, owner_eq, operator_eq, Storage, TransferTo, Transfer, RetireTokens,
}
use x4c.Contracts.Fa2.Steps.{owner_at, transfer_one-Transferred, retire_one-Changed}
use x4c.Contracts.Fa2.Entrypoints.{
  insufficient_balance, is_operator, transfer_one, transfer_batch, retire_one,
}

-- A loop whose steps lose at most an amount each loses at most the sum.
pub fold_loses {ℓ κ} :
    {A : Type 0} {B : Type ℓ} (P : A → Type κ) (m : A → ℕ) (out : B → ℕ) (f : A → B → Failing A)
    → ((a : A) (b : B) (a' : A) → f a b ≡ ok a' → P a → P a' × (m a ≤ m a' + out b))
    → (bs : List B) (a a' : A) → fold f bs a ≡ ok a'
    → P a
    → P a' × (m a ≤ m a' + total out bs)
unfolding fold
fold_loses P m out f step [] a a' h p =
    (subst P (ok-injective h) p, omega (arith, ap m (ok-injective h)))
fold_loses P m out f step (b ∷ bs) a a' h p =
    let (a1, e, rest) = try-eq-ok (f a b) (λ a'. fold f bs a') h in
    let (p1, lost) = step a b a1 e p in
    let (p', lost') = fold_loses P m out f step bs a1 a' rest p1 in (p', omega (arith, lost, lost'))

module _ (c : Address) where
  -- The holder has named no operator, and the ledger has each key once.
  pub record IsSafe (s : Storage) : Type 0 where
    pub nodup : NodupKeys s.ledger
    pub no_operator :
        (operator : Address) (id : ℕ)
        → is_operator
            (record { token_owner = c; token_operator = operator; token_id = id })
            s.operators
          ≡ false

  -- What the holder has of a token.
  abbrev pub owned : ℕ → Storage → ℕ
  owned id s = balance (owner_at c id) s.ledger

  -- An update of one balance of a safe storage.
  pub update-IsSafe :
      (o : Owner) (diff : ℤ) (s0 s : Storage) {ledger : Dict Owner ℕ}
      → update_balance insufficient_balance o diff s.ledger ≡ ok ledger
      → IsSafe s0
      → IsSafe s
      → IsSafe (record s0 { ledger = ledger })
  update-IsSafe o diff s0 s e safe0 safe = record {
    nodup = update_balance-NodupKeys insufficient_balance o diff s.ledger safe.nodup e;
    no_operator = safe0.no_operator;
  }

  abbrev pub taken : ℕ → Address → TransferTo → ℕ
  taken id from d = if owner_at c id == owner_at from d.token_id then d.amount else 0

  abbrev pub retired_from : ℕ → RetireTokens → ℕ
  retired_from id p = if owner_at c id == owner_at p.retiring_party p.token_id then p.amount else 0

  module _ (x : Context) where
    pub transfer_one-loses :
        (id : ℕ) (from : Address) (s : Storage) (d : TransferTo) (s' : Storage)
        → transfer_one x from s d ≡ ok s'
        → IsSafe s
        → IsSafe s' × (owned id s ≤ owned id s' + taken id from d)
    transfer_one-loses id from s d s' h safe =
        let (_, m) = transfer_one-Transferred x from s d s' h in
        let credited =
          update_balance-NodupKeys _ (owner_at d.to_ d.token_id) _ s.ledger safe.nodup m.credit in
        (
          subst IsSafe (sym m.result) (record {
            nodup =
                update_balance-NodupKeys _ (owner_at from d.token_id) _ m.credited credited m.debit;
            no_operator = safe.no_operator;
          }),
          ground (
            arith,
            m.result,
            neg_ℤ-pos d.amount,
            balance-update_balance (owner_at c id) insufficient_balance (owner_at d.to_ d.token_id)
                (pos d.amount) s.ledger safe.nodup m.credit,
            balance-update_balance (owner_at c id) insufficient_balance (owner_at from d.token_id)
                (neg_ℤ (pos d.amount)) m.credited credited m.debit,
          ),
        )

    pub transfer_batch-loses :
        (id : ℕ) (s : Storage) (p : Transfer) (s' : Storage)
        → transfer_batch x s p ≡ ok s'
        → IsSafe s
        → IsSafe s' × (owned id s ≤ owned id s' + total (taken id p.from_) p.txs)
    unfolding transfer_batch
    transfer_batch-loses id s p s' h safe =
        fold_loses IsSafe (owned id) (taken id p.from_) (transfer_one x p.from_)
          (transfer_one-loses id p.from_) p.txs s s' h safe

    pub retire_one-loses :
        (id : ℕ) (s0 : Storage)
        → IsSafe s0
        → (s : Storage) (p : RetireTokens) (s' : Storage) → retire_one x s0 s p ≡ ok s'
        → IsSafe s
        → IsSafe s' × (owned id s ≤ owned id s' + retired_from id p)
    retire_one-loses id s0 safe0 s p s' h safe =
        let (_, m) = retire_one-Changed x s0 s p s' h in
        let o = owner_at p.retiring_party p.token_id in
        (
          subst IsSafe (sym m.result) (update-IsSafe o _ s0 s m.moved safe0 safe),
          ground (
            arith,
            m.result,
            neg_ℤ-pos p.amount,
            balance-update_balance (owner_at c id) insufficient_balance o (neg_ℤ (pos p.amount))
                s.ledger safe.nodup m.moved,
          ),
        )
