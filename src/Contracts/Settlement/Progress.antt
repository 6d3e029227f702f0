-- ===== src/Contracts/Settlement/Progress.antt =====
-- That the token contract carries out what the custodian contract asks for, where it has enough.
use x4c.Base.{
  ℕ, ◌+◌, ◌≤◌, ◌≡◌, refl, true, List, [], ◌∷◌, ok, ==_iff, string_eq, nat_eq, All, arith,
}
use x4c.Base.Int.{pos, neg_ℤ, neg_ℤ-pos}
use x4c.Contracts.Balance.{
  Address, Context, Failing, fold, total, balance-update_balance, update_balance-ok,
}
use x4c.Contracts.Fa2.Types.{owner_eq, Storage, TransferTo, RetireTokens}
use x4c.Contracts.Fa2.Steps.{owner_at}
use x4c.Contracts.Fa2.Entrypoints.{insufficient_balance, may_move, transfer_one, retire_one}
use x4c.Contracts.Settlement.Custody.{IsSafe, owned, taken, retired_from}

module _ {ℓ κ μ} {A : Type 0} {B : Type ℓ} (P : A → Type κ) (Q : B → Type μ) (m : ℕ → A → ℕ)
    (out : ℕ → B → ℕ) where
  -- Where a step has enough of everything it succeeds, and takes what it says.
  abbrev pub Succeeds : (A → Failing A) → (ℕ → ℕ) → A → Type κ
  Succeeds f need a =
      ((id : ℕ) → need id ≤ m id a)
      → P a
      → (a' : A) × (f a ≡ ok a') × P a' × ((id : ℕ) → m id a ≤ m id a' + need id)

  -- So does the loop.
  pub fold-Succeeds :
      (f : A → B → Failing A)
      → ((b : B) → Q b → (a : A) → Succeeds (λ a. f a b) (λ id. out id b) a)
      → (bs : List B) → All Q bs
      → (a : A) → Succeeds (λ a. fold f bs a) (λ id. total (out id) bs) a
  unfolding fold
  fold-Succeeds f step [] _ a enough p = (a, refl, p, λ id. omega arith)
  fold-Succeeds f step (b ∷ bs) (q, qs) a enough p =
      let (a1, e1, p1, lost1) = step b q a (λ id. omega (arith, enough id)) p in
      let (a', e', p', lost') =
        fold-Succeeds f step bs qs a1 (λ id. omega (arith, enough id, lost1 id)) p1 in
      (a', rw e1 e', p', λ id. omega (arith, lost1 id, lost' id))

module _ (c : Address) (x : Context) (own : x.sender ≡ c) where
  allowed : (s : Storage) (id : ℕ) → may_move x s c id ≡ true
  allowed s id = ground (arith, own, ==_iff x.sender c)

  pub transfer_one-Succeeds :
      (from : Address)
      → from ≡ c
      → (d : TransferTo) (s : Storage) → ((id : ℕ) → taken c id from d ≤ owned c id s)
      → IsSafe c s
      → (s' : Storage) × (transfer_one x from s d ≡ ok s')
  unfolding transfer_one
  transfer_one-Succeeds from mine d s enough safe =
      let (credited, credit) =
        update_balance-ok insufficient_balance (owner_at d.to_ d.token_id) (pos d.amount) s.ledger
          (omega arith) in
      let (ledger, debit) =
        update_balance-ok insufficient_balance (owner_at from d.token_id) (neg_ℤ (pos d.amount))
          credited
          (ground (
            arith,
            mine,
            neg_ℤ-pos d.amount,
            enough d.token_id,
            ==_iff (owner_at c d.token_id) (owner_at from d.token_id),
            balance-update_balance (owner_at c d.token_id) insufficient_balance
                (owner_at d.to_ d.token_id) (pos d.amount) s.ledger safe.nodup credit,
          )) in
      let permitted : may_move x s from d.token_id ≡ true = rw mine (allowed s d.token_id) in
      (record s { ledger = ledger }, rw (permitted, credit, debit) refl)

  pub retire_one-Succeeds :
      (s0 : Storage) (p : RetireTokens)
      → p.retiring_party ≡ c
      → (s : Storage) → ((id : ℕ) → retired_from c id p ≤ owned c id s)
      → (s' : Storage) × (retire_one x s0 s p ≡ ok s')
  unfolding retire_one
  retire_one-Succeeds s0 p mine s enough =
      let o = owner_at p.retiring_party p.token_id in
      let (ledger, moved) =
        update_balance-ok insufficient_balance o (neg_ℤ (pos p.amount)) s.ledger (
          ground (
            arith,
            mine,
            neg_ℤ-pos p.amount,
            enough p.token_id,
            ==_iff (owner_at c p.token_id) o,
          )) in
      let permitted : may_move x s p.retiring_party p.token_id ≡ true =
        rw mine (allowed s p.token_id) in
      (record s0 { ledger = ledger }, rw (permitted, moved) refl)
