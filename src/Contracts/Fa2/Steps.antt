-- ===== src/Contracts/Fa2/Steps.antt =====
-- What one step of each loop of the FA2 contract does where it succeeds.
use x4c.Base.{
  ℕ, ◌≡◌, sym, true, Bool, ok, try-eq-ok, ok-injective, not, ◌==◌, ==_iff, nat_eq, string_eq, arith,
}
use x4c.Base.Int.{ℤ, pos, neg_ℤ}
use x4c.Base.Dict.{Dict, contains, insert}
use x4c.Contracts.Balance.{Address, Context, update_balance}
use x4c.Contracts.Fa2.Types.{
  Owner, owner_eq, Storage, TransferTo, MintData, RetireTokens, TokenMetadata, UpdateOperator,
  add_operator, remove_operator,
}
use x4c.Contracts.Fa2.Entrypoints.{
  require, may_move, permissions_denied, insufficient_balance, token_undefined, id_already_in_use,
  collision, transfer_one, mint_one, retire_one, add_one, update_operator,
}

pub require-true : (b : Bool) (code : ℕ) {u : Unit {0}} → require b code ≡ ok u → b ≡ true
require-true b code h = ground (arith, h)

abbrev pub owner_at : Address → ℕ → Owner
owner_at owner id = record { token_owner = owner; token_id = id }

-- One balance was updated, and nothing else of the storage at the start of the call.
pub record Changed (o : Owner) (diff : ℤ) (s0 s s' : Storage) : Type 0 where
  pub ledger : Dict Owner ℕ
  pub moved : update_balance insufficient_balance o diff s.ledger ≡ ok ledger
  pub result : s' ≡ record s0 { ledger = ledger }

-- The destination was credited, and then the source debited.
pub record Transferred (from : Address) (d : TransferTo) (s s' : Storage) : Type 0 where
  pub credited : Dict Owner ℕ
  pub ledger : Dict Owner ℕ
  pub credit :
      update_balance insufficient_balance (owner_at d.to_ d.token_id) (pos d.amount) s.ledger
      ≡ ok credited
  pub debit :
      update_balance insufficient_balance (owner_at from d.token_id) (neg_ℤ (pos d.amount)) credited
      ≡ ok ledger
  pub result : s' ≡ record s { ledger = ledger }

-- Whom an update of operators is for.
abbrev pub owner_in : UpdateOperator → Address
owner_in (add_operator o) = o.owner
owner_in (remove_operator o) = o.owner

module _ (x : Context) where
  pub transfer_one-Transferred :
      (from : Address) (s : Storage) (d : TransferTo) (s' : Storage)
      → transfer_one x from s d ≡ ok s'
      → (may_move x s from d.token_id ≡ true) × Transferred from d s s'
  unfolding transfer_one
  transfer_one-Transferred from s d s' h =
      let (_, allowed, h1) =
        try-eq-ok (require (may_move x s from d.token_id) permissions_denied) _ h in
      let (credited, credit, h2) =
        try-eq-ok
          (update_balance insufficient_balance (owner_at d.to_ d.token_id) (pos d.amount) s.ledger)
          _ h1 in
      let (ledger, debit, h3) =
        try-eq-ok
          (update_balance insufficient_balance (owner_at from d.token_id) (neg_ℤ (pos d.amount))
            credited)
          _ h2 in
      (
        require-true _ _ allowed,
        record {
          credited = credited;
          ledger = ledger;
          credit = credit;
          debit = debit;
          result = sym (ok-injective h3);
        },
      )

  pub mint_one-Changed :
      (s0 s : Storage) (p : MintData) (s' : Storage)
      → mint_one x s0 s p ≡ ok s'
      → (contains p.token_id s0.token_metadata ≡ true)
        × Changed (owner_at p.owner p.token_id) (pos p.qty) s0 s s'
  unfolding mint_one
  mint_one-Changed s0 s p s' h =
      let (_, known, h1) =
        try-eq-ok (require (contains p.token_id s0.token_metadata) token_undefined) _ h in
      let (ledger, moved, h2) =
        try-eq-ok
          (update_balance insufficient_balance (owner_at p.owner p.token_id) (pos p.qty) s.ledger) _
          h1 in
      (
        require-true _ _ known,
        record { ledger = ledger; moved = moved; result = sym (ok-injective h2) },
      )

  pub retire_one-Changed :
      (s0 s : Storage) (p : RetireTokens) (s' : Storage)
      → retire_one x s0 s p ≡ ok s'
      → (may_move x s p.retiring_party p.token_id ≡ true)
        × Changed (owner_at p.retiring_party p.token_id) (neg_ℤ (pos p.amount)) s0 s s'
  unfolding retire_one
  retire_one-Changed s0 s p s' h =
      let (_, allowed, h1) =
        try-eq-ok (require (may_move x s p.retiring_party p.token_id) permissions_denied) _ h in
      let (ledger, moved, h2) =
        try-eq-ok
          (update_balance insufficient_balance (owner_at p.retiring_party p.token_id)
            (neg_ℤ (pos p.amount)) s.ledger)
          _ h1 in
      (
        require-true _ _ allowed,
        record { ledger = ledger; moved = moved; result = sym (ok-injective h2) },
      )

  pub add_one-eq-ok :
      (s : Storage) (d : TokenMetadata) (s' : Storage)
      → add_one x s d ≡ ok s'
      → (not (contains d.token_id s.token_metadata) ≡ true)
        × (s' ≡ record s { token_metadata = insert d.token_id d s.token_metadata })
  unfolding add_one
  add_one-eq-ok s d s' h =
      let (_, fresh, h1) =
        try-eq-ok (require (not (contains d.token_id s.token_metadata)) id_already_in_use) _ h in
      (require-true _ _ fresh, sym (ok-injective h1))

  pub update_operator-eq-ok :
      (s : Storage) (p : UpdateOperator) (s' : Storage)
      → update_operator x s p ≡ ok s'
      → (x.sender ≡ owner_in p) × (s' ≡ record s { operators = s'.operators })
  unfolding update_operator
  update_operator-eq-ok s (add_operator o) s' h =
      let (_, allowed, h1) = try-eq-ok (require (x.sender == o.owner) permissions_denied) _ h in
      let (_, _, h2) = try-eq-ok (require (not (o.operator == o.owner)) collision) _ h1 in
      ((==_iff x.sender o.owner).0 (require-true _ _ allowed), ground (arith, ok-injective h2))
  update_operator-eq-ok s (remove_operator o) s' h =
      let (_, allowed, h1) = try-eq-ok (require (x.sender == o.owner) permissions_denied) _ h in
      ((==_iff x.sender o.owner).0 (require-true _ _ allowed), ground (arith, ok-injective h1))
