-- ===== src/Contracts/Custodian/Steps.antt =====
-- What one step of each loop has done, if it succeeded.
use x4c.Base.{ℕ, ◌≡◌, sym, Bool, true, ok, try-eq-ok, ok-injective, string_eq, arith}
use x4c.Base.Int.{ℤ, pos, neg_ℤ}
use x4c.Base.Dict.{Dict}
use x4c.Contracts.Balance.{Address, Bytes, Context, update_balance}
use x4c.Contracts.Custodian.Types.{
  Token, Owner, token_eq, owner_eq, Storage, Others, InternalTransferTo, InternalTransfer,
  EmitInternalMint, InternalRetireData,
}
use x4c.Contracts.Custodian.Guards.{require, permissions_denied, insufficient_balance, packed_self}
use x4c.Contracts.Custodian.Entrypoints.{may_move, transfer_one, apply_mint, take_out, retire_one}

pub require-eq-ok : (b : Bool) (code : ℕ) {u : Unit {0}} → require b code ≡ ok u → b ≡ true
require-eq-ok b code h = ground arith

abbrev pub token_at : Address → ℕ → Token
token_at address id = record { token_address = address; token_id = id }

abbrev pub owner_at : Bytes → Token → Owner
owner_at kyc token = record { kyc = kyc; token = token }

-- Both ledgers were updated by a difference for an owner.
pub record BothMoved (o : Owner) (diff : ℤ) (s s' : Storage) : Type 0 where
  pub ledger : Dict Owner ℕ
  pub external : Dict Token ℕ
  pub in_ledger : update_balance insufficient_balance o diff s.ledger ≡ ok ledger
  pub in_external : update_balance insufficient_balance o.token diff s.external_ledger ≡ ok external
  pub result : s' ≡ record s { ledger = ledger; external_ledger = external }

module _ (x : Context) where
  pub record Transferred (p : InternalTransfer) (d : InternalTransferTo) (s s' : Storage)
      : Type 0 where
    pub allowed : may_move x s p.from_ d.token_id ≡ true
    pub credited : Dict Owner ℕ
    pub ledger : Dict Owner ℕ
    pub credit :
        update_balance insufficient_balance
          (owner_at d.to_ (token_at p.token_address d.token_id))
          (pos d.amount)
          s.ledger
        ≡ ok credited
    pub debit :
        update_balance insufficient_balance
          (owner_at p.from_ (token_at p.token_address d.token_id))
          (neg_ℤ (pos d.amount))
          credited
        ≡ ok ledger
    pub result : s' ≡ record s { ledger = ledger }

  pub transfer_one-Transferred :
      (p : InternalTransfer) (d : InternalTransferTo) (s s' : Storage)
      → transfer_one x p s d ≡ ok s'
      → Transferred p d s s'
  unfolding transfer_one
  transfer_one-Transferred p d s s' h =
      let token : Token = token_at p.token_address d.token_id in
      let (_, allowed, h1) =
        try-eq-ok (require (may_move x s p.from_ d.token_id) permissions_denied) _ h in
      let (credited, credit, h2) =
        try-eq-ok
          (update_balance insufficient_balance (owner_at d.to_ token) (pos d.amount) s.ledger) _
          h1 in
      let (ledger, debit, h3) =
        try-eq-ok
          (update_balance insufficient_balance (owner_at p.from_ token) (neg_ℤ (pos d.amount))
            credited)
          _ h2 in
      record {
        allowed = require-eq-ok _ _ allowed;
        credited = credited;
        ledger = ledger;
        credit = credit;
        debit = debit;
        result = sym (ok-injective h3);
      }

  module _ (others : Others) where
    pub apply_mint-BothMoved :
        (u : EmitInternalMint) (s s' : Storage)
        → apply_mint x others s u ≡ ok s'
        → BothMoved (owner_at packed_self u.token) u.amount s s'
    unfolding apply_mint
    apply_mint-BothMoved u s s' h =
        let (ledger, e1, h1) =
          try-eq-ok
            (update_balance insufficient_balance (owner_at packed_self u.token) u.amount s.ledger) _
            h in
        let (external, e2, h2) =
          try-eq-ok (update_balance insufficient_balance u.token u.amount s.external_ledger) _ h1 in
        record {
          ledger = ledger;
          external = external;
          in_ledger = e1;
          in_external = e2;
          result = sym (ok-injective h2);
        }

    pub take_out-BothMoved :
        (o : Owner) (n : ℕ) (s s' : Storage)
        → take_out x others o n s ≡ ok s'
        → BothMoved o (neg_ℤ (pos n)) s s'
    unfolding take_out
    take_out-BothMoved o n s s' h =
        let less = neg_ℤ (pos n) in
        let (ledger, e1, h1) =
          try-eq-ok (update_balance insufficient_balance o less s.ledger) _ h in
        let (external, e2, h2) =
          try-eq-ok (update_balance insufficient_balance o.token less s.external_ledger) _ h1 in
        record {
          ledger = ledger;
          external = external;
          in_ledger = e1;
          in_external = e2;
          result = sym (ok-injective h2);
        }

    pub retire_one-eq-ok :
        (a : Address) (d : InternalRetireData) (s s' : Storage)
        → retire_one x others a s d ≡ ok s'
        → (may_move x s d.retiring_party_kyc d.token_id ≡ true)
          × BothMoved
              (owner_at d.retiring_party_kyc (token_at a d.token_id))
              (neg_ℤ (pos d.amount))
              s
              s'
    unfolding retire_one
    retire_one-eq-ok a d s s' h =
        let (_, allowed, h1) =
          try-eq-ok (require (may_move x s d.retiring_party_kyc d.token_id) permissions_denied) _
            h in
        (
          require-eq-ok _ _ allowed,
          take_out-BothMoved (owner_at d.retiring_party_kyc (token_at a d.token_id)) d.amount s s'
              h1,
        )
