-- ===== src/Contracts/Custodian/Backing.antt =====
-- The agreement of the two ledgers of custodian.mligo: the steps of the loops. The calls are in the
-- child.
pub mod Calls
use x4c.Base.{ℕ, ◌+◌, ◌≡◌, sym, subst, Bool, Outcome, ok, ◌==◌, if◌then◌else◌, arith}
use x4c.Base.Int.{ℤ, pos, neg_ℤ, neg_ℤ-pos}
use x4c.Base.Dict.{Dict, NodupKeys}
use x4c.Contracts.Balance.{
  Context, balance, update_balance, sum_where, sum_where-update_balance, balance-update_balance,
  update_balance-NodupKeys,
}
use x4c.Contracts.Custodian.Types.{
  Token, Owner, token_eq, owner_eq, Storage, InternalTransferTo, InternalTransfer,
}
use x4c.Contracts.Custodian.Guards.{insufficient_balance}
use x4c.Contracts.Custodian.Steps.{BothMoved, Transferred, token_at, owner_at}

abbrev pub holds : Token → Owner → Bool
holds t owner = t == owner.token

-- The sum over all owners of what the contract holds of a token.
abbrev pub held : Token → Dict Owner ℕ → ℕ
held t = sum_where (holds t)

pub record IsBacked (s : Storage) : Type 0 where
  pub ledger_nodup : NodupKeys s.ledger
  pub external_nodup : NodupKeys s.external_ledger
  pub agree : (t : Token) → held t s.ledger ≡ balance t s.external_ledger

pub BothMoved-IsBacked :
    (o : Owner) (diff : ℤ) (s s' : Storage) → BothMoved o diff s s' → IsBacked s → IsBacked s'
BothMoved-IsBacked o diff s s' m b = subst IsBacked (sym m.result) (record {
  ledger_nodup = update_balance-NodupKeys _ o diff s.ledger b.ledger_nodup m.in_ledger;
  external_nodup =
      update_balance-NodupKeys _ o.token diff s.external_ledger b.external_nodup m.in_external;
  agree = λ t. ground (
    arith,
    b.agree t,
    sum_where-update_balance (holds t) insufficient_balance o diff s.ledger m.in_ledger,
    balance-update_balance t insufficient_balance o.token diff s.external_ledger b.external_nodup
        m.in_external,
  );
})

module _ (x : Context) {p : InternalTransfer} {d : InternalTransferTo} {s s' : Storage}
    (m : Transferred x p d s s') where
  abbrev moved : Token
  moved = token_at p.token_address d.token_id

  -- A transfer between owners of one token leaves every sum alone.
  pub held-Transferred : (t : Token) → held t s'.ledger ≡ held t s.ledger
  held-Transferred t = ground (
    arith,
    m.result,
    neg_ℤ-pos d.amount,
    sum_where-update_balance (holds t) insufficient_balance (owner_at d.to_ moved) (pos d.amount)
        s.ledger m.credit,
    sum_where-update_balance (holds t) insufficient_balance (owner_at p.from_ moved)
        (neg_ℤ (pos d.amount)) m.credited m.debit,
  )

  pub Transferred-IsBacked : IsBacked s → IsBacked s'
  Transferred-IsBacked b =
      let n1 =
        update_balance-NodupKeys _ (owner_at d.to_ moved) (pos d.amount) s.ledger b.ledger_nodup
          m.credit in
      let n2 =
        update_balance-NodupKeys _ (owner_at p.from_ moved) (neg_ℤ (pos d.amount)) m.credited n1
          m.debit in
      record {
        ledger_nodup = subst (λ r. NodupKeys r.ledger) (sym m.result) n2;
        external_nodup = subst (λ r. NodupKeys r.external_ledger) (sym m.result) b.external_nodup;
        agree = λ t. ground (arith, m.result, b.agree t, held-Transferred t);
      }
