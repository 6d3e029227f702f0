-- ===== src/Contracts/Custodian/Accepting.antt =====
-- When custodian.mligo accepts a retirement.
use mathlib.Core.List.{flat_map}
use x4c.Base.{
  ℕ, ◌≤◌, ◌≡◌, ◌↔◌, refl, true, List, [], ◌∷◌, ok, try-eq-ok, ==_iff, string_eq, nat_eq, arith,
}
use x4c.Base.Int.{pos, neg_ℤ, neg_ℤ-pos}
use x4c.Contracts.Balance.{
  Address, Context, fold, balance, update_balance-ok, balance-le-sum_where, balance-update_balance,
}
use x4c.Contracts.Custodian.Types.{
  Owner, token_eq, owner_eq, Storage, Others, InternalRetireData, InternalRetire, Operation,
}
use x4c.Contracts.Custodian.Guards.{insufficient_balance}
use x4c.Contracts.Custodian.Entrypoints.{
  may_move, take_out, retire_one, retire_batch, retire, calls, retire_call, retire_event,
}
use x4c.Contracts.Custodian.Steps.{token_at, owner_at, retire_one-eq-ok}
use x4c.Contracts.Custodian.Backing.{IsBacked, held, holds}

abbrev owner : Address → InternalRetireData → Owner
owner address d = owner_at d.retiring_party_kyc (token_at address d.token_id)

-- The retirement of one amount.
abbrev pub retirement : Address → InternalRetireData → InternalRetire
retirement address d = record { token_address = address; txs = d ∷ [] }

-- What is asked of the sender and of the owner's balance.
abbrev pub IsAcceptable : Context → Address → InternalRetireData → Storage → Type 0
IsAcceptable x address d s =
    (may_move x s d.retiring_party_kyc d.token_id ≡ true)
    × (d.amount ≤ balance (owner address d) s.ledger)

module _ (x : Context) (others : Others) where
  take_out-ok :
      (o : Owner) (n : ℕ) (s : Storage)
      → IsBacked s
      → n ≤ balance o s.ledger
      → (s' : Storage) × (take_out x others o n s ≡ ok s')
  unfolding take_out
  take_out-ok o n s backed enough =
      let less = neg_ℤ (pos n) in
      let (ledger, e1) =
        update_balance-ok insufficient_balance o less s.ledger
          (omega (arith, neg_ℤ-pos n, enough)) in
      let part : balance o s.ledger ≤ held o.token s.ledger =
        balance-le-sum_where (holds o.token) o s.ledger ((==_iff o.token o.token).1 refl) in
      let (external, e2) =
        update_balance-ok insufficient_balance o.token less s.external_ledger
          (omega (arith, neg_ℤ-pos n, enough, part, backed.agree o.token)) in
      (record s { ledger = ledger; external_ledger = external }, rw (e1, e2) refl)

  -- One call of the token contract and one event.
  abbrev pub left : Address → InternalRetireData → List Operation
  left address d =
      retire_call x others (retirement address d)
      ∷ retire_event x others (retirement address d) d
      ∷ []

  module _ (address : Address) (d : InternalRetireData) (s : Storage) (backed : IsBacked s) where
    retire_one-ok :
        IsAcceptable x address d s → (s' : Storage) × (retire_one x others address s d ≡ ok s')
    unfolding retire_one
    retire_one-ok (allowed, enough) =
        let (s', e) = take_out-ok (owner address d) d.amount s backed enough in
        (s', rw (allowed, e) refl)

    retire_one-IsAcceptable :
        {s' : Storage} → retire_one x others address s d ≡ ok s' → IsAcceptable x address d s
    retire_one-IsAcceptable h =
        let (allowed, m) = retire_one-eq-ok x others address d s _ h in
        (
          allowed,
          ground (
            arith,
            neg_ℤ-pos d.amount,
            balance-update_balance (owner address d) insufficient_balance (owner address d)
                (neg_ℤ (pos d.amount)) s.ledger backed.ledger_nodup m.in_ledger,
          ),
        )

    pub retire-IsAcceptable :
        (ops : List Operation) (s' : Storage)
        → retire x others (retirement address d ∷ []) s ≡ ok (ops, s')
        → IsAcceptable x address d s
    unfolding retire retire_batch fold
    retire-IsAcceptable ops s' h =
        let (updated, e, _) =
          try-eq-ok (fold (retire_batch x others) (retirement address d ∷ []) s) _ h in
        let (batch, e1, _) = try-eq-ok (retire_batch x others s (retirement address d)) _ e in
        let (one, e2, _) = try-eq-ok (retire_one x others address s d) _ e1 in
        retire_one-IsAcceptable e2

    -- The retirement of one amount at a contract that can retire is accepted exactly where the sender
    -- is the custodian or an operator of the owner and the owner holds the amount. It leaves one call
    -- of the token contract and one event.
    pub retire-accepted :
        (others.has_entrypoint "%retire" address ≡ true)
        → ((s' : Storage) × (retire x others (retirement address d ∷ []) s
              ≡ ok (left address d, s')))
          ↔ IsAcceptable x address d s
    unfolding retire retire_batch fold calls flat_map
    retire-accepted known = (
      λ (s', h). retire-IsAcceptable (left address d) s' h,
      λ acceptable. let (s', e) = retire_one-ok acceptable in (s', rw (e, known) refl),
    )
