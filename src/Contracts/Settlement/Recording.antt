-- ===== src/Contracts/Settlement/Recording.antt =====
-- What calls of the custodian contract record, against what it has at the token contract.
use x4c.Base.{
  ℕ, suc, zero, ◌+◌, ◌-◌, ◌*◌, ◌≤◌, ◌≡◌, ◌≢◌, List, [], ◌∷◌, ◌++◌, some, ok, ==_iff, string_eq,
  arith, All,
}
use x4c.Contracts.Balance.{Context, total, balance}
use x4c.Contracts.Custodian
use x4c.Contracts.Custodian.Types.{
  Token, token_eq, Others, Entrypoint, Operation, call_transfer, call_retire,
  emit_internal_transfer, emit_internal_mint, emit_retire,
}
use x4c.Contracts.Custodian.Entrypoints.{main}
use x4c.Contracts.Custodian.Backing.{IsBacked, held}
use x4c.Contracts.Custodian.Backing.Calls.{main-IsBacked}
use x4c.Contracts.Custodian.Minting.{count, internal_mint-adds}
use x4c.Contracts.Custodian.Operations.{total-append}
use x4c.Contracts.Fa2
use x4c.Contracts.Settlement.{World, System, Event, call_custodian, call_token, others_now, step}
use x4c.Contracts.Settlement.Own.{IsOwn}
use x4c.Contracts.Settlement.Owed.{owed}
use x4c.Contracts.Settlement.Debits.{Balances, main-Moves, internal_mint-owed}
use x4c.Contracts.Settlement.Custody.{IsSafe, owned}
use x4c.Contracts.Settlement.Keeping.{here}

module _ (w : World) where
  -- What the custodian records of each token, with what is still owed, is at most what it has, and
  -- the pending operations move its own tokens.
  pub record IsSolvent (s : System) : Type 0 where
    pub backed : IsBacked s.custodian
    pub safe : IsSafe w.custodian_address s.token
    pub own : All (IsOwn w.custodian_address) s.pending
    pub covered :
        (id : ℕ)
        → held (here w id) s.custodian.ledger + total (owed (here w id)) s.pending
          ≤ owned w.custodian_address id s.token

  -- A mint names no token twice and is made while nothing is owed, and the custodian contract calls
  -- the token contract by its operations alone.
  abbrev pub IsOrderly : System → Event → Type 0
  IsOrderly s (call_custodian x (Entrypoint.internal_mint p)) =
      ((id : ℕ) → total (owed (here w id)) s.pending ≡ 0) × ((t : Token) → count t p ≤ 1)
  IsOrderly s (call_token x call) = x.sender ≢ w.custodian_address
  IsOrderly s _ = Unit

  -- The events of a run that meet it each in the state where they happen.
  abbrev pub AreOrderly : List Event → System → Type 0
  AreOrderly [] s = Unit
  AreOrderly (e ∷ es) s = IsOrderly s e × ((s1 : System) → step w s e ≡ ok s1 → AreOrderly es s1)

  -- The rest is covered where the call owes what it takes out of the ledger.
  Balances-covered :
      (id : ℕ) (x : Context) (s : System) (ops : List Operation) (s1 : Custodian.Types.Storage)
      → Balances (here w id) x s.custodian ops s1
      → IsSolvent s
      → held (here w id) s1.ledger + total (owed (here w id)) (ops ++ s.pending)
        ≤ owned w.custodian_address id s.token
  Balances-covered id x s ops s1 b solvent =
      omega (arith, b, total-append (owed (here w id)) ops s.pending, solvent.covered id)

  new_record-le : (n b e : ℕ) → n ≤ 1 → b ≤ e → b + n * (e - b) ≤ e
  new_record-le zero b e h k = omega arith
  new_record-le (suc zero) b e h k = omega arith
  new_record-le (suc (suc n)) b e h k = absurd (omega arith)

  view_now :
      (id : ℕ) (token : Fa2.Types.Storage)
      → (others_now w token).view_balance_of w.token_address w.custodian_address id
        ≡ some (owned w.custodian_address id token)
  unfolding Fa2.Entrypoints.view_balance_of
  view_now id token = ground (arith, ==_iff w.token_address w.token_address)

  abbrev pub at_custodian : Context → Context
  at_custodian x = record x { self_address = w.custodian_address }

  module _ (x : Context) (s : System) {ops : List Operation} {s1 : Custodian.Types.Storage} where
    -- A mint that names each token once records at most what the token contract reports.
    mint-covered :
        (p : List Token)
        → main (at_custodian x) (others_now w s.token) (Entrypoint.internal_mint p) s.custodian
          ≡ ok (ops, s1)
        → IsOrderly s (call_custodian x (Entrypoint.internal_mint p))
        → IsSolvent s
        → (id : ℕ)
        → held (here w id) s1.ledger + total (owed (here w id)) (ops ++ s.pending)
          ≤ owned w.custodian_address id s.token
    unfolding main
    mint-covered p h (quiet, once) solvent id =
        let o = others_now w s.token in
        let backed' =
          main-IsBacked (at_custodian x) o (Entrypoint.internal_mint p) s.custodian h
            solvent.backed in
        omega (
          arith,
          backed'.agree (here w id),
          solvent.backed.agree (here w id),
          solvent.covered id,
          quiet id,
          internal_mint-adds (at_custodian x) o s.custodian (here w id) (view_now id s.token) p
              solvent.backed.external_nodup h,
          new_record-le (count (here w id) p) (balance (here w id) s.custodian.external_ledger)
              (owned w.custodian_address id s.token) (once (here w id))
              (omega (arith, solvent.backed.agree (here w id), solvent.covered id)),
          internal_mint-owed (here w id) (at_custodian x) o p s.custodian h,
          total-append (owed (here w id)) ops s.pending,
        )

    pub call-covered :
        (call : Entrypoint)
        → main (at_custodian x) (others_now w s.token) call s.custodian ≡ ok (ops, s1)
        → IsOrderly s (call_custodian x call)
        → IsSolvent s
        → (id : ℕ)
        → held (here w id) s1.ledger + total (owed (here w id)) (ops ++ s.pending)
          ≤ owned w.custodian_address id s.token
    call-covered (Entrypoint.internal_mint p) h orderly solvent id =
        mint-covered p h orderly solvent id
    call-covered (Entrypoint.internal_transfer p) h _ solvent id =
        Balances-covered id (at_custodian x) s ops s1
          (main-Moves (here w id) (at_custodian x) (others_now w s.token)
            (Entrypoint.internal_transfer p) s.custodian h)
          solvent
    call-covered (Entrypoint.external_transfer p) h _ solvent id =
        Balances-covered id (at_custodian x) s ops s1
          (main-Moves (here w id) (at_custodian x) (others_now w s.token)
            (Entrypoint.external_transfer p) s.custodian h)
          solvent
    call-covered (Entrypoint.update_internal_operators p) h _ solvent id =
        Balances-covered id (at_custodian x) s ops s1
          (main-Moves (here w id) (at_custodian x) (others_now w s.token)
            (Entrypoint.update_internal_operators p) s.custodian h)
          solvent
    call-covered (Entrypoint.retire p) h _ solvent id =
        Balances-covered id (at_custodian x) s ops s1
          (main-Moves (here w id) (at_custodian x) (others_now w s.token) (Entrypoint.retire p)
            s.custodian h)
          solvent
    call-covered (Entrypoint.update_custodian a) h _ solvent id =
        Balances-covered id (at_custodian x) s ops s1
          (main-Moves (here w id) (at_custodian x) (others_now w s.token)
            (Entrypoint.update_custodian a) s.custodian h)
          solvent
