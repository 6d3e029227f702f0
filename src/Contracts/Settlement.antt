-- ===== src/Contracts/Settlement.antt =====
-- The custodian contract of custodian.mligo beside one token contract of fa2.mligo: what calls of
-- either do to both, in any order. The operations that a call of the custodian leaves are carried
-- out later, newest call first, and other calls may come between them.
pub mod Owed
pub mod Debits
pub mod Own
pub mod Outside
pub mod Keeping
pub mod Progress
pub mod Recording
pub mod Performing
pub mod Custody
pub mod Draining
pub mod Retiring
pub mod Solvency
use x4c.Base.{
  ℕ, String, Bool, List, [], ◌∷◌, ◌++◌, map, some, Outcome, ok, err, try, if◌then◌else◌, ◌==◌,
  string_eq,
}
use x4c.Base.Fallible.{◌>>=◌}
use x4c.Contracts.Balance.{Address, Context, Failing, fold}
use x4c.Contracts.Custodian
use x4c.Contracts.Custodian.Types.{Others, Operation, call_transfer, call_retire}
use x4c.Contracts.Fa2

-- Where the two contracts are, and what all other contracts answer.
pub record World : Type 0 where
  pub custodian_address : Address
  pub token_address : Address
  pub elsewhere : Others

-- The storage of each contract, and the operations that are still to be carried out.
pub record System : Type 0 where
  pub custodian : Custodian.Types.Storage
  pub token : Fa2.Types.Storage
  pub pending : List Operation

-- A call of one of the contracts, or the next of the pending operations.
pub data Event : Type 0 where
  call_custodian : Context → Custodian.Types.Entrypoint → Event
  call_token : Context → Fa2.Types.Entrypoint → Event
  carry_out : Event

abbrev pub token_transfer : Custodian.Types.Transfer → Fa2.Types.Transfer
token_transfer t = record {
  from_ = t.from_;
  txs = map (λ d. record { to_ = d.to_; token_id = d.token_id; amount = d.amount }) t.txs;
}

abbrev pub token_retire : Custodian.Types.ExternalRetire → Fa2.Types.RetireTokens
token_retire r = record {
  retiring_party = r.retiring_party;
  token_id = r.token_id;
  amount = r.amount;
  retiring_data = r.retiring_data;
}

module _ (w : World) where
  -- The token contract answers by its view on its own storage.
  abbrev pub others_now : Fa2.Types.Storage → Others
  others_now token = record {
    view_balance_of = λ address owner id.
        if w.token_address == address
        then some
            (Fa2.Entrypoints.view_balance_of (record { token_owner = owner; token_id = id }) token)
        else w.elsewhere.view_balance_of address owner id;
    has_entrypoint = w.elsewhere.has_entrypoint;
  }

  -- The custodian contract calls, so it is both sender and, for what the token sees, the source.
  abbrev pub from_custodian : Context
  from_custodian = record {
    sender = w.custodian_address;
    source = w.custodian_address;
    self_address = w.token_address;
  }

  abbrev pub at_token :
      Address → Fa2.Types.Entrypoint → Fa2.Types.Storage → Failing Fa2.Types.Storage
  at_token address call token =
      if w.token_address == address
      then try (Fa2.Entrypoints.main from_custodian call token) (λ r. ok r.1)
      else ok token

  -- What an operation of the custodian does to the token contract.
  unfoldable pub perform : Operation → Fa2.Types.Storage → Failing Fa2.Types.Storage
  unfolding Fa2.Entrypoints.main string_eq
  perform (call_transfer address ts) token =
      at_token address (Fa2.Types.Entrypoint.transfer (map token_transfer ts)) token
  perform (call_retire address rs) token =
      at_token address (Fa2.Types.Entrypoint.retire (map token_retire rs)) token
  perform _ token = ok token

  unfoldable pub perform_next : List Operation → System → Failing System
  unfolding perform
  perform_next [] s = ok s
  perform_next (op ∷ ops) s = do
    token ← perform op s.token
    ok (record s { token = token; pending = ops })

  unfoldable pub step : System → Event → Failing System
  unfolding perform_next Fa2.Entrypoints.main Custodian.Entrypoints.main
  step s (call_custodian x call) = do
    r ←
        Custodian.Entrypoints.main (record x { self_address = w.custodian_address })
          (others_now s.token) call s.custodian
    ok (record s { custodian = r.1; pending = r.0 ++ s.pending })
  step s (call_token x call) = do
    r ← Fa2.Entrypoints.main x call s.token
    ok (record s { token = r.1 })
  step s carry_out = perform_next s.pending s

  unfoldable pub run : List Event → System → Failing System
  unfolding fold step
  run events s = fold step events s
