-- ===== src/Contracts/Fa2/Types.antt =====
-- The types of fa2.mligo.
use x4c.Base.{ℕ, String, List, Eq, string_dec, ℕ_discrete}
use x4c.Base.Dict.{Dict}
use x4c.Contracts.Balance.{Address, Bytes}

pub record Owner : Type 0 where
  pub token_owner : Address
  pub token_id : ℕ

pub record Operator : Type 0 where
  pub token_owner : Address
  pub token_operator : Address
  pub token_id : ℕ

unfoldable pub owner_dec : Discrete Owner
owner_dec = hlevel (string_dec, ℕ_discrete)

unfoldable pub operator_dec : Discrete Operator
operator_dec = hlevel (string_dec, ℕ_discrete)

instance unfoldable pub owner_eq : Eq Owner
unfolding owner_dec string_dec ℕ_discrete
owner_eq = record { dec = owner_dec }

instance unfoldable pub operator_eq : Eq Operator
unfolding operator_dec string_dec ℕ_discrete
operator_eq = record { dec = operator_dec }

pub record TokenMetadata : Type 0 where
  pub token_id : ℕ
  pub token_info : Dict String Bytes

pub record Storage : Type 0 where
  pub oracle : Address
  pub ledger : Dict Owner ℕ
  pub operators : List Operator
  pub token_metadata : Dict ℕ TokenMetadata
  pub metadata : Dict String Bytes

pub record TransferTo : Type 0 where
  pub to_ : Address
  pub token_id : ℕ
  pub amount : ℕ

pub record Transfer : Type 0 where
  pub from_ : Address
  pub txs : List TransferTo

pub record OperatorData : Type 0 where
  pub owner : Address
  pub operator : Address
  pub token_id : ℕ

pub data UpdateOperator : Type 0 where
  add_operator remove_operator : OperatorData → UpdateOperator

pub record MintData : Type 0 where
  pub owner : Address
  pub token_id : ℕ
  pub qty : ℕ

pub record RetireTokens : Type 0 where
  pub retiring_party : Address
  pub token_id : ℕ
  pub amount : ℕ
  pub retiring_data : Bytes

-- A request of balances names the contract that is called back.
pub data Entrypoint : Type 0 where
  transfer : List Transfer → Entrypoint
  balance_of : List Owner → Address → Entrypoint
  update_operators : List UpdateOperator → Entrypoint
  mint : List MintData → Entrypoint
  retire : List RetireTokens → Entrypoint
  add_token_id : List TokenMetadata → Entrypoint
  update_contract_metadata : Dict String Bytes → Entrypoint
  update_oracle : Address → Entrypoint

pub data Operation : Type 0 where
  emit_retire : RetireTokens → Operation
  call_back : Address → List (Owner × ℕ) → Operation
