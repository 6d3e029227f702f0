-- ===== src/Contracts/Custodian/Types.antt =====
-- The types of custodian.mligo: storage, parameters and operations.
use x4c.Base.{ℕ, String, List, Option, Bool, Eq, string_dec, bytes_dec, ℕ_discrete}
use x4c.Base.Int.{ℤ}
use x4c.Base.Dict.{Dict}
use x4c.Contracts.Balance.{Address, Bytes}

pub record Token : Type 0 where
  pub token_address : Address
  pub token_id : ℕ

pub record Owner : Type 0 where
  pub kyc : Bytes
  pub token : Token

pub record Operator : Type 0 where
  pub token_owner : Bytes
  pub token_operator : Address
  pub token_id : ℕ

unfoldable pub token_dec : Discrete Token
token_dec = hlevel (string_dec, ℕ_discrete)

unfoldable pub owner_dec : Discrete Owner
unfolding token_dec
owner_dec = hlevel (token_dec, bytes_dec)

unfoldable pub operator_dec : Discrete Operator
operator_dec = hlevel (string_dec, bytes_dec, ℕ_discrete)

instance unfoldable pub token_eq : Eq Token
unfolding token_dec string_dec ℕ_discrete
token_eq = record { dec = token_dec }

instance unfoldable pub owner_eq : Eq Owner
unfolding owner_dec string_dec bytes_dec ℕ_discrete
owner_eq = record { dec = owner_dec }

instance unfoldable pub operator_eq : Eq Operator
unfolding operator_dec string_dec bytes_dec ℕ_discrete
operator_eq = record { dec = operator_dec }

pub record Storage : Type 0 where
  pub custodian : Address
  pub ledger : Dict Owner ℕ
  pub external_ledger : Dict Token ℕ
  pub operators : List Operator
  pub metadata : Dict String Bytes

pub record InternalTransferTo : Type 0 where
  pub to_ : Bytes
  pub token_id : ℕ
  pub amount : ℕ

pub record InternalTransfer : Type 0 where
  pub from_ : Bytes
  pub token_address : Address
  pub txs : List InternalTransferTo

pub record TransferTo : Type 0 where
  pub to_ : Address
  pub token_id : ℕ
  pub amount : ℕ

pub record ExternalTransferBatch : Type 0 where
  pub from_ : Bytes
  pub txs : List TransferTo

pub record ExternalTransfer : Type 0 where
  pub token_address : Address
  pub txn_batch : List ExternalTransferBatch

-- The parameter of an FA2 transfer.
pub record Transfer : Type 0 where
  pub from_ : Address
  pub txs : List TransferTo

pub data UpdateInternalOperator : Type 0 where
  add_operator remove_operator : Operator → UpdateInternalOperator

pub record InternalRetireData : Type 0 where
  pub retiring_party_kyc : Bytes
  pub token_id : ℕ
  pub amount : ℕ
  pub retiring_data : Bytes

pub record InternalRetire : Type 0 where
  pub token_address : Address
  pub txs : List InternalRetireData

-- The parameter of an FA2 contract's retire.
pub record ExternalRetire : Type 0 where
  pub retiring_party : Address
  pub token_id : ℕ
  pub amount : ℕ
  pub retiring_data : Bytes

-- A mint names a token.
pub data Entrypoint : Type 0 where
  internal_transfer : List InternalTransfer → Entrypoint
  internal_mint : List Token → Entrypoint
  external_transfer : List ExternalTransfer → Entrypoint
  update_internal_operators : List UpdateInternalOperator → Entrypoint
  retire : List InternalRetire → Entrypoint
  update_custodian : Address → Entrypoint

pub record EmitInternalTransfer : Type 0 where
  pub source : Bytes
  pub destination : Bytes
  pub token : Token
  pub amount : ℕ

pub record EmitInternalMint : Type 0 where
  pub token : Token
  pub amount : ℤ
  pub new_total : ℕ

pub record EmitRetire : Type 0 where
  pub retiring_party : Address
  pub retiring_party_kyc : Bytes
  pub token : Token
  pub amount : ℕ
  pub retiring_data : Bytes

-- What a call leaves to be done: events, and calls of the contract at an address.
pub data Operation : Type 0 where
  emit_internal_transfer : EmitInternalTransfer → Operation
  emit_internal_mint : EmitInternalMint → Operation
  emit_retire : EmitRetire → Operation
  call_transfer : Address → List Transfer → Operation
  call_retire : Address → List ExternalRetire → Operation

-- What the other contracts answer: `view_balance_of` of a contract for an owner and a token, and
-- whether a contract has an entrypoint.
pub record Others : Type 0 where
  pub view_balance_of : Address → Address → ℕ → Option ℕ
  pub has_entrypoint : String → Address → Bool
