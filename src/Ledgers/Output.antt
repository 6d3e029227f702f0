-- ===== src/Ledgers/Output.antt =====
-- What the structs of custodian_state.go, fa2_state.go and of the events are marshalled as, by the
-- names in their tags.
use x4c.Base.{String, List, [], ◌∷◌, ◌++◌, Outcome, Error}
use x4c.Json.{Json}
use x4c.Json.Encode.{
  Encoder, encode_string, encode_int64, encode_number, encode_raw, encode_slice, encode_fields,
  encode_struct, omit_empty,
}
use x4c.Tzkt.{Event, EventContractInfo}
use x4c.Ledgers.Types.{
  TokenId, LedgerKey, OperatorInformation, CustodianStorage, Fa2Owner, Fa2Operator, Fa2Storage,
}
use x4c.Ledgers.Events.{
  InternalMintEvent, InternalTransferEvent, CustodianRetireEvent, Fa2RetireEvent,
}

-- The fields of a struct, which also stand in a struct that embeds it.
abbrev pub Written : Type 0
Written = List (String × Outcome Error Json)

unfoldable pub encode_token : Encoder TokenId
unfolding encode_fields encode_number
encode_token t =
    encode_struct
      (("token_id", encode_number t.token_id) ∷ ("token_address", encode_string t.address) ∷ [])

unfoldable pub encode_ledger_key : Encoder LedgerKey
unfolding encode_fields encode_token
encode_ledger_key k =
    encode_struct (("token", encode_token k.token) ∷ ("kyc", encode_string k.raw_kyc) ∷ [])

unfoldable pub encode_fa2_owner : Encoder Fa2Owner
unfolding encode_fields encode_number
encode_fa2_owner o = encode_struct (
    ("token_owner", encode_string o.token_owner)
    ∷ ("token_id", encode_number o.token_identifier)
    ∷ [])

unfoldable pub encode_operator : Encoder OperatorInformation
unfolding encode_fields encode_number
encode_operator o = encode_struct (
    ("token_owner", encode_string o.raw_kyc)
    ∷ ("token_operator", encode_string o.operator)
    ∷ ("token_id", encode_number o.token_id)
    ∷ [])

unfoldable pub encode_fa2_operator : Encoder Fa2Operator
unfolding encode_fields encode_int64
encode_fa2_operator o = encode_struct (
    ("token_owner", encode_string o.token_owner)
    ∷ ("token_operator", encode_string o.token_operator)
    ∷ ("token_id", encode_int64 o.token_identifier)
    ∷ [])

encode_contract_info : Encoder EventContractInfo
unfolding encode_fields
encode_contract_info c =
    encode_struct (omit_empty "address" c.address ++ omit_empty "alias" c.alias)

event_fields : Event → Written
unfolding encode_contract_info encode_int64
event_fields e =
    ("id", encode_int64 e.identifier)
    ∷ ("level", encode_int64 e.level)
    ∷ ("timestamp", encode_string e.timestamp)
    ∷ ("contract", encode_contract_info e.contract)
    ∷ ("codeHash", encode_int64 e.code_hash)
    ∷ ("tag", encode_string e.tag)
    ∷ ("payload", encode_raw e.payload)
    ∷ ("transactionId", encode_int64 e.transaction_id)
    ∷ []

unfoldable pub encode_mint_event : Encoder InternalMintEvent
unfolding encode_fields event_fields encode_token encode_number
encode_mint_event e = encode_struct (
    event_fields e.event
    ++ (("token", encode_token e.token)
        ∷ ("amount", encode_number e.amount)
        ∷ ("new_total", encode_number e.new_total)
        ∷ []))

unfoldable pub encode_transfer_event : Encoder InternalTransferEvent
unfolding encode_fields event_fields encode_token encode_number
encode_transfer_event e = encode_struct (
    event_fields e.event
    ++ (("source", encode_string e.raw_to)
        ∷ ("destination", encode_string e.raw_from)
        ∷ ("token", encode_token e.token)
        ∷ ("amount", encode_number e.amount)
        ∷ []))

unfoldable pub encode_retire_event : Encoder CustodianRetireEvent
unfolding encode_fields event_fields encode_token encode_number
encode_retire_event e = encode_struct (
    event_fields e.event
    ++ (("retiring_party", encode_string e.retiring_party)
        ∷ ("retiring_party_kyc", encode_string e.retiring_party_kyc)
        ∷ ("token", encode_token e.token)
        ∷ ("amount", encode_number e.amount)
        ∷ ("retiring_data", encode_string e.reason)
        ∷ []))

unfoldable pub encode_fa2_retire_event : Encoder Fa2RetireEvent
unfolding encode_fields event_fields encode_number
encode_fa2_retire_event e = encode_struct (
    event_fields e.event
    ++ (("retiring_party", encode_string e.retiring_party)
        ∷ ("tokenId", encode_number e.token_id)
        ∷ ("amount", encode_number e.amount)
        ∷ ("retiring_data", encode_string e.reason)
        ∷ []))

unfoldable pub custodian_storage_fields : CustodianStorage → Written
unfolding encode_int64 encode_slice encode_operator
custodian_storage_fields s =
    ("custodian", encode_string s.custodian)
    ∷ ("ledger", encode_int64 s.ledger)
    ∷ ("metadata", encode_int64 s.metadata)
    ∷ ("operators", encode_slice encode_operator s.operators)
    ∷ ("external_ledger", encode_int64 s.external_ledger)
    ∷ []

unfoldable pub fa2_storage_fields : Fa2Storage → Written
unfolding encode_int64 encode_slice encode_fa2_operator
fa2_storage_fields s =
    ("oracle", encode_string s.oracle)
    ∷ ("ledger", encode_int64 s.ledger)
    ∷ ("operators", encode_slice encode_fa2_operator s.operators)
    ∷ ("token_metadata", encode_int64 s.token_metadata)
    ∷ ("metadata", encode_int64 s.metadata)
    ∷ []
