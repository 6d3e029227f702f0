-- ===== src/Ledgers/Types.antt =====
-- The structs of custodian_state.go and fa2_state.go, their equality as keys of maps, and decoding.
use x4c.Base.{String, List, [], ◌∷◌, Eq, string_eq, string_dec}
use x4c.Base.Int.{ℤ, pos}
use x4c.Base.Dict.{Dict}
use x4c.Json.{
  Decoder, Table, into, decode_string, decode_number, decode_int64, decode_struct, decode_slice,
  decode_string_map,
}

-- A json.Number is its text.
pub record TokenId : Type 0 where
  pub token_id : String
  pub address : String

pub record LedgerKey : Type 0 where
  pub token : TokenId
  pub raw_kyc : String

pub record OperatorInformation : Type 0 where
  pub raw_kyc : String
  pub operator : String
  pub token_id : String

pub record CustodianStorage : Type 0 where
  pub custodian : String
  pub ledger : ℤ
  pub metadata : ℤ
  pub operators : List OperatorInformation
  pub external_ledger : ℤ

pub record Fa2Operator : Type 0 where
  pub token_owner : String
  pub token_operator : String
  pub token_identifier : ℤ

pub record Fa2Owner : Type 0 where
  pub token_owner : String
  pub token_identifier : String

pub record Fa2TokenMetadata : Type 0 where
  pub token_identifier : String
  pub token_information : Dict String String

pub record Fa2Storage : Type 0 where
  pub oracle : String
  pub ledger : ℤ
  pub operators : List Fa2Operator
  pub token_metadata : ℤ
  pub metadata : ℤ

unfoldable pub token_id_dec : Discrete TokenId
token_id_dec = hlevel string_dec

unfoldable pub ledger_key_dec : Discrete LedgerKey
unfolding token_id_dec
ledger_key_dec = hlevel (string_dec, token_id_dec)

unfoldable pub fa2_owner_dec : Discrete Fa2Owner
fa2_owner_dec = hlevel string_dec

instance unfoldable pub token_id_eq : Eq TokenId
unfolding token_id_dec string_dec
token_id_eq = record { dec = token_id_dec }

instance unfoldable pub ledger_key_eq : Eq LedgerKey
unfolding ledger_key_dec string_dec
ledger_key_eq = record { dec = ledger_key_dec }

instance unfoldable pub fa2_owner_eq : Eq Fa2Owner
unfolding fa2_owner_dec string_dec
fa2_owner_eq = record { dec = fa2_owner_dec }

abbrev pub no_token : TokenId
no_token = record { token_id = ""; address = "" }

unfoldable pub decode_token : Decoder TokenId
unfolding decode_struct
decode_token = decode_struct (
    ("token_id", into decode_number (λ r. r.token_id) (λ r v. record r { token_id = v }))
    ∷ ("token_address", into decode_string (λ r. r.address) (λ r v. record r { address = v }))
    ∷ [])

unfoldable pub decode_ledger_key : Decoder LedgerKey
unfolding decode_struct decode_token
decode_ledger_key = decode_struct (
    ("token", into decode_token (λ r. r.token) (λ r v. record r { token = v }))
    ∷ ("kyc", into decode_string (λ r. r.raw_kyc) (λ r v. record r { raw_kyc = v }))
    ∷ [])

unfoldable pub decode_fa2_owner : Decoder Fa2Owner
unfolding decode_struct
decode_fa2_owner = decode_struct (
    ("token_owner", into decode_string (λ r. r.token_owner) (λ r v. record r { token_owner = v }))
    ∷ (
      "token_id",
      into decode_number (λ r. r.token_identifier) (λ r v. record r { token_identifier = v }),
    )
    ∷ [])

unfoldable pub decode_token_metadata : Decoder Fa2TokenMetadata
unfolding decode_struct decode_string_map
decode_token_metadata = decode_struct (
    (
      "token_id",
      into decode_number (λ r. r.token_identifier) (λ r v. record r { token_identifier = v }),
    )
    ∷ (
      "token_info",
      into decode_string_map (λ r. r.token_information) (λ r v. record r { token_information = v }),
    )
    ∷ [])

abbrev operator_information_table : Table OperatorInformation
operator_information_table =
    ("token_owner", into decode_string (λ r. r.raw_kyc) (λ r v. record r { raw_kyc = v }))
    ∷ ("token_operator", into decode_string (λ r. r.operator) (λ r v. record r { operator = v }))
    ∷ ("token_id", into decode_number (λ r. r.token_id) (λ r v. record r { token_id = v }))
    ∷ []

unfoldable pub decode_custodian_storage : Decoder CustodianStorage
unfolding decode_struct decode_slice
decode_custodian_storage = decode_struct (
    ("custodian", into decode_string (λ r. r.custodian) (λ r v. record r { custodian = v }))
    ∷ ("ledger", into decode_int64 (λ r. r.ledger) (λ r v. record r { ledger = v }))
    ∷ ("metadata", into decode_int64 (λ r. r.metadata) (λ r v. record r { metadata = v }))
    ∷ (
      "operators",
      into
          (decode_slice (decode_struct operator_information_table)
            (record { raw_kyc = ""; operator = ""; token_id = "" }))
          (λ r. r.operators) (λ r v. record r { operators = v }),
    )
    ∷ (
      "external_ledger",
      into decode_int64 (λ r. r.external_ledger) (λ r v. record r { external_ledger = v }),
    )
    ∷ [])

abbrev fa2_operator_table : Table Fa2Operator
fa2_operator_table =
    ("token_owner", into decode_string (λ r. r.token_owner) (λ r v. record r { token_owner = v }))
    ∷ (
      "token_operator",
      into decode_string (λ r. r.token_operator) (λ r v. record r { token_operator = v }),
    )
    ∷ (
      "token_id",
      into decode_int64 (λ r. r.token_identifier) (λ r v. record r { token_identifier = v }),
    )
    ∷ []

unfoldable pub decode_fa2_storage : Decoder Fa2Storage
unfolding decode_struct decode_slice
decode_fa2_storage = decode_struct (
    ("oracle", into decode_string (λ r. r.oracle) (λ r v. record r { oracle = v }))
    ∷ ("ledger", into decode_int64 (λ r. r.ledger) (λ r v. record r { ledger = v }))
    ∷ (
      "operators",
      into
          (decode_slice (decode_struct fa2_operator_table)
            (record { token_owner = ""; token_operator = ""; token_identifier = pos 0 }))
          (λ r. r.operators) (λ r v. record r { operators = v }),
    )
    ∷ (
      "token_metadata",
      into decode_int64 (λ r. r.token_metadata) (λ r v. record r { token_metadata = v }),
    )
    ∷ ("metadata", into decode_int64 (λ r. r.metadata) (λ r v. record r { metadata = v }))
    ∷ [])

abbrev pub no_custodian_storage : CustodianStorage
no_custodian_storage = record {
  custodian = "";
  ledger = pos 0;
  metadata = pos 0;
  operators = [];
  external_ledger = pos 0;
}

abbrev pub no_fa2_storage : Fa2Storage
no_fa2_storage = record {
  oracle = "";
  ledger = pos 0;
  operators = [];
  token_metadata = pos 0;
  metadata = pos 0;
}
