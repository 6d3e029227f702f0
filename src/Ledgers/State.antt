-- ===== src/Ledgers/State.antt =====
-- The methods of CustodianStorage and FA2Storage that read big maps, from custodian_state.go and
-- fa2_state.go.
use x4c.Base.{
  String, List, [], ◌∷◌, Option, none, some, Outcome, ok, Error, wrap, wrap_text, map_err, try,
  Action, lift, or_fail, ◌>>=◌, if◌then◌else◌, Eq, string_eq,
}
use x4c.Base.Fallible
use x4c.Base.Int.{ℤ}
use x4c.Base.Int.{int_eq}
use x4c.Base.Text.{parse_int}
use x4c.Base.Dict.{Dict, insert}
use x4c.Json.{decode_string, decode_number, unmarshal}
use x4c.Host.{Host}
use x4c.Tzkt.{BigMapItem}
use x4c.Tzclient.{TezosClient, michelson_to_string}
use x4c.Ledgers.Types.{
  TokenId, LedgerKey, OperatorInformation, CustodianStorage, Fa2Owner, Fa2TokenMetadata, Fa2Storage,
  token_id_eq, ledger_key_eq, fa2_owner_eq, no_token, decode_token, decode_ledger_key,
  decode_fa2_owner, decode_token_metadata,
}

abbrev pub Ledger : Type 0
Ledger = Dict LedgerKey ℤ

abbrev pub ExternalLedger : Type 0
ExternalLedger = Dict TokenId ℤ

abbrev pub Fa2Ledger : Type 0
Fa2Ledger = Dict Fa2Owner ℤ

abbrev pub Metadata : Type 0
Metadata = Dict String String

abbrev pub TokenMetadata : Type 0
TokenMetadata = Dict ℤ Fa2TokenMetadata

-- What the body of a loop over items makes of one: an entry of the result, nothing (`continue`), or
-- an error that ends the loop.
abbrev pub Reader : Type 0 → Type 0 → Type 0
Reader K V = BigMapItem → Outcome Error (Option (K × V))

module _ {K V : Type 0} ⦃e : Eq K⦄ where
  unfoldable pub read_items : Reader K V → List BigMapItem → Dict K V → Outcome Error (Dict K V)
  unfolding insert
  read_items read [] result = ok result
  read_items read (item ∷ bigmap) result =
      let rest = λ (d : Dict K V). read_items read bigmap d in
      try (read item)
        (λ entry. elim entry [ none ↦ rest result | some (k, v) ↦ rest (insert k v result) ])

-- The value of an item as an amount.
abbrev read_amount : String → String → BigMapItem → Outcome Error ℤ
read_amount decode_failed convert_failed item =
    Fallible.◌>>=◌ (map_err (wrap decode_failed) (unmarshal decode_number item.value ""))
      (λ value. map_err (wrap_text convert_failed) (parse_int value))

abbrev read_entry :
    {K V : Type 0} → Outcome Error K → Outcome Error V → Outcome Error (Option (K × V))
read_entry key value = Fallible.◌>>=◌ key (λ k. Fallible.◌>>=◌ value (λ v. ok (some (k, v))))

unfoldable pub read_ledger_item : Reader LedgerKey ℤ
unfolding decode_ledger_key parse_int
read_ledger_item item =
    if item.active
    then read_entry
        (map_err (wrap "Failed to decode ledger key")
          (unmarshal decode_ledger_key item.key (record { token = no_token; raw_kyc = "" })))
        (read_amount "Failed to decode ledger value"
          "Failed to convert value to correct ledger value" item)
    else ok none

-- There is no test of `Active` in this loop.
unfoldable pub read_external_item : Reader TokenId ℤ
unfolding decode_token parse_int
read_external_item item =
    read_entry
      (map_err (wrap "Failed to decode external ledger key")
        (unmarshal decode_token item.key no_token))
      (read_amount "Failed to decode external ledger value"
        "Failed to convert external value to correct ledger value" item)

-- Nor in this one, which the custodian's and the FA2 contract's metadata share but for its errors.
unfoldable pub read_metadata_item : String → String → Reader String String
read_metadata_item key_failed value_failed item =
    read_entry (map_err (wrap key_failed) (unmarshal decode_string item.key ""))
      (map_err (wrap value_failed) (unmarshal decode_string item.value ""))

unfoldable pub read_fa2_item : Reader Fa2Owner ℤ
unfolding decode_fa2_owner parse_int
read_fa2_item item =
    if item.active
    then read_entry
        (map_err (wrap "failed to decode ledger key") (
          unmarshal decode_fa2_owner item.key (record { token_owner = ""; token_identifier = "" })))
        (read_amount "failed to decode ledger value"
          "failed to convert value to correct ledger value" item)
    else ok none

unfoldable pub read_token_metadata_item : Reader ℤ Fa2TokenMetadata
unfolding decode_token_metadata parse_int
read_token_metadata_item item =
    if item.active
    then read_entry
        (Fallible.◌>>=◌
          (map_err (wrap "failed to decode ledger key") (unmarshal decode_number item.key ""))
          (λ keyraw. map_err (wrap_text "failed to decode key") (parse_int keyraw)))
        (map_err (wrap "failed to decode ledger value") (
          unmarshal decode_token_metadata item.value
            (record { token_identifier = ""; token_information = [] })))
    else ok none

module _ (H : Host) where
  -- `DecodeKYC` of a key and of an operator
  unfoldable pub decode_key_kyc : LedgerKey → Outcome Error String
  decode_key_kyc l = michelson_to_string H l.raw_kyc

  unfoldable pub decode_operator_kyc : OperatorInformation → Outcome Error String
  decode_operator_kyc l = michelson_to_string H l.raw_kyc

module _ {H : Host} {S : Type 0} (client : TezosClient H S) where
  unfoldable pub get_ledger : CustodianStorage → Action S Error Ledger
  unfolding read_items read_ledger_item ledger_key_eq
  get_ledger storage = do
    bigmap ←
        or_fail (client.get_big_map_contents storage.ledger) (wrap "failed to get ledger big map")
    lift (read_items read_ledger_item bigmap [])

  unfoldable pub get_external_ledger : CustodianStorage → Action S Error ExternalLedger
  unfolding read_items read_external_item token_id_eq
  get_external_ledger storage = do
    bigmap ←
        or_fail (client.get_big_map_contents storage.external_ledger)
          (wrap "failed to get external ledger big map")
    lift (read_items read_external_item bigmap [])

  unfoldable pub get_custodian_metadata : CustodianStorage → Action S Error Metadata
  unfolding read_items read_metadata_item string_eq
  get_custodian_metadata storage = do
    bigmap ←
        or_fail (client.get_big_map_contents storage.metadata)
          (wrap "failed to get custodian metadata big map")
    lift (
        read_items
          (read_metadata_item "Failed to decode custodian metadata key"
            "Failed to decode custodian metadata value")
          bigmap [])

  unfoldable pub get_fa2_ledger : Fa2Storage → Action S Error Fa2Ledger
  unfolding read_items read_fa2_item fa2_owner_eq
  get_fa2_ledger storage = do
    bigmap ←
        or_fail (client.get_big_map_contents storage.ledger) (wrap "failed to get ledger big map")
    lift (read_items read_fa2_item bigmap [])

  unfoldable pub get_fa2_metadata : Fa2Storage → Action S Error Metadata
  unfolding read_items read_metadata_item string_eq
  get_fa2_metadata storage = do
    bigmap ←
        or_fail (client.get_big_map_contents storage.metadata)
          (wrap "failed to get custodian metadata big map")
    lift (
        read_items
          (read_metadata_item "Failed to decode FA2 metadata key"
            "Failed to decode FA2 metadata value")
          bigmap [])

  unfoldable pub get_token_metadata : Fa2Storage → Action S Error TokenMetadata
  unfolding read_items read_token_metadata_item int_eq
  get_token_metadata storage = do
    bigmap ←
        or_fail (client.get_big_map_contents storage.token_metadata)
          (wrap "failed to get ledger big map")
    lift (read_items read_token_metadata_item bigmap [])
