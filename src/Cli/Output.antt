-- ===== src/Cli/Output.antt =====
-- The JSON of custodian_info.go and fa2_info.go, and their Run methods. A map whose keys are no
-- strings is written as the list of its entries, in the order in which it is ranged over. The entries
-- of a map of strings are sorted, which is one of the orders that `O` may give.
use x4c.Base.{
  String, List, [], ◌∷◌, ◌++◌, map, Bool, Outcome, ok, err, Error, wrap, map_err, Action, lift, try,
  pure, ◌>>=◌, if◌then◌else◌,
}
use x4c.Base.Int.{ℤ}
use x4c.Base.Dict.{MapOrder}
use x4c.Json.{Json}
use x4c.Json.Encode.{
  Encoder, encode_string, encode_int64, encode_number, encode_slice, encode_fields, encode_struct,
}
use x4c.Host.{Host}
use x4c.Tzclient.{load_default_client}
use x4c.Ledgers.{TokenId, LedgerKey, Fa2Owner, Fa2TokenMetadata}
use x4c.Ledgers.Output.{
  encode_token, encode_ledger_key, encode_fa2_owner, encode_mint_event, encode_transfer_event,
  encode_retire_event, encode_fa2_retire_event, custodian_storage_fields, fa2_storage_fields,
}
use x4c.Cli.Setup.{Outside, printed, loaded}
use x4c.Cli.Info.{CustodianSnapshot, Fa2Snapshot, custodian_snapshot, fa2_snapshot}
use x4c.Cli.Tables.{Rows, custodian_tables, fa2_tables}

-- An item of a list that is safe for JSON.
unfoldable pub safe_item : {K V : Type 0} → Encoder K → Encoder V → Encoder (K × V)
unfolding encode_fields
safe_item key value (k, v) = encode_struct (("key", key k) ∷ ("value", value v) ∷ [])

unfoldable pub safe_list : {K V : Type 0} → Encoder K → Encoder V → Encoder (List (K × V))
unfolding safe_item encode_slice
safe_list key value = encode_slice (safe_item key value)

module _ (O : MapOrder) where
  -- displayCustodianAsJson
  unfoldable pub custodian_json : CustodianSnapshot → Outcome Error Json
  unfolding encode_fields encode_slice encode_int64 safe_list encode_token encode_ledger_key
      encode_mint_event encode_transfer_event encode_retire_event custodian_storage_fields
  custodian_json info = map_err (wrap "failed to marshal snapshot") (
      encode_struct (
        custodian_storage_fields info.storage
        ++ ((
          "ledger_bigmap",
          safe_list encode_ledger_key encode_int64 (O.order LedgerKey ℤ info.ledger_contents),
        )
            ∷ (
              "external_ledger_bigmap",
              safe_list encode_token encode_int64 (O.order TokenId ℤ info.external_ledger_contents),
            )
            ∷ (
              "metadata_bigmap",
              safe_list encode_string encode_string (O.order String String info.metadata_contents),
            )
            ∷ ("internal_mint_events", encode_slice encode_mint_event info.internal_mint_events)
            ∷ (
              "internal_transfer_events",
              encode_slice encode_transfer_event info.internal_transfer_events,
            )
            ∷ ("retire_events", encode_slice encode_retire_event info.retire_events)
            ∷ [])))

  encode_token_metadata : Encoder Fa2TokenMetadata
  unfolding encode_fields encode_number
  encode_token_metadata m = encode_struct (
      ("token_id", encode_number m.token_identifier)
      ∷ (
        "token_info",
        encode_struct (
            map (λ (key, value). (key, encode_string value))
              (O.order String String m.token_information)),
      )
      ∷ [])

  -- displayFA2AsJson
  unfoldable pub fa2_json : Fa2Snapshot → Outcome Error Json
  unfolding encode_fields encode_slice encode_int64 safe_list encode_fa2_owner encode_token_metadata
      encode_fa2_retire_event fa2_storage_fields
  fa2_json info = map_err (wrap "failed to marshal snapshot") (
      encode_struct (
        fa2_storage_fields info.storage
        ++ ((
          "ledger_bigmap",
          safe_list encode_fa2_owner encode_int64 (O.order Fa2Owner ℤ info.ledger_contents),
        )
            ∷ (
              "metadata_bigmap",
              safe_list encode_string encode_string (O.order String String info.metadata_contents),
            )
            ∷ (
              "token_metadata_bigmap",
              safe_list encode_int64 encode_token_metadata
                  (O.order ℤ Fa2TokenMetadata info.token_metadata_contents),
            )
            ∷ ("retire_events", encode_slice encode_fa2_retire_event info.retire_events)
            ∷ [])))

-- What a command prints.
pub data Shown : Type 0 where
  as_lines : List String → Shown
  as_text : List Rows → Shown
  as_json : Json → Shown

abbrev show : {S : Type 0} → Bool → Outcome Error Json → List Rows → Action S String Shown
show output_json json tables =
    if output_json
    then lift
        (try (map_err (printed "failed to marshal snapshot") json) (λ data_. ok (as_json data_)))
    else pure (as_text tables)

module _ {H : Host} {S : Type 0} (W : Outside H S) where
  -- The flag -json, and what is left of the arguments after it.
  unfoldable pub custodian_info_command : Bool → List String → Action S String Shown
  unfolding custodian_snapshot custodian_json custodian_tables load_default_client
  custodian_info_command output_json (name ∷ []) = do
    client ← loaded W
    info ← custodian_snapshot W client name
    show output_json (custodian_json W.map_order info) (custodian_tables W.map_order client info)
  custodian_info_command output_json _ = lift (err "Expected a contract name or address")

  unfoldable pub fa2_info_command : Bool → List String → Action S String Shown
  unfolding fa2_snapshot fa2_json fa2_tables load_default_client
  fa2_info_command output_json (name ∷ []) = do
    client ← loaded W
    info ← fa2_snapshot W client name
    show output_json (fa2_json W.map_order info) (fa2_tables W.map_order client info)
  fa2_info_command output_json _ = lift (err "Expected a contract name or address")
