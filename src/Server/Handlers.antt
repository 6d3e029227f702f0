-- ===== src/Server/Handlers.antt =====
-- credit_sources.go and information.go.
use x4c.Base.{
  String, ◌<>◌, Bool, List, [], ◌∷◌, Outcome, ok, err, Action, pure, lift, or_fail, fail_if, ◌>>=◌,
  ◌>>◌, map_err, or_try, try, ◌==◌, string_eq,
}
use x4c.Base.Int.{ℤ}
use x4c.Base.Text.{parse_int}
use x4c.Base.Dict.{MapOrder}
use x4c.Host.{Host}
use x4c.Tzkt.{Operation, Event}
use x4c.Tzclient.{Contract, new_contract_with_address}
use x4c.Ledgers.{
  LedgerKey, decode_custodian_storage, no_custodian_storage, get_ledger, decode_key_kyc,
}
use x4c.Server.Types.{
  HttpError, bad_request, internal_server_error, failed_dependency, as_http, Response, respond,
  CreditSourcesItem, Server,
}

module _ {H : Host} {S : Type 0} (server : Server H S) where
  open server use {tezos_client}

  -- A contract by its name, or else by its address.
  abbrev pub find_contract : String → String → String → Outcome HttpError (Contract H)
  find_contract label name refusal =
      map_err (as_http (bad_request refusal))
        (or_try (tezos_client.contract_by_name name) (new_contract_with_address H label name))

  module _ (contract : Contract H) where
    unfoldable pub credit_source : LedgerKey × ℤ → Outcome HttpError CreditSourcesItem
    unfolding parse_int decode_key_kyc
    credit_source (key, value) =
        try
          (map_err (as_http (internal_server_error "Failed to convert token ID"))
            (parse_int key.token.token_id))
          (λ token_id. ok (record {
            token_id = token_id;
            minter_url = tezos_client.get_indexer_web_url <> ("/" <> key.token.address);
            kyc = elim (decode_key_kyc H key) [ ok kyc ↦ kyc | err _ ↦ key.raw_kyc ];
            custodian_url =
                tezos_client.get_indexer_web_url <> ("/" <> H.address_string contract.address);
            amount = value;
            minter = key.token.address;
          }))

    unfoldable pub credit_sources :
        List (LedgerKey × ℤ) → Outcome HttpError (List CreditSourcesItem)
    unfolding credit_source
    credit_sources [] = ok []
    credit_sources (entry ∷ ledger) =
        let rest = credit_sources ledger in
        try (credit_source entry) (λ item. try rest (λ results. ok (item ∷ results)))

  unfoldable pub list_credit_sources :
      MapOrder → String → Action S HttpError (List CreditSourcesItem)
  unfolding string_eq new_contract_with_address decode_custodian_storage get_ledger credit_sources
  list_credit_sources O custodian_address = do
    fail_if (custodian_address == "") (bad_request "No custodian ID specified")
    contract ← lift (find_contract "custodian" custodian_address "Custodian ID not recognised")
    storage ←
        or_fail
          (tezos_client.get_contract_storage _ contract decode_custodian_storage
            no_custodian_storage)
          (as_http (failed_dependency "Failed to get contract storage"))
    ledger ←
        or_fail (get_ledger tezos_client storage)
          (as_http (internal_server_error "Failed to get ledger storage"))
    lift (credit_sources contract (O.order LedgerKey ℤ ledger))

  unfoldable pub get_credit_sources :
      MapOrder → Bool → String → S → Response (List CreditSourcesItem) × S
  unfolding list_credit_sources
  get_credit_sources O writable custodian_address =
      respond writable (list_credit_sources O custodian_address)

  unfoldable pub get_indexer_url : Bool → S → Response String × S
  get_indexer_url writable = respond writable (pure tezos_client.get_indexer_web_url)

  unfoldable pub get_operation : Bool → String → S → Response (List Operation) × S
  unfolding string_eq
  get_operation writable hash = respond writable (do
    fail_if (hash == "") (bad_request "No operation hash specified")
    or_fail (tezos_client.get_operation_information hash)
        (as_http (internal_server_error "Failed to look up operation")))

  unfoldable pub get_events : Bool → String → String → S → Response (List Event) × S
  unfolding string_eq new_contract_with_address
  get_events writable contract_address tag = respond writable (do
    fail_if (contract_address == "") (bad_request "No contract hash specified")
    _ ← lift (
        map_err (as_http (bad_request "Failed to parse contract address"))
          (new_contract_with_address H "contract" contract_address))
    fail_if (tag == "") (bad_request "No tag specified")
    or_fail (tezos_client.get_contract_events contract_address tag)
        (as_http (internal_server_error "Failed to get events")))
