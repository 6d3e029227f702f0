-- ===== src/Cli/Info.antt =====
-- What info.go, custodian_info.go and fa2_info.go look up.
use x4c.Base.{
  String, ◌<>◌, List, [], ◌∷◌, ◌++◌, map, Option, none, some, Outcome, ok, err, Action, pure, lift,
  or_fail, map_err, or_try, ◌>>=◌, if◌then◌else◌, ◌==◌, string_eq,
}
use x4c.Host.{Host}
use x4c.Tzclient.{
  Client, Wallet, Contract, get_contract_storage, new_contract_with_address, load_default_client,
  contract_by_name, get_big_map_contents, get_contract_events,
}
use x4c.Ledgers.{
  CustodianStorage, Fa2Storage, Ledger, ExternalLedger, Metadata, Fa2Ledger, TokenMetadata,
  InternalMintEvent, InternalTransferEvent, CustodianRetireEvent, Fa2RetireEvent,
  decode_custodian_storage, decode_fa2_storage, no_custodian_storage, no_fa2_storage, get_ledger,
  get_external_ledger, get_custodian_metadata, get_fa2_ledger, get_fa2_metadata, get_token_metadata,
  get_internal_mint_events, get_internal_transfer_events, get_custodian_retire_events,
  get_fa2_retire_events,
}
use x4c.Cli.Setup.{Outside, Command, printed, tezos_client, loaded}

pub record CustodianSnapshot : Type 0 where
  pub storage : CustodianStorage
  pub ledger_contents : Ledger
  pub external_ledger_contents : ExternalLedger
  pub metadata_contents : Metadata
  pub internal_mint_events : List InternalMintEvent
  pub internal_transfer_events : List InternalTransferEvent
  pub retire_events : List CustodianRetireEvent

pub record Fa2Snapshot : Type 0 where
  pub storage : Fa2Storage
  pub ledger_contents : Fa2Ledger
  pub metadata_contents : Metadata
  pub token_metadata_contents : TokenMetadata
  pub retire_events : List Fa2RetireEvent

module _ {H : Host} where
  -- `infoCommand` with a target: the address of a name, or the name of an address.
  unfoldable pub find_wallet_target : List (String × Wallet H) → String → Option String
  unfolding string_eq
  find_wallet_target [] target = none
  find_wallet_target ((_, wallet) ∷ rest) target =
      if wallet.name == target
      then some (H.address_string wallet.address)
      else if H.address_string wallet.address == target
      then some wallet.name
      else find_wallet_target rest target

  unfoldable pub find_contract_target : List (String × Contract H) → String → Option String
  unfolding string_eq
  find_contract_target [] target = none
  find_contract_target ((_, contract) ∷ rest) target =
      if contract.name == target
      then some (H.address_string contract.address)
      else if H.address_string contract.address == target
      then some contract.name
      else find_contract_target rest target

module _ {H : Host} {S : Type 0} (W : Outside H S) where
  open W use {map_order}

  abbrev show_target : Client H → String → Outcome String (List String)
  show_target client target =
      elim (find_wallet_target (map_order.order String (Wallet H) client.wallets) target) [
        | some line ↦ ok (line ∷ [])
        | none ↦
            elim (find_contract_target (map_order.order String (Contract H) client.contracts)
              target) [ some line ↦ ok (line ∷ []) | none ↦ err "" ]
      ]

  abbrev show_all : Client H → List String
  show_all client =
      map (λ (_, wallet). wallet.name <> (": " <> H.address_string wallet.address))
        (map_order.order String (Wallet H) client.wallets)
      ++ map (λ (_, contract). contract.name <> (": " <> H.address_string contract.address))
          (map_order.order String (Contract H) client.contracts)

  unfoldable pub info_command : List String → Command S
  unfolding find_wallet_target find_contract_target load_default_client
  info_command (target ∷ []) = do client ← loaded W; lift (show_target client target)
  info_command _ = do client ← loaded W; pure (show_all client)

  -- A contract by its name, or else by its address, under which it is then known.
  abbrev target_contract : Client H → String → String → Outcome String (Contract H)
  target_contract client name refusal =
      map_err (printed refusal)
        (or_try (contract_by_name map_order client name) (new_contract_with_address H name name))

  unfoldable pub custodian_snapshot : Client H → String → Action S String CustodianSnapshot
  unfolding contract_by_name new_contract_with_address get_contract_storage get_big_map_contents
      get_contract_events get_ledger get_external_ledger get_custodian_metadata
      get_internal_mint_events get_internal_transfer_events get_custodian_retire_events
      decode_custodian_storage
  custodian_snapshot client name = do
    contract ← lift (target_contract client name "Contract address is not valid")
    let c = tezos_client W client
    storage ←
        or_fail (c.get_contract_storage _ contract decode_custodian_storage no_custodian_storage)
          (printed "Failed to get contract storage")
    ledger ← or_fail (get_ledger c storage) (printed "Failed to read ledger")
    external_ledger ←
        or_fail (get_external_ledger c storage) (printed "Failed to read external ledger")
    metadata ← or_fail (get_custodian_metadata c storage) (printed "Failed to read metadata")
    mint_events ←
        or_fail (get_internal_mint_events c contract) (printed "Failed to get internal mint events")
    transfer_events ←
        or_fail (get_internal_transfer_events c contract)
          (printed "Failed to get internal transfer events")
    retirement_events ←
        or_fail (get_custodian_retire_events c contract) (printed "Failed to get retirement events")
    pure (record {
      storage = storage;
      ledger_contents = ledger;
      external_ledger_contents = external_ledger;
      metadata_contents = metadata;
      internal_mint_events = mint_events;
      internal_transfer_events = transfer_events;
      retire_events = retirement_events;
    })

  unfoldable pub fa2_snapshot : Client H → String → Action S String Fa2Snapshot
  unfolding contract_by_name new_contract_with_address get_contract_storage get_big_map_contents
      get_contract_events get_fa2_ledger get_fa2_metadata get_token_metadata get_fa2_retire_events
      decode_fa2_storage
  fa2_snapshot client name = do
    contract ← lift (target_contract client name "Contract address is not valid")
    let c = tezos_client W client
    storage ←
        or_fail (c.get_contract_storage _ contract decode_fa2_storage no_fa2_storage)
          (printed "Failed to get contract storage")
    ledger ← or_fail (get_fa2_ledger c storage) (printed "Failed to read ledger")
    metadata ← or_fail (get_fa2_metadata c storage) (printed "Failed to read FA2 metadata")
    token_metadata ←
        or_fail (get_token_metadata c storage) (printed "Failed to read token metadata")
    retire_events ←
        or_fail (get_fa2_retire_events c contract) (printed "Failed to get retirement events")
    pure (record {
      storage = storage;
      ledger_contents = ledger;
      metadata_contents = metadata;
      token_metadata_contents = token_metadata;
      retire_events = retire_events;
    })
