-- ===== src/Cli/Originate.antt =====
-- custodian_originate.go and fa2_originate.go of the command line tool.
use x4c.Base.{
  ℕ, String, ◌<>◌, List, [], ◌∷◌, Option, none, some, Outcome, ok, err, Error, Action, pure, lift,
  or_fail, map_err, ◌>>=◌, ok_or, string_eq,
}
use x4c.Base.Dict.{lookup}
use x4c.Host.{Host}
use x4c.Tzclient.{
  Client, Wallet, Contract, TezosClient, load_default_client, new_wallet_with_address, originate,
  save_contract,
}
use x4c.Ledgers.{custodian_originate, fa2_originate}
use x4c.Cli.Setup.{Outside, Command, printed, tezos_client, loaded}

module _ {H : Host} {S : Type 0} (W : Outside H S) where
  -- The owner or oracle: the signer, or the wallet or address that is named last.
  abbrev pub admin_address : Client H → Wallet H → Option String → Outcome String H.Address
  admin_address client signer none = ok signer.address
  admin_address client signer (some name) = elim (lookup name client.wallets) [
    | some wallet ↦ ok wallet.address
    | none ↦ elim (new_wallet_with_address H "oracle" name) [
      | ok wallet ↦ ok wallet.address
      | err _ ↦ err "Oracle address is not valid"
    ]
  ]

  abbrev pub save_as : Contract H → String → Client H → Action S String (Unit {0})
  save_as contract alias client s =
      let saved =
        save_contract W.map_order W.write_file (record contract { name = alias }) client s in
      (map_err (printed "Failed to save contract") saved.0, saved.1.1)

  -- Both commands, which differ in the storage of the contract.
  unfoldable pub originate_command :
      (TezosClient H S → List ℕ → Wallet H → H.Address → Action S Error (Contract H))
      → String
      → String
      → String
      → Option String
      → Command S
  unfolding lookup string_eq new_wallet_with_address load_default_client save_contract
  originate_command make alias file signer_name admin_name = do
    client ← loaded W
    _ ← lift (elim (lookup alias client.contracts) [
      | some _ ↦ err "Contract with name already exists"
      | none ↦ ok tt
    ])
    contract_bytes ← lift (map_err (printed "Failed to load contract") (W.read_bytes file))
    signer ← lift (ok_or (lookup signer_name client.wallets) "Signer name is not found")
    admin ← lift (admin_address client signer admin_name)
    contract ←
        or_fail (make (tezos_client W client) contract_bytes signer admin)
          (printed "Failed to originate contract")
    _ ← save_as contract alias client
    pure (("Submitted originate contract as " <> H.address_string contract.address) ∷ [])

  unfoldable pub custodian_originate_command : List String → Command S
  unfolding originate_command custodian_originate originate
  custodian_originate_command (alias ∷ file ∷ signer ∷ []) =
      originate_command (custodian_originate H) alias file signer none
  custodian_originate_command (alias ∷ file ∷ signer ∷ owner ∷ []) =
      originate_command (custodian_originate H) alias file signer (some owner)
  custodian_originate_command _ = lift (err "Expected arguments: alias tz_file_path signer [owner]")

  unfoldable pub fa2_originate_command : List String → Command S
  unfolding originate_command fa2_originate originate
  fa2_originate_command (alias ∷ file ∷ signer ∷ []) =
      originate_command (fa2_originate H) alias file signer none
  fa2_originate_command (alias ∷ file ∷ signer ∷ oracle ∷ []) =
      originate_command (fa2_originate H) alias file signer (some oracle)
  fa2_originate_command _ = lift (err "Expected arguments: alias tz_file_path signer [oracle]")
