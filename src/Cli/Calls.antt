-- ===== src/Cli/Calls.antt =====
-- The commands that call an entrypoint: fa2_add_token.go, fa2_mint.go and the custodian's
-- internal_mint, internal_transfer, update_operators and retire.
use x4c.Base.{
  ℕ, String, ◌<>◌, List, [], ◌∷◌, none, some, Outcome, ok, err, pure, lift, or_fail, map_err, ◌>>=◌,
  string_eq,
}
use x4c.Base.Text.{parse_int}
use x4c.Base.Dict.{lookup}
use x4c.Host.{Host}
use x4c.Tzclient.{
  Client, Wallet, no_wallet, load_default_client, contract_by_name, new_contract_with_address,
  new_wallet_with_address, call_contract,
}
use x4c.Ledgers.{
  custodian_internal_mint, custodian_internal_transfer, custodian_update_operators,
  custodian_retire, fa2_add_token, fa2_mint,
}
use x4c.Cli.Setup.{Outside, Command, printed, tezos_client, loaded, contract_or, wallet_or, integer}

abbrev submitted : String → List String
submitted operation_hash = ("Submitted operation successfully as " <> operation_hash) ∷ []

module _ {H : Host} {S : Type 0} (W : Outside H S) where
  -- The address that is tried for the FA2 contract is that of the custodian, as in the source.
  unfoldable pub internal_mint_command : List String → Command S
  unfolding lookup string_eq parse_int custodian_internal_mint contract_by_name
      new_contract_with_address new_wallet_with_address load_default_client call_contract
  internal_mint_command (arg0 ∷ arg1 ∷ arg2 ∷ arg3 ∷ []) = do
    client ← loaded W
    contract ← lift (contract_or W client arg0 "contract" arg0 "Contract address is not valid")
    signer ← lift (wallet_or W client arg1 "signer" "Signer address is not valid")
    fa2 ← lift (contract_or W client arg2 "contract" arg0 "FA2 contract address is not valid")
    token_id ← lift (integer arg3 "Failed to parse token ID")
    operation_hash ←
        or_fail (custodian_internal_mint H (tezos_client W client) contract signer fa2 token_id)
          (printed "Failed to update operators")
    pure (submitted operation_hash)
  internal_mint_command _ = lift (err "Incorrect number of arguments.")

  -- The FA2 contract is looked up by its key alone, and again the custodian's address is tried.
  unfoldable pub internal_transfer_command : List String → Command S
  unfolding lookup string_eq parse_int custodian_internal_transfer contract_by_name
      new_contract_with_address new_wallet_with_address load_default_client call_contract
  internal_transfer_command (arg0 ∷ arg1 ∷ arg2 ∷ arg3 ∷ arg4 ∷ arg5 ∷ arg6 ∷ []) = do
    client ← loaded W
    contract ← lift (contract_or W client arg0 "contract" arg0 "Contract address is not valid")
    signer ← lift (wallet_or W client arg1 "signer" "Signer address is not valid")
    fa2 ← lift (elim (lookup arg2 client.contracts) [
      | some fa2 ↦ ok fa2
      | none ↦
          map_err (printed "FA2 contract address is not valid")
            (new_contract_with_address H "contract" arg0)
    ])
    token_id ← lift (integer arg3 "Failed to parse token ID")
    amount ← lift (integer arg4 "Failed to parse amount")
    operation_hash ←
        or_fail
          (custodian_internal_transfer H (tezos_client W client) contract signer fa2 token_id amount
            arg5 arg6)
          (printed "Failed to update operators")
    pure (submitted operation_hash)
  internal_transfer_command _ = lift (err "Incorrect number of arguments.")

  unfoldable pub retire_command : List String → Command S
  unfolding lookup string_eq parse_int custodian_retire contract_by_name new_contract_with_address
      new_wallet_with_address load_default_client call_contract
  retire_command (arg0 ∷ arg1 ∷ arg2 ∷ arg3 ∷ arg4 ∷ arg5 ∷ arg6 ∷ []) = do
    client ← loaded W
    contract ← lift (contract_or W client arg0 "contract" arg0 "Contract address is not valid")
    signer ← lift (wallet_or W client arg1 "signer" "Signer address is not valid")
    fa2 ← lift (contract_or W client arg2 "contract" arg2 "FA2 contract address is not valid")
    token_id ← lift (integer arg4 "Failed to parse token ID")
    amount ← lift (integer arg5 "Failed to parse token ID")
    operation_hash ←
        or_fail
          (custodian_retire H (tezos_client W client) contract signer fa2 token_id arg3 amount arg6)
          (printed "Failed to retire tokens")
    pure (submitted operation_hash)
  retire_command _ = lift (err "Incorrect number of arguments.")

  -- An operator that is no wallet and no address is printed as an error, and the zero wallet is used.
  abbrev pub operator_or_zero : Client H → String → Wallet H
  operator_or_zero client name = elim (lookup name client.wallets) [
    | some operator ↦ operator
    | none ↦ elim (new_wallet_with_address H "operator" name) [
      | ok operator ↦ operator
      | err _ ↦ no_wallet H
    ]
  ]

  -- `operation_type` is the command's OperationType.
  unfoldable pub update_operators_command : ℕ → List String → Command S
  unfolding lookup string_eq parse_int custodian_update_operators contract_by_name
      new_contract_with_address new_wallet_with_address load_default_client call_contract
  update_operators_command operation_type (arg0 ∷ arg1 ∷ arg2 ∷ arg3 ∷ arg4 ∷ []) = do
    client ← loaded W
    contract ← lift (contract_or W client arg0 "contract" arg0 "Contract address is not valid")
    signer ← lift (wallet_or W client arg1 "signer" "Signer address is not valid")
    token_id ← lift (integer arg3 "Failed to parse token ID")
    operation_hash ←
        or_fail
          (custodian_update_operators H (tezos_client W client) contract signer (
            record {
              owner = arg4;
              operator = (operator_or_zero client arg2).address;
              token_id = token_id;
              update_type = operation_type;
            }
            ∷ []))
          (printed "Failed to update operators")
    pure (submitted operation_hash)
  update_operators_command operation_type _ = lift (err "Incorrect number of arguments.")

  unfoldable pub add_token_command : List String → Command S
  unfolding lookup string_eq parse_int fa2_add_token contract_by_name new_contract_with_address
      new_wallet_with_address load_default_client call_contract
  add_token_command (arg0 ∷ arg1 ∷ arg2 ∷ arg3 ∷ arg4 ∷ []) = do
    client ← loaded W
    contract ← lift (contract_or W client arg0 "contract" arg0 "Contract address is not valid")
    oracle ← lift (wallet_or W client arg1 "oracle" "Oracle address is not valid")
    token_id ← lift (integer arg2 "Failed to parse token ID")
    operation_hash ←
        or_fail (fa2_add_token H (tezos_client W client) contract oracle token_id arg3 arg4)
          (printed "Failed to add token")
    pure (submitted operation_hash)
  add_token_command _ = lift (err "Expected: contract oracle token_id token_owner amount")

  -- The owner of minted tokens: a wallet, a contract, or any address.
  abbrev token_owner : Client H → String → Outcome String H.Address
  token_owner client name = elim (lookup name client.wallets) [
    | some wallet ↦ ok wallet.address
    | none ↦ elim (contract_by_name W.map_order client name) [
      | ok contract ↦ ok contract.address
      | err _ ↦ map_err (printed "Failed to parse token owner") (H.parse_address name)
    ]
  ]

  unfoldable pub mint_command : List String → Command S
  unfolding lookup string_eq parse_int fa2_mint contract_by_name new_contract_with_address
      new_wallet_with_address load_default_client call_contract
  mint_command (arg0 ∷ arg1 ∷ arg2 ∷ arg3 ∷ arg4 ∷ []) = do
    client ← loaded W
    contract ← lift (contract_or W client arg0 "contract" arg0 "Contract address is not valid")
    oracle ← lift (wallet_or W client arg1 "oracle" "Oracle address is not valid")
    token_id ← lift (integer arg2 "Failed to parse token ID")
    owner ← lift (token_owner client arg3)
    amount ← lift (integer arg4 "Failed to parse amount")
    operation_hash ←
        or_fail (fa2_mint H (tezos_client W client) contract oracle token_id owner amount)
          (printed "Failed to mint tokens")
    pure (submitted operation_hash)
  mint_command _ = lift (err "Expected: contract oracle token_id token_owner amount")
