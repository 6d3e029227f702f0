-- ===== src/Cli/Reaching.antt =====
-- custodian_retire.go together with the custodian contract that it calls.
use x4c.Base.{String, ◌≡◌, List, [], ◌∷◌, ok, Outcome-cases, inl, inr, arith, string_eq}
use x4c.Base.Int.{ℤ}
use x4c.Base.Text.{parse_int}
use x4c.Host.{Host}
use x4c.Tzclient.{Client, Wallet, Contract, load_default_client}
use x4c.Contracts.Balance.{Context}
use x4c.Contracts.Michelson.{Michelson}
use x4c.Contracts.Custodian.Types.{Storage, Others}
use x4c.Ledgers.{custodian_retire}
use x4c.Ledgers.Retiring.{RunsCustodian, Taken, custodian_retire-Taken}
use x4c.Cli.Setup.{Outside, tezos_client, contract_or, wallet_or}
use x4c.Cli.Calls.{retire_command}

module _ {H : Host} {S : Type 0} (W : Outside H S) (M : Michelson H) (x : Context) (others : Others)
    (client : Client H) where
  abbrev pub Found : String → String → String → Contract H → Type 0
  Found label name refusal contract = contract_or W client name label name refusal ≡ ok contract

  -- What was done for the arguments `minter_name`, `kyc`, `id` and `quantity`.
  pub record Retired (minter_name kyc id quantity : String) (before after : Storage) : Type 0 where
    minter : Contract H
    token_id : ℤ
    amount : ℤ
    minter_found : Found "contract" minter_name "FA2 contract address is not valid" minter
    token_id_read : parse_int id ≡ ok token_id
    amount_read : parse_int quantity ≡ ok amount
    retired : Taken H M x others minter token_id amount kyc before after

  -- At a node that runs the custodian contract, `custodian retire` ends with status 0 only where the
  -- amount that the arguments name, of the token that they name, is taken out of the contract's
  -- ledger, and nothing of any other token. Numbers that are negative are not accepted.
  pub retire_command-Retired :
      (contract : Contract H) (signer : Wallet H) (view : S → Storage)
      (name signer_name minter_name kyc id quantity reason : String) (s : S) {lines : List String}
      {s' : S}
      → RunsCustodian H M x others (tezos_client W client) signer contract view
      → load_default_client H W.getenv W.read_file ≡ ok client
      → Found "contract" name "Contract address is not valid" contract
      → wallet_or W client signer_name "signer" "Signer address is not valid" ≡ ok signer
      → retire_command W (name ∷ signer_name ∷ minter_name ∷ kyc ∷ id ∷ quantity ∷ reason ∷ []) s
        ≡ (ok lines, s')
      → Retired minter_name kyc id quantity (view s) (view s')
  unfolding retire_command
  retire_command-Retired contract signer view name signer_name minter_name kyc id quantity reason s
        {lines} {s'} runs q0 q1 q2 h =
      elim (Outcome-cases (
        contract_or W client minter_name "contract" minter_name
          "FA2 contract address is not valid")) [
            | inr (e, q3) ↦ ground (arith, h, q0, q1, q2, q3)
            | inl (minter, q3) ↦ elim (Outcome-cases (parse_int id)) [
              | inr (e, q4) ↦ ground (arith, h, q0, q1, q2, q3, q4)
              | inl (token_id, q4) ↦ elim (Outcome-cases (parse_int quantity)) [
                | inr (e, q5) ↦ ground (arith, h, q0, q1, q2, q3, q4, q5)
                | inl (amount, q5) ↦
                    let sent =
                      custodian_retire H (tezos_client W client) contract signer minter token_id kyc
                        amount reason s in
                    elim (Outcome-cases sent.0) [
                      | inr (e, q6) ↦ ground (arith, h, q0, q1, q2, q3, q4, q5, q6)
                      | inl (op_hash, q6) ↦
                          let after : sent.1 ≡ s' = ground (arith, h, q0, q1, q2, q3, q4, q5, q6) in
                          let done : sent ≡ (ok op_hash, s') = ground (arith, q6, after) in
                          record {
                            minter = minter;
                            token_id = token_id;
                            amount = amount;
                            minter_found = q3;
                            token_id_read = q4;
                            amount_read = q5;
                            retired =
                                custodian_retire-Taken H M x others (tezos_client W client) signer
                                  contract view minter token_id amount kyc reason s runs done;
                          }
                    ]
              ]
            ]
          ]
