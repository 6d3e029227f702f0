-- ===== src/Tests/Chain.antt =====
-- The client of the chain at a chain whose state counts the requests, and that never answers.
use mathlib.Core.List.{Mem}
use x4c.Base.{suc, ◌+◌, ◌≤◌, String, ◌≡◌, refl, [], ◌∷◌, some, none, ok, err, Error, ◌⊎◌, string_eq}
use x4c.Base.Dict.{lookup, insertion_order}
use x4c.Host.{Parameters}
use x4c.Tzclient.{Client, Wallet, Contract, max_retries, call_contract, contract_by_name}
use x4c.Tzclient.Retry.{call_contract-tries}
use x4c.Tzclient.Lookup.{Matches, contract_by_name_lem}
use x4c.Tests.Samples.{host, Prim, leaf_string, rpc}

abbrev wallet : Wallet host
wallet = record { name = "operator"; address = "tz1operator"; key = some "secret" }

abbrev contract : Contract host
contract = record { name = "custodian"; address = "KT1custodian" }

abbrev client : Client host
client = record {
  rpc_url = "https://node";
  indexer_rpc_url = "https://indexer";
  signatory_url = "https://signer";
  wallets = ("operator", wallet) ∷ [];
  contracts = ("custodian", contract) ∷ [];
  path = "/home";
  indexer_web_url = "https://web";
}

abbrev parameters : Parameters host
parameters = record { entrypoint = "retire"; value = leaf_string "value" }

-- Six attempts after three.

call_contract-tries_example :
    ((call_contract rpc client wallet contract parameters 3).1 ≤ 3 + suc max_retries)
    × ((hash : String)
        → (call_contract rpc client wallet contract parameters 3).0 ≡ ok hash
        → 4 ≤ (call_contract rpc client wallet contract parameters 3).1)
call_contract-tries_example =
    call_contract-tries rpc (λ s. s) (λ g source target p s. refl) (λ s. refl) (λ s. refl) client
      wallet contract parameters 3

contract_by_name_lem_example :
    ((k : Contract host)
      → contract_by_name insertion_order client "KT1custodian" ≡ ok k
      → (lookup "KT1custodian" client.contracts ≡ some k)
        ⊎ ((n : String) × Mem (n, k) client.contracts × Matches "KT1custodian" k))
    × ((e : Error)
        → contract_by_name insertion_order client "KT1custodian" ≡ err e
        → (lookup "KT1custodian" client.contracts ≡ none)
          × ((n : String) (k : Contract host)
              → Mem (n, k) client.contracts
              → ¬ Matches "KT1custodian" k))
contract_by_name_lem_example = contract_by_name_lem insertion_order client "KT1custodian"
