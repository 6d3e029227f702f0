-- ===== src/Tests/Starting.antt =====
-- A server that was started from the environment, at a chain that takes every call.
use x4c.Base.{ℕ, suc, ◌≡◌, ◌≢◌, refl, [], none, some, ok, ◌==◌, if◌then◌else◌, string_eq}
use x4c.Base.Text.{strip_prefix}
use x4c.Base.Dict.{lookup, insertion_order}
use x4c.Host.{Parameters}
use x4c.Tzclient.{
  Client, Wallet, Contract, Rpc, Environment, remote, retry, max_retries, call_contract, new_client,
}
use x4c.Server.{start}
use x4c.Server.Starting.{start-signs_remotely}
use x4c.Tests.Samples.{host, Prim, leaf_string, rpc}

abbrev environment : Environment
environment name =
    if name == "X4C_TEZOS_RPC_HOST"
    then "https://node"
    else if name == "X4C_SIGNATORY_HOST"
    then "https://signer"
    else if name == "X4C_CUSTODIAN_OPERATOR"
    then "tz1operator"
    else ""

abbrev answering : Rpc host ℕ
answering = record rpc { send = λ g source target p s. (ok (some "oo1hash"), suc s) }

abbrev client : Client host
client = record {
  rpc_url = "https://node";
  indexer_rpc_url = "";
  signatory_url = "https://signer";
  wallets = [];
  contracts = [];
  path = "";
  indexer_web_url = "";
}

abbrev operator : Wallet host
operator = record { name = "operator"; address = "tz1operator"; key = none }

abbrev contract : Contract host
contract = record { name = "custodian"; address = "KT1custodian" }

abbrev parameters : Parameters host
parameters = record { entrypoint = "retire"; value = leaf_string "value" }

start-signs_remotely_example :
    (environment "X4C_SIGNATORY_HOST" ≢ "")
    × (address : host.Address) × (host.parse_address "tz1operator" ≡ ok address)
    × (retry answering.sleep
          (answering.send (remote "https://signer" address) address "KT1custodian" parameters)
          max_retries
          3
        ≡ (ok (some "oo1hash"), 4))
unfolding start call_contract retry strip_prefix string_eq lookup new_client
start-signs_remotely_example =
    start-signs_remotely answering
      (λ request s. (ok (record { status_code = 200; body = none }), s)) insertion_order environment
      contract parameters 3 {client = client} {operator = operator} {op_hash = "oo1hash"} {s' = 4}
      refl refl
