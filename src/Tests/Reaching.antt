-- ===== src/Tests/Reaching.antt =====
-- Retirements at a node that runs the custodian contract, whose storage is the state.
use mathlib.Core.List.{flat_map}
use x4c.Base.{
  ℕ, String, Option, refl, true, List, [], ◌∷◌, some, none, ok, err, Outcome, Error, Outcome-cases,
  inl, inr, arith, ◌==◌, if◌then◌else◌, nat_eq, string_eq,
}
use x4c.Base.Text.{to_bytes, parse_int, strip_prefix}
use x4c.Base.Dict.{lookup, insert, insertion_order}
use x4c.Json.{null, str, num, obj, field, end}
use x4c.Json.Number.{is_valid_number}
use x4c.Tzclient.{
  TezosClient, Client, Wallet, Contract, call_contract, retry, load_default_client,
  contract_by_name,
}
use x4c.Cli.{Outside, tezos_client, retire_command}
use x4c.Cli.Reaching
use x4c.Contracts.Balance.{Context}
use x4c.Contracts.Custodian.Types.{Storage, Others, Operation, Entrypoint, token_eq}
use x4c.Contracts.Custodian.Entrypoints.{main}
use x4c.Contracts.Custodian.Parameters.{read_entrypoint}
use x4c.Ledgers.{retire_parameters}
use x4c.Server.{Server, Body, CreditRetireData, retire}
use x4c.Ledgers.Retiring.{RunsCustodian}
use x4c.Server.Reaching.{Retired, retire-Retired}
use x4c.Tests.Samples.{host, michelson, wrong}

abbrev contract : Contract host
contract = record { name = "custodian"; address = "KT1custodian" }

abbrev fa2 : Contract host
fa2 = record { name = "fa2"; address = "KT1token" }

abbrev context : Context
context = record { sender = "tz1operator"; source = "tz1operator"; self_address = "KT1custodian" }

abbrev others : Others
others = record { view_balance_of = λ _ _ _. none; has_entrypoint = λ _ _. true }

-- The owner has some of the token, and the sender is an operator of the owner.
abbrev storage : ℕ → Storage
storage a = record {
  custodian = "tz1custodian";
  ledger =
      (
        record {
          kyc = to_bytes "alice";
          token = record { token_address = "KT1token"; token_id = 4 };
        },
        a,
      )
      ∷ [];
  external_ledger = (record { token_address = "KT1token"; token_id = 4 }, a) ∷ [];
  operators =
      record { token_owner = to_bytes "alice"; token_operator = "tz1operator"; token_id = 4 } ∷ [];
  metadata = [];
}

abbrev answer : Storage → Outcome ℕ (List Operation × Storage) → Outcome Error String × Storage
answer before (ok (ops, after)) = (ok "oo1hash", after)
answer before (err code) = (err wrong, before)

abbrev execute : Storage → Outcome Error Entrypoint → Outcome Error String × Storage
execute before (ok call) = answer before (main context others call before)
execute before (err e) = (err e, before)

abbrev server_client : TezosClient host Storage
server_client = record {
  get_contract_storage = λ A c decode old s. (ok old, s);
  get_big_map_contents = λ id s. (ok [], s);
  get_operation_information = λ hash s. (ok [], s);
  get_contract_events = λ address tag s. (ok [], s);
  call_contract = λ signer target p s. execute s (read_entrypoint michelson p);
  originate = λ signer code storage s. (ok contract, s);
  contract_by_name = λ name. if name == "fa2" then ok fa2 else ok contract;
  get_indexer_web_url = "https://web";
}

abbrev server : Server host Storage
server = record {
  tezos_client = server_client;
  custodian_operator = record { name = "operator"; address = "tz1operator"; key = some "secret" };
}

runs :
    RunsCustodian host michelson context others server_client server.custodian_operator contract
      (λ s. s)
runs p s op_hash s' h = elim (Outcome-cases (read_entrypoint michelson p)) [
  | inr (e, q) ↦ ground (arith, h, q)
  | inl (call, q) ↦ elim (Outcome-cases (main context others call s)) [
    | inr (code, r) ↦ ground (arith, h, q, r)
    | inl ((ops, after), r) ↦ (call, ops, q, ground (arith, h, q, r))
  ]
]

abbrev request : Body
request = record {
  extent = 100;
  content = some (
      obj (
        field "minter" (str "fa2") (
          field "kyc" (str "alice") (
            field "tokenID" (num "4")
              (field "amount" (num "5") (field "reason" (str "done") end))))));
}

abbrev reply : CreditRetireData
reply = record {
  message = "Successfully retired credits";
  operation_hash = "oo1hash";
  operation_lookup_url = "https://web/oo1hash";
}

retire-Retired_example :
    Retired server michelson context others "custodian" request (storage 8) (storage 3)
unfolding retire parse_int is_valid_number main read_entrypoint nat_eq insert lookup to_bytes
    flat_map retire_parameters string_eq
retire-Retired_example =
    retire-Retired server michelson context others contract (λ s. s) "custodian" request (storage 8)
      {d = reply} {s' = storage 3} runs refl refl

-- A call as the RPC node carries it out, with a hash.
abbrev sent : Outcome Error String × Storage → Outcome Error (Option String) × Storage
sent (ok op_hash, s) = (ok (some op_hash), s)
sent (err e, s) = (err e, s)

abbrev outside : Outside host Storage
outside = record {
  rpc = record {
    new_client = λ url. ok tt;
    init_and_listen = λ s. s;
    new_remote = λ url. ok tt;
    send = λ g source target p s. sent (execute s (read_entrypoint michelson p));
    Code = String;
    unmarshal_code = λ bytes. ok "code";
    deploy = λ key code storage s. (err wrong, s);
    sleep = λ s. s;
  };
  http = λ r s. (err wrong, s);
  map_order = insertion_order;
  getenv = λ name. "https://node";
  read_file = λ path. ok (some null);
  read_bytes = λ path. ok [];
  write_file = λ path j s. (ok tt, s);
}

abbrev client : Client host
client = record {
  rpc_url = "https://node";
  indexer_rpc_url = "https://node";
  signatory_url = "https://node";
  wallets = [];
  contracts = [];
  path = "https://node/.tezos-client";
  indexer_web_url = "https://node";
}

abbrev custodian : Contract host
custodian = record { name = "contract"; address = "KT1custodian" }

abbrev signer : Wallet host
signer = record { name = "signer"; address = "tz1operator"; key = none }

runs_commands :
    RunsCustodian host michelson context others
      (tezos_client outside client)
      signer
      custodian
      (λ s. s)
unfolding call_contract retry
runs_commands p s op_hash s' h = elim (Outcome-cases (read_entrypoint michelson p)) [
  | inr (e, q) ↦ ground (arith, h, q)
  | inl (call, q) ↦ elim (Outcome-cases (main context others call s)) [
    | inr (code, r) ↦ ground (arith, h, q, r)
    | inl ((ops, after), r) ↦ (call, ops, q, ground (arith, h, q, r))
  ]
]

retire_command-Retired_example :
    Reaching.Retired outside michelson context others client "KT1token" "alice" "4" "5"
      (storage 8)
      (storage 3)
unfolding retire_command parse_int main read_entrypoint nat_eq insert lookup to_bytes flat_map
    retire_parameters string_eq strip_prefix call_contract retry load_default_client
    contract_by_name
retire_command-Retired_example =
    Reaching.retire_command-Retired outside michelson context others client custodian signer
      (λ s. s) "KT1custodian" "tz1operator" "KT1token" "alice" "4" "5" "done" (storage 8)
      {lines = "Submitted operation successfully as oo1hash" ∷ []} {s' = storage 3} runs_commands
      refl refl refl refl
