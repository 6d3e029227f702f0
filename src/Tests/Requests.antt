-- ===== src/Tests/Requests.antt =====
-- Requests to the server and commands, on a chain whose state counts the calls of contracts.
use x4c.Base.{
  ℕ, suc, String, ◌≡◌, refl, true, [], ◌∷◌, some, none, ok, err, Error, errorf, ◌⊎◌, All, subst,
  sym, ◌∙◌, ok-injective, string_eq,
}
use x4c.Base.Int.{pos}
use x4c.Base.Text.{parse_int}
use x4c.Base.Dict.{insertion_order}
use x4c.Json.{Json, str, num, obj, field, end}
use x4c.Json.Number.{is_valid_number}
use x4c.Tzclient.{Client, TezosClient, Contract, Wallet, load_default_client, contract_by_name}
use x4c.Ledgers.{LedgerKey, OperatorUpdate, custodian_update_operators}
use x4c.Ledgers.Operators.{IsKnown, custodian_update_operators-IsKnown}
use x4c.Server.{Server, Body, bad_request, retire}
use x4c.Server.Safety.{retire-refused}
use x4c.Cli.{Outside, internal_mint_command}
use x4c.Cli.Faults.{internal_mint_command-unknown}
use x4c.Host.{Parameters}
use x4c.Cli.{tezos_client}
use x4c.Tests.Samples.{host, rpc}

abbrev contract : Contract host
contract = record { name = "custodian"; address = "KT1custodian" }

abbrev wallet : Wallet host
wallet = record { name = "operator"; address = "tz1operator"; key = some "secret" }

-- Every contract name is known, and a call is counted.
abbrev counting : TezosClient host ℕ
counting = record {
  get_contract_storage = λ A c decode old s. (ok old, s);
  get_big_map_contents = λ id s. (ok [], s);
  get_operation_information = λ hash s. (ok [], s);
  get_contract_events = λ address tag s. (ok [], s);
  call_contract = λ signer target p s. (ok "oo1hash", suc s);
  originate = λ signer code storage s. (ok contract, suc s);
  contract_by_name = λ name. ok contract;
  get_indexer_web_url = "https://web";
}

abbrev server : Server host ℕ
server = record { tezos_client = counting; custodian_operator = wallet }

abbrev pub request : String → Body
request amount = record {
  extent = 100;
  content = some (
      obj (
        field "minter" (str "fa2") (
          field "kyc" (str "alice") (
            field "tokenID" (num "4")
              (field "amount" (num amount) (field "reason" (str "done") end))))));
}

-- An amount of 0 is refused.
retire-refused_example : (retire server true "custodian" (request "0") 3).1 ≡ 3
unfolding retire parse_int is_valid_number
retire-refused_example =
    retire-refused server true "custodian" (request "0") 3
      {e = bad_request "Amount to retire is not valid"} refl refl

abbrev key : LedgerKey
key = record { token = record { token_id = "4"; address = "KT1token" }; raw_kyc = "0501" }

abbrev update : ℕ → OperatorUpdate host
update kind = record { owner = "alice"; operator = "tz1bob"; token_id = pos 4; update_type = kind }

custodian_update_operators-IsKnown_example :
    All (IsKnown host) (update 1 ∷ update 7 ∷ [])
    ⊎ ((e : Error) × (custodian_update_operators host counting contract wallet
            (update 1 ∷ update 7 ∷ [])
            3
          ≡ (err e, 3)))
custodian_update_operators-IsKnown_example =
    custodian_update_operators-IsKnown host counting contract wallet (update 1 ∷ update 7 ∷ []) 3

-- A client with no wallets and no contracts.
abbrev client : Client host
client = record {
  rpc_url = "https://node";
  indexer_rpc_url = "https://node";
  signatory_url = "https://node";
  wallets = [];
  contracts = [];
  path = "https://node/.tezos-client";
  indexer_web_url = "https://node";
}

-- A process with one value for all variables, and with files that hold `null`.
abbrev outside : Outside host ℕ
outside = record {
  rpc = rpc;
  http = λ r s. (err (errorf "no network"), s);
  map_order = insertion_order;
  getenv = λ name. "https://node";
  read_file = λ path. ok (some Json.null);
  read_bytes = λ path. ok [];
  write_file = λ path j s. (ok tt, s);
}

client_loaded : load_default_client host outside.getenv outside.read_file ≡ ok client
unfolding load_default_client string_eq
client_loaded = refl

unknown_contract :
    (name : String) (c : Client host)
    → load_default_client host outside.getenv outside.read_file ≡ ok c
    → (e : Error) × (contract_by_name insertion_order c name ≡ err e)
unfolding contract_by_name
unknown_contract name c h =
    subst (λ d. (e : Error) × (contract_by_name insertion_order d name ≡ err e))
      (ok-injective (sym client_loaded ∙ h)) (errorf "contract not found", refl)

internal_mint_command-unknown_example :
    internal_mint_command outside ("KT1custodian" ∷ "tz1operator" ∷ "KT1token" ∷ "4" ∷ []) 3
    ≡ internal_mint_command outside ("KT1custodian" ∷ "tz1operator" ∷ "no such" ∷ "4" ∷ []) 3
internal_mint_command-unknown_example =
    internal_mint_command-unknown outside "KT1custodian" "tz1operator" "4" "KT1token" "no such" 3
      (unknown_contract "KT1token") (unknown_contract "no such")

abbrev signer : Wallet host
signer = record { name = "signer"; address = "tz1operator"; key = none }

-- At a chain that takes every call.
abbrev taking : Outside host ℕ
taking = record outside {
  rpc = record rpc { send = λ g source target p s. (ok (some "oo1hash"), suc s) };
}
