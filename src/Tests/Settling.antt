-- ===== src/Tests/Settling.antt =====
-- A request for a retirement at a node that runs both contracts, whose storages are the state.
use mathlib.Core.List.{flat_map}
use x4c.Base.{
  ℕ, String, ◌≡◌, refl, [], ◌∷◌, some, ok, err, Outcome, Error, Outcome-cases, inl, inr, arith,
  ◌==◌, if◌then◌else◌, nat_eq, string_eq,
}
use x4c.Base.Int.{ℤ}
use x4c.Base.Text.{to_bytes, parse_int}
use x4c.Base.Dict.{lookup, insert}
use x4c.Json.Number.{is_valid_number}
use x4c.Tzclient.{Contract}
use x4c.Contracts.Balance.{balance, sum_where}
use x4c.Contracts.Custodian.Types.{Storage, Entrypoint, owner_eq}
use x4c.Contracts.Custodian.Parameters.{read_entrypoint}
use x4c.Contracts.Fa2
use x4c.Contracts.Settlement.{System, run}
use x4c.Contracts.Settlement.Recording.{IsSolvent}
use x4c.Ledgers.{retire_parameters}
use x4c.Ledgers.Settling.{settling, RunsSystem, Settled}
use x4c.Server.{Server, CreditRetireData, CreditRetireRequest, retire, read_request}
use x4c.Server.Settling.{retire-Settled}
use x4c.Tests.Settlement.{world, context, token, token_storage}
use x4c.Tests.Requests.{request}
use x4c.Tests.Samples.{host, michelson, wrong}

abbrev contract : Contract host
contract = record { name = "custodian"; address = "KT1self" }

abbrev fa2 : Contract host
fa2 = record { name = "fa2"; address = "KT1token" }

abbrev storage : ℕ → Storage
storage n = record {
  custodian = "tz1custodian";
  ledger = (record { kyc = to_bytes "alice"; token = token }, n) ∷ [];
  external_ledger = (token, n) ∷ [];
  operators = [];
  metadata = [];
}

abbrev state : ℕ → ℕ → System
state recorded has = record {
  custodian = storage recorded;
  token = token_storage has;
  pending = [];
}

state-IsSolvent : IsSolvent world (state 8 9)
unfolding lookup owner_eq balance sum_where Fa2.Entrypoints.is_operator to_bytes
state-IsSolvent = record {
  backed = record {
    ledger_nodup = (refl, tt);
    external_nodup = (refl, tt);
    agree = λ t. ground arith;
  };
  safe = record { nodup = (refl, tt); no_operator = λ operator id. refl };
  own = tt;
  covered = λ id. ground arith;
}

abbrev answer : System → Outcome ℕ System → Outcome Error String × System
answer before (ok after) = (ok "oo1hash", after)
answer before (err code) = (err wrong, before)

abbrev execute : System → Outcome Error Entrypoint → Outcome Error String × System
execute before (ok call) = answer before (run world (settling world context call) before)
execute before (err e) = (err e, before)

abbrev server : Server host System
server = record {
  tezos_client = record {
    get_contract_storage = λ A c decode old s. (ok old, s);
    get_big_map_contents = λ id s. (ok [], s);
    get_operation_information = λ hash s. (ok [], s);
    get_contract_events = λ address tag s. (ok [], s);
    call_contract = λ signer target p s. execute s (read_entrypoint michelson p);
    originate = λ signer code storage s. (ok contract, s);
    contract_by_name = λ name. if name == "fa2" then ok fa2 else ok contract;
    get_indexer_web_url = "https://web";
  };
  custodian_operator = record { name = "operator"; address = "tz1custodian"; key = some "secret" };
}

runs :
    RunsSystem world host michelson context server.tezos_client server.custodian_operator contract
      (λ s. s)
runs p s op_hash s' h = elim (Outcome-cases (read_entrypoint michelson p)) [
  | inr (e, q) ↦ ground (arith, h, q)
  | inl (call, q) ↦ elim (Outcome-cases (run world (settling world context call) s)) [
    | inr (code, r) ↦ ground (arith, h, q, r)
    | inl (after, r) ↦ (call, q, ground (arith, h, q, r))
  ]
]

abbrev asked : CreditRetireRequest
asked = record { minter = "fa2"; kyc = "alice"; token_id = "4"; amount = "5"; reason = "done" }

abbrev reply : CreditRetireData
reply = record {
  message = "Successfully retired credits";
  operation_hash = "oo1hash";
  operation_lookup_url = "https://web/oo1hash";
}

retire-Settled_example :
    (token_id : ℤ) × (amount : ℤ) × (parse_int asked.token_id ≡ ok token_id)
    × (parse_int asked.amount ≡ ok amount)
    × Settled world token_id amount (state 8 9) (state 3 4)
unfolding retire read_request parse_int is_valid_number run read_entrypoint nat_eq insert lookup
    to_bytes flat_map retire_parameters string_eq
retire-Settled_example =
    retire-Settled server world michelson context contract fa2 asked (λ s. s) "custodian"
      (request "5") (state 8 9) {d = reply} {s' = state 3 4} runs state-IsSolvent refl refl refl
      refl refl refl refl
