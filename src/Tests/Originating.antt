-- ===== src/Tests/Originating.antt =====
-- The origination of a custodian contract from the command line, at a chain that takes it.
use x4c.Base.{ℕ, suc, refl, [], ◌∷◌, some, ok, err, errorf, ◌==◌, if◌then◌else◌, string_eq}
use x4c.Base.Text.{strip_prefix}
use x4c.Base.Dict.{lookup, insert, insertion_order}
use x4c.Json.{Json, str, arr, obj, nil, cons, field, end}
use x4c.Tzclient.{load_default_client, originate, retry, save_contract, new_wallet_with_address}
use x4c.Ledgers.{custodian_originate}
use x4c.Cli.{Outside, originate_command, custodian_originate_command}
use x4c.Cli.Deploying.{custodian_kind, Started, originate-Started}
use x4c.Tests.Samples.{host, michelson, rpc}

-- The file of keys has one; the other files hold `null`.
abbrev keys : Json
keys =
    arr (
      cons (obj (field "name" (str "operator") (field "value" (str "unencrypted:secret") end))) nil)

-- A chain that originates every contract. It counts that, and files that are written.
abbrev outside : Outside host ℕ
outside = record {
  rpc = record rpc { deploy = λ key code storage s. (ok "KT1new", suc s) };
  http = λ r s. (err (errorf "no network"), s);
  map_order = insertion_order;
  getenv = λ name. "https://node";
  read_file = λ path.
      ok (some (if path == "https://node/.tezos-client/secret_keys" then keys else Json.null));
  read_bytes = λ path. ok [];
  write_file = λ path j s. (ok tt, suc s);
}

-- The owner is an address.
originate-Started_example :
    Started outside michelson custodian_kind "forest" "custodian.tz" "operator"
      (some "tz1owner")
      3
      5
unfolding custodian_originate_command originate_command custodian_originate load_default_client
    originate retry lookup insert string_eq strip_prefix save_contract new_wallet_with_address
originate-Started_example =
    originate-Started outside michelson custodian_kind "forest" "custodian.tz" "operator"
      (some "tz1owner") 3 {lines = "Submitted originate contract as KT1new" ∷ []} refl
