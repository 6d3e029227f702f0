-- ===== src/Tzclient/Load.antt =====
-- Making a Client from the environment and from the files of tezos-client.
use text.Mathlib.Text.{find?}
use x4c.Base.{
  String, ◌<>◌, Bool, true, false, Option, none, some, List, [], ◌∷◌, Outcome, ok, err, Error,
  errorf, wrap, url_error, not_exist, other, ok_or, map_err, if◌then◌else◌, ◌==◌, string_eq,
}
use x4c.Base.Fallible.{◌>>=◌}
use x4c.Base.Text.{strip_prefix}
use x4c.Base.Dict.{Dict, lookup, insert}
use x4c.Json.{
  Json, Raw, Table, Decoder, into, decode_string, decode_struct, decode_slice, unmarshal,
}
use x4c.Json
use x4c.Host.{Host}
use x4c.Tzclient.Accounts.{
  Wallet, Contract, new_wallet_with_address, new_wallet_with_private_key, new_contract_with_address,
}
use x4c.Tzclient.Types.{Client}

-- `os.Getenv`
abbrev pub Environment : Type 0
Environment = String → String

-- `ioutil.ReadFile` of a path, with the content as JSON.
abbrev pub Files : Type 0
Files = String → Outcome Error Raw

-- tezosClientValue
pub record ClientValue : Type 0 where
  pub name : String
  pub value : String

abbrev pub value_table : Table ClientValue
value_table =
    ("name", into decode_string (λ r. r.name) (λ r v. record r { name = v }))
    ∷ ("value", into decode_string (λ r. r.value) (λ r v. record r { value = v }))
    ∷ []

unfoldable pub decode_values : Decoder (List ClientValue)
unfolding decode_slice decode_struct
decode_values = decode_slice (decode_struct value_table) (record { name = ""; value = "" })

-- What is under the name `key` in an object: its last entry.
unfoldable pub inner_key : Json.Fields → Option Json → Option Json
unfolding string_eq
inner_key Json.end found = found
inner_key (Json.field name j fs) found = inner_key fs (if name == "key" then some j else found)

-- `tezosClientPublicKey.Key`, on the field `Value`
unfoldable pub public_key : Json → Outcome Error String
unfolding inner_key
public_key (Json.str s) = ok s
public_key (Json.obj fs) = elim (inner_key fs none) [
  | some (Json.str s) ↦ ok s
  | some _ ↦ err (errorf "Unexpected inner type found")
  | none ↦ err (errorf "Unexpected inner type found")
]
public_key _ = err (errorf "Unexpected type found")

-- filepath.Join of a clean path and a name.
abbrev pub join : String → String → String
join path name = if path == "" then name else path <> ("/" <> name)

-- strings.Contains
abbrev contains_text : String → String → Bool
contains_text s t = elim (find? s t) [ none ↦ false | some _ ↦ true ]

module _ (H : Host) where
  abbrev pub empty_client : String → Client H
  empty_client path = record {
    rpc_url = "";
    indexer_rpc_url = "";
    signatory_url = "";
    wallets = [];
    contracts = [];
    path = path;
    indexer_web_url = "";
  }

  abbrev with_environment : Environment → Client H → Client H
  with_environment getenv c = record c {
    rpc_url = getenv "X4C_TEZOS_RPC_HOST";
    indexer_rpc_url = getenv "X4C_TEZOS_INDEX_HOST";
    indexer_web_url = getenv "X4C_TEZOS_INDEX_WEB";
    signatory_url = getenv "X4C_SIGNATORY_HOST";
  }

  -- The second test is on the RPC URL, as in the source.
  unfoldable pub new_client : Environment → Outcome Error (Client H)
  unfolding string_eq
  new_client getenv =
      if getenv "X4C_TEZOS_RPC_HOST" == ""
      then err (errorf "X4C_TEZOS_RPC_HOST is not configured")
      else if getenv "X4C_TEZOS_RPC_HOST" == ""
      then err (errorf "X4C_TEZOS_INDEX_HOST is not configured")
      else ok (with_environment getenv (empty_client ""))

  abbrev with_network : String → Client H → Client H
  with_network network c = record c {
    indexer_rpc_url = "https://api." <> (network <> ".tzkt.io/");
    indexer_web_url = "https://" <> (network <> ".tzkt.io/");
  }

  -- Where the environment does not name the node, the configuration does, and the indexer's URLs
  -- follow from it.
  unfoldable pub infer_hosts : String → Client H → Outcome Error (Client H)
  unfolding string_eq
  infer_hosts endpoint c =
      if c.rpc_url == ""
      then if endpoint == ""
        then err (errorf "no rpc endpoint found in tezos-client config")
        else ok (
            with_network
              (if contains_text endpoint "kathmandunet"
                then "kathmandunet"
                else if contains_text endpoint "ghostnet"
                then "ghostnet"
                else "mainnet")
              (record c { rpc_url = endpoint }))
      else ok c

  unfoldable pub load_secret_keys :
      List ClientValue → Dict String (Wallet H) → Outcome Error (Dict String (Wallet H))
  unfolding strip_prefix new_wallet_with_private_key insert string_eq
  load_secret_keys [] wallets = ok wallets
  load_secret_keys (key ∷ secret_keys) wallets =
      let rest = λ (w : Wallet H). load_secret_keys secret_keys (insert key.name w wallets) in
      do
        value ←
            ok_or (strip_prefix "unencrypted:" key.value)
              (errorf "Key has unexpected secret key format.")
        wallet ← map_err (wrap "failed to parse key") (new_wallet_with_private_key H key.name value)
        rest wallet

  unfoldable pub load_hashes :
      List ClientValue → Dict String (Wallet H) → Outcome Error (Dict String (Wallet H))
  unfolding new_wallet_with_address insert lookup string_eq
  load_hashes [] wallets = ok wallets
  load_hashes (hash ∷ hashes) wallets =
      let rest = λ (ws : Dict String (Wallet H)). load_hashes hashes ws in
      elim (lookup hash.name wallets) [
        | some _ ↦ rest wallets
        | none ↦ do
          wallet ←
              map_err (wrap "failed to parse hash") (new_wallet_with_address H hash.name hash.value)
          rest (insert hash.name wallet wallets)
      ]

  unfoldable pub load_contracts :
      List ClientValue → Dict String (Contract H) → Outcome Error (Dict String (Contract H))
  unfolding new_contract_with_address insert string_eq
  load_contracts [] contracts = ok contracts
  load_contracts (info ∷ infos) contracts =
      let rest = λ (c : Contract H). load_contracts infos (insert info.name c contracts) in
      do
        contract ←
            map_err (wrap "failed to parse contract")
              (new_contract_with_address H info.name info.value)
        rest contract

  -- A file of values; `failed` and `decode_failed` are the texts of the errors.
  abbrev read_values : Files → String → String → String → Outcome Error (List ClientValue)
  read_values read_file file failed decode_failed = do
    content ← map_err (wrap failed) (read_file file)
    map_err (wrap decode_failed) (unmarshal decode_values content [])

  -- A missing file of contracts is no error.
  unfoldable pub read_contracts : Files → String → Outcome Error (Dict String (Contract H))
  unfolding decode_values load_contracts
  read_contracts read_file file = elim (read_file file) [
    | err e ↦ elim e.cause [
      | not_exist ↦ ok []
      | url_error ↦ err (wrap "failed to open tezos-client contracts" e)
      | other ↦ err (wrap "failed to open tezos-client contracts" e)
    ]
    | ok content ↦ do
      contracts ←
          map_err (wrap "failed to decode tezos-client contracts")
            (unmarshal decode_values content [])
      load_contracts contracts []
  ]

  -- tezosClientConfig, whose one field is the endpoint.
  unfoldable pub read_endpoint : Files → String → Outcome Error String
  unfolding decode_struct
  read_endpoint read_file file = do
    content ← map_err (wrap "failed to open tezos-client config") (read_file file)
    map_err (wrap "failed to decode tezos-client config")
        (unmarshal (decode_struct (("endpoint", decode_string) ∷ [])) content "")

  unfoldable pub load_client : Environment → Files → String → Outcome Error (Client H)
  unfolding infer_hosts read_endpoint load_secret_keys load_hashes read_contracts decode_values
  load_client getenv read_file path = do
    endpoint ← read_endpoint read_file (join path "config")
    client ← infer_hosts endpoint (with_environment getenv (empty_client path))
    secret_keys ←
        read_values read_file (join path "secret_keys") "failed to open tezos-client secret keys"
          "failed to decode tezos-client secret keys"
    own ← load_secret_keys secret_keys []
    hashes ←
        read_values read_file (join path "public_key_hashs") "failed to open tezos-client hashes"
          "failed to decode tezos-client hashes"
    wallets ← load_hashes hashes own
    contracts ← read_contracts read_file (join path "contracts")
    ok (record client { wallets = wallets; contracts = contracts })

  unfoldable pub load_default_client : Environment → Files → Outcome Error (Client H)
  unfolding load_client
  load_default_client getenv read_file =
      load_client getenv read_file (join (getenv "HOME") ".tezos-client")
