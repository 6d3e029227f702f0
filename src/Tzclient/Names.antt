-- ===== src/Tzclient/Names.antt =====
-- Names and addresses of a Client, and saving a contract.
use x4c.Base.{
  String, Option, none, some, List, [], ◌∷◌, Outcome, ok, err, Error, errorf, wrap, Action,
  if◌then◌else◌, ◌==◌, ◌||◌, string_eq,
}
use x4c.Base.Dict.{Dict, lookup, insert, MapOrder}
use x4c.Json.{Json, Items, nil, cons, end, field, arr, obj, str}
use x4c.Host.{Host}
use x4c.Tzclient.Accounts.{Wallet, Contract}
use x4c.Tzclient.Types.{Client}
use x4c.Tzclient.Load.{join}

module _ {H : Host} where
  -- The loops over the maps, in the order that the maps are ranged over.
  unfoldable pub find_wallet_name : List (String × Wallet H) → String → Option String
  unfolding string_eq
  find_wallet_name [] address = none
  find_wallet_name ((name, info) ∷ rest) address =
      if H.address_string info.address == address then some name else find_wallet_name rest address

  unfoldable pub find_contract_name : List (String × Contract H) → String → Option String
  unfolding string_eq
  find_contract_name [] address = none
  find_contract_name ((name, info) ∷ rest) address =
      if H.address_string info.address == address
      then some name
      else find_contract_name rest address

  unfoldable pub find_name_for_address : MapOrder → Client H → String → String
  unfolding find_wallet_name find_contract_name
  find_name_for_address O c address =
      elim (find_wallet_name (O.order String (Wallet H) c.wallets) address) [
        | some name ↦ name
        | none ↦ elim (find_contract_name (O.order String (Contract H) c.contracts) address) [
          | some name ↦ name
          | none ↦ address
        ]
      ]

  unfoldable pub find_contract : List (String × Contract H) → String → Option (Contract H)
  unfolding string_eq
  find_contract [] name = none
  find_contract ((_, contract) ∷ rest) name =
      if contract.name == name || H.address_string contract.address == name
      then some contract
      else find_contract rest name

  unfoldable pub contract_by_name : MapOrder → Client H → String → Outcome Error (Contract H)
  unfolding find_contract lookup string_eq
  contract_by_name O c name = elim (lookup name c.contracts) [
    | some contract ↦ ok contract
    | none ↦ elim (find_contract (O.order String (Contract H) c.contracts) name) [
      | some contract ↦ ok contract
      | none ↦ err (errorf "contract not found")
    ]
  ]

  -- One entry of the file of contracts.
  abbrev pub encode_contract : Contract H → Json
  encode_contract info =
      obj (field "name" (str info.name) (field "value" (str (H.address_string info.address)) end))

  unfoldable pub encode_contracts : List (String × Contract H) → Items
  encode_contracts [] = nil
  encode_contracts ((_, info) ∷ rest) = cons (encode_contract info) (encode_contracts rest)

  unfoldable pub contracts_file : MapOrder → Dict String (Contract H) → Json
  unfolding encode_contracts
  contracts_file O contracts = arr (encode_contracts (O.order String (Contract H) contracts))

  -- `write_file` writes JSON under a path. The client that is left has the contract even where
  -- writing fails.
  unfoldable pub save_contract :
      {S : Type 0}
      → MapOrder
      → (String → Json → Action S Error (Unit {0}))
      → Contract H
      → Client H
      → S
      → Outcome Error (Unit {0}) × (Client H × S)
  unfolding contracts_file lookup insert string_eq
  save_contract O write_file contract c s =
      if c.path == ""
      then (err (errorf "client has not storage path set"), (c, s))
      else elim (lookup contract.name c.contracts) [
        | some _ ↦ (err (errorf "contract with name alread exists"), (c, s))
        | none ↦
            let contracts = insert contract.name contract c.contracts in
            let (r, s') = write_file (join c.path "contracts") (contracts_file O contracts) s in
            (
              elim r [ ok _ ↦ ok tt | err e ↦ err (wrap "failed to write new contract file" e) ],
              (record c { contracts = contracts }, s'),
            )
      ]
