-- ===== src/Cli/Setup.antt =====
-- What the commands share. A command fails with what it prints to stderr last, and exits with 1; or
-- it gives the lines for stdout, and exits with 0.
use x4c.Base.{
  String, List, none, some, Outcome, ok, Error, Action, lift, or_try, map_err, string_eq,
}
use x4c.Base.Int.{ℤ}
use x4c.Base.Text.{parse_int}
use x4c.Base.Dict.{lookup, MapOrder}
use x4c.Json.{Json}
use x4c.Host.{Host}
use x4c.Tzkt.{HttpClient}
use x4c.Tzclient.{
  Rpc, Client, TezosClient, Wallet, Contract, Environment, Files, as_tezos_client,
  load_default_client, contract_by_name, new_contract_with_address, new_wallet_with_address,
}

-- The outside of a process.
pub record Outside (H : Host) (S : Type 0) : Type 1 where
  pub rpc : Rpc H S
  pub http : HttpClient S
  pub map_order : MapOrder
  pub getenv : Environment
  pub read_file : Files
  pub read_bytes : String → Outcome Error (List Prim.Native.Nat.ℕ)
  pub write_file : String → Json → Action S Error (Unit {0})

abbrev pub Command : Type 0 → Type 0
Command S = Action S String (List String)

-- An error of a call, under the text that is printed.
abbrev pub printed : String → Error → String
printed text _ = text

module _ {H : Host} {S : Type 0} (W : Outside H S) where
  abbrev pub tezos_client : Client H → TezosClient H S
  tezos_client = as_tezos_client W.rpc W.http W.map_order

  abbrev pub loaded : Action S String (Client H)
  loaded =
      lift (map_err (printed "Failed to find info") (load_default_client H W.getenv W.read_file))

  -- A contract by its name, or else the one at an address.
  abbrev pub contract_or :
      Client H → String → String → String → String → Outcome String (Contract H)
  contract_or c name label address text =
      map_err (printed text)
        (or_try (contract_by_name W.map_order c name) (new_contract_with_address H label address))

  -- A wallet by its name, or else one with an address.
  abbrev pub wallet_or : Client H → String → String → String → Outcome String (Wallet H)
  wallet_or c name label text = elim (lookup name c.wallets) [
    | some wallet ↦ ok wallet
    | none ↦ map_err (printed text) (new_wallet_with_address H label name)
  ]

abbrev pub integer : String → String → Outcome String ℤ
integer s text = map_err (printed text) (parse_int s)
