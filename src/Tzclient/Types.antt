-- ===== src/Tzclient/Types.antt =====
-- The interface TezosClient over a state of the outside world, and the struct Client.
use x4c.Base.{String, ℕ, List, Outcome, Error, Action, string_eq}
use x4c.Base.Int.{ℤ}
use x4c.Base.Dict.{Dict}
use x4c.Json.{Decoder}
use x4c.Host.{Host, Parameters}
use x4c.Tzkt.{BigMapItem, Operation, Event}
use x4c.Tzclient.Accounts.{Wallet, Contract}

-- `storage` is decoded into a value that the caller has.
pub record TezosClient (H : Host) (S : Type 0) : Type 1 where
  pub get_contract_storage : (A : Type 0) → Contract H → Decoder A → A → Action S Error A
  pub get_big_map_contents : ℤ → Action S Error (List BigMapItem)
  pub get_operation_information : String → Action S Error (List Operation)
  pub get_contract_events : String → String → Action S Error (List Event)
  pub call_contract : Wallet H → Contract H → Parameters H → Action S Error String
  pub originate : Wallet H → List ℕ → H.Prim → Action S Error (Contract H)
  pub contract_by_name : String → Outcome Error (Contract H)
  pub get_indexer_web_url : String

pub record Client (H : Host) : Type 0 where
  pub rpc_url : String
  pub indexer_rpc_url : String
  pub signatory_url : String
  pub wallets : Dict String (Wallet H)
  pub contracts : Dict String (Contract H)
  pub path : String
  pub indexer_web_url : String
