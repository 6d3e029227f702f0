-- ===== src/Tzclient/Interface.antt =====
-- Client as an implementation of the interface TezosClient.
use x4c.Base.Dict.{MapOrder}
use x4c.Host.{Host}
use x4c.Tzkt.{HttpClient}
use x4c.Tzclient.Types.{Client, TezosClient}
use x4c.Tzclient.Chain.{Rpc}
use x4c.Tzclient.Calls
use x4c.Tzclient.Names

module _ {H : Host} {S : Type 0} (R : Rpc H S) (http : HttpClient S) (O : MapOrder) where
  abbrev pub as_tezos_client : Client H → TezosClient H S
  as_tezos_client c = record {
    get_contract_storage = Calls.get_contract_storage http c;
    get_big_map_contents = Calls.get_big_map_contents http c;
    get_operation_information = Calls.get_operation_information http c;
    get_contract_events = Calls.get_contract_events http c;
    call_contract = Calls.call_contract R c;
    originate = Calls.originate R c;
    contract_by_name = Names.contract_by_name O c;
    get_indexer_web_url = c.indexer_web_url;
  }
