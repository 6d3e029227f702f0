-- ===== src/Tzclient/Mock.antt =====
-- mockclient.go: a client without a network, which tests of several packages use.
use x4c.Base.{
  Bool, false, List, [], Option, none, some, ok, err, Error, errorf, Action, if◌then◌else◌,
}
use x4c.Base.Int.{ℤ, int_eq}
use x4c.Base.Dict.{Dict, lookup, insert}
use x4c.Host.{Host}
use x4c.Tzkt.{BigMapItem}
use x4c.Tzclient.Accounts.{no_contract}
use x4c.Tzclient.Types.{TezosClient}

-- `storage` says for a type whether the field Storage is a pointer to a value of it, which is what
-- the comparison of types by `reflect` finds. The structs that are stored export all their fields.
pub record MockClient : Type 1 where
  pub should_error : Bool
  pub storage : (A : Type 0) → Option A
  pub items : Dict ℤ (List BigMapItem)

abbrev pub new_mock_client : MockClient
new_mock_client = record { should_error = false; storage = λ A. none; items = [] }

unfoldable pub add_big_map : ℤ → List BigMapItem → MockClient → MockClient
unfolding insert int_eq
add_big_map identifier items c = record c { items = insert identifier items c.items }

-- No method changes anything outside.
abbrev answer : {S A : Type 0} → MockClient → A → Action S Error A
answer c a s = (if c.should_error then err (errorf "Test should fail") else ok a, s)

abbrev or_old : {A : Type 0} → Option A → A → A
or_old none old = old
or_old (some stored) old = stored

abbrev or_empty : Option (List BigMapItem) → List BigMapItem
or_empty none = []
or_empty (some items) = items

module _ (H : Host) {S : Type 0} where
  -- MockClient as a TezosClient.
  unfoldable pub mock_tezos_client : MockClient → TezosClient H S
  unfolding lookup int_eq
  mock_tezos_client c = record {
    get_contract_storage = λ A target decode old. answer c (or_old (c.storage A) old);
    get_big_map_contents = λ identifier. answer c (or_empty (lookup identifier c.items));
    get_operation_information = λ hash. answer c [];
    get_contract_events = λ contract_address tag. answer c [];
    call_contract = λ signed_by target parameters. answer c "operationHash";
    originate = λ signed_by code initial_storage. answer c (no_contract H);
    contract_by_name = λ name. err (errorf "contract not found");
    get_indexer_web_url = "https://index.web";
  }
