-- ===== src/Tests/Listing.antt =====
-- A request for the sources of credits, with the mock client: a spent item and one that counts.
use x4c.Base.{ℕ, String, refl, true, false, Bool, [], ◌∷◌, some, none, string_eq}
use x4c.Base.Int.{pos, int_eq}
use x4c.Base.Text.{strip_prefix}
use x4c.Base.Dict.{insertion_order}
use x4c.Json.{str, obj, field, end}
use x4c.Json.Number.{is_valid_number}
use x4c.Tzkt.{BigMapItem, no_item}
use x4c.Tzclient.{MockClient, new_mock_client, add_big_map, mock_tezos_client, michelson_to_string}
use x4c.Ledgers.{ledger_key_eq}
use x4c.Server.{Server, CreditSourcesItem, get_credit_sources}
use x4c.Server.Listing.{Lists, get_credit_sources-Lists}
use x4c.Tests.Samples.{host}

abbrev item : Bool → String → BigMapItem
item active amount = record no_item {
  identifier = pos 7;
  active = active;
  hash = "expr";
  key = some (
      obj (
        field "token"
          (obj (field "token_id" (str "4") (field "token_address" (str "KT1token") end)))
          (field "kyc" (str "0501") end)));
  value = some (str amount);
}

abbrev client : MockClient
client = add_big_map (pos 0) (item false "9" ∷ item true "5" ∷ []) new_mock_client

abbrev server : Server host ℕ
server = record {
  tezos_client = mock_tezos_client host client;
  custodian_operator = record { name = "operator"; address = "tz1operator"; key = none };
}

abbrev source : CreditSourcesItem
source = record {
  token_id = pos 4;
  minter_url = "https://index.web/KT1token";
  kyc = "text";
  custodian_url = "https://index.web/KT1custodian";
  amount = pos 5;
  minter = "KT1token";
}

get_credit_sources-Lists_example : Lists server insertion_order "KT1custodian" 3 (source ∷ []) 3
unfolding get_credit_sources mock_tezos_client strip_prefix add_big_map is_valid_number
    michelson_to_string
get_credit_sources-Lists_example =
    get_credit_sources-Lists server insertion_order "KT1custodian" 3 refl
