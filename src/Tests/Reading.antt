-- ===== src/Tests/Reading.antt =====
-- Items of big maps and events.
use x4c.Base.{
  ℕ, String, ◌≡◌, refl, true, false, Bool, List, [], ◌∷◌, map, some, none, ok, All, nat_eq,
}
use x4c.Base.Int.{pos}
use x4c.Base.Text.{parse_int}
use x4c.Base.Dict.{lookup}
use x4c.Json.{Json, str, num, obj, arr, field, end, cons, nil}
use x4c.Json.Number.{is_valid_number}
use x4c.Tzkt.{BigMapItem, Event, HttpClient, TzKtClient, no_item, no_event}
use x4c.Tzkt
use x4c.Tzkt.Sanity.{IsSane, get_big_map_contents-IsSane}
use x4c.Tzclient.{michelson_to_string}
use x4c.Contracts.Custodian.Types.{token_eq}
use x4c.Ledgers.{
  read_ledger_item, read_external_item, read_items, LedgerKey, ledger_key_eq, token_id_eq,
  read_transfer_event, read_retire_event, read_fa2_retire_event,
}
use x4c.Ledgers.Reading.{
  latest, read_items-lookup, active_items, activated, ledger-active_items,
  external_ledger-activated,
}
use x4c.Ledgers.Emitted.{
  transfer_payload, retire_payload, fa2_retire_payload, read_transfer_event-swaps,
  read_retire_event-reads, read_fa2_retire_event-token,
}
use x4c.Tests.Samples.{host}

abbrev key : LedgerKey
key = record { token = record { token_id = "4"; address = "KT1token" }; raw_kyc = "0501" }

abbrev key_json : Json
key_json = obj (
    field "token" (obj (field "token_id" (str "4") (field "token_address" (str "KT1token") end)))
      (field "kyc" (str "0501") end))

abbrev item : Bool → String → BigMapItem
item active amount = record no_item {
  identifier = pos 7;
  active = active;
  hash = "expr";
  key = some key_json;
  value = some (str amount);
}

-- An item that was spent, and one that counts.
abbrev items : List BigMapItem
items = item false "9" ∷ item true "5" ∷ []

read_items-lookup_example : lookup key ((key, pos 5) ∷ []) ≡ latest read_ledger_item key items none
unfolding read_items read_ledger_item is_valid_number lookup
read_items-lookup_example = read_items-lookup read_ledger_item key items [] refl

ledger-active_items_example :
    read_items read_ledger_item items [] ≡ read_items read_ledger_item (active_items items) []
ledger-active_items_example = ledger-active_items items []

external_ledger-activated_example :
    read_items read_external_item items [] ≡ read_items read_external_item (map activated items) []
external_ledger-activated_example = external_ledger-activated items []

abbrev item_json : Json
item_json = obj (
    field "id" (num "7") (
      field "active" (Json.bool true)
        (field "hash" (str "expr") (field "key" key_json (field "value" (str "5") end)))))

-- An indexer that answers every request with one item.
abbrev indexer : TzKtClient host ℕ
indexer = record {
  client =
      λ request s. (ok (record { status_code = 200; body = some (arr (cons item_json nil)) }), s);
  base_url = "https://indexer";
}

get_big_map_contents-IsSane_example : All IsSane (item true "5" ∷ [])
unfolding Tzkt.get_big_map_contents parse_int
get_big_map_contents-IsSane_example = get_big_map_contents-IsSane indexer (pos 12) 0 refl

abbrev transfer_event : Event
transfer_event = record no_event {
  payload = some (transfer_payload "0501" "0502" "KT1token" "4" "5");
}

read_transfer_event-swaps_example :
    read_transfer_event host transfer_event
    ≡ ok (record {
      event = transfer_event;
      raw_to = "0501";
      raw_from = "0502";
      token = record { token_id = "4"; address = "KT1token" };
      amount = "5";
    })
unfolding is_valid_number
read_transfer_event-swaps_example =
    read_transfer_event-swaps host transfer_event "KT1token" "4" "5" refl "0501" "0502" refl refl

abbrev retire_event : Event
retire_event = record no_event {
  payload = some (retire_payload "tz1alice" "0501" "KT1token" "4" "5" "0502");
}

read_retire_event-reads_example :
    read_retire_event host retire_event
    ≡ ok (record {
      event = retire_event;
      retiring_party = "tz1alice";
      retiring_party_kyc = "text";
      token = record { token_id = "4"; address = "KT1token" };
      amount = "5";
      reason = "text";
    })
unfolding is_valid_number michelson_to_string
read_retire_event-reads_example =
    read_retire_event-reads host retire_event "KT1token" "4" "5" refl "tz1alice" "0501" "0502" refl
      refl refl refl

abbrev fa2_event : Event
fa2_event = record no_event { payload = some (fa2_retire_payload "tz1alice" "4" "5" "0502") }

read_fa2_retire_event-token_example :
    read_fa2_retire_event host fa2_event
    ≡ ok (record {
      event = fa2_event;
      retiring_party = "tz1alice";
      token_id = "0";
      amount = "5";
      reason = "text";
    })
unfolding is_valid_number michelson_to_string
read_fa2_retire_event-token_example =
    read_fa2_retire_event-token host fa2_event "KT1token" "4" "5" refl "tz1alice" "0502" refl refl
