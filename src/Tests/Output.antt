-- ===== src/Tests/Output.antt =====
-- A snapshot of a custodian contract as JSON.
use x4c.Base.{◌≡◌, refl, [], ◌∷◌, ok, nat_eq, string_eq}
use x4c.Base.Int.{pos}
use x4c.Base.Text.{show_int}
use x4c.Base.Dict.{insertion_order}
use x4c.Json.{Json, str, num, arr, obj, nil, cons, field, end}
use x4c.Json.Number.{is_valid_number}
use x4c.Ledgers.{TokenId, LedgerKey, no_custodian_storage}
use x4c.Cli.{CustodianSnapshot, custodian_json}
use x4c.Cli.Snapshots.{Entries, read_snapshot, custodian_json-read}

abbrev token : TokenId
token = record { token_id = "4"; address = "KT1token" }

abbrev key : LedgerKey
key = record { token = token; raw_kyc = "0501" }

abbrev info : CustodianSnapshot
info = record {
  storage = no_custodian_storage;
  ledger_contents = (key, pos 5) ∷ [];
  external_ledger_contents = (token, pos 5) ∷ [];
  metadata_contents = ("name", "x4c") ∷ [];
  internal_mint_events = [];
  internal_transfer_events = [];
  retire_events = [];
}

abbrev token_json : Json
token_json = obj (field "token_id" (num "4") (field "token_address" (str "KT1token") end))

abbrev item : Json → Json → Json
item key value = arr (cons (obj (field "key" key (field "value" value end))) nil)

abbrev json : Json
json = obj (
    field "custodian" (str "") (
      field "ledger" (num "0") (
        field "metadata" (num "0") (
          field "operators" (arr nil) (
            field "external_ledger" (num "0") (
              field "ledger_bigmap"
                (item (obj (field "token" token_json (field "kyc" (str "0501") end))) (num "5"))
                (field "external_ledger_bigmap" (item token_json (num "5")) (
                  field "metadata_bigmap" (item (str "name") (str "x4c")) (
                    field "internal_mint_events" (arr nil) (
                      field "internal_transfer_events" (arr nil)
                        (field "retire_events" (arr nil) end)))))))))))

abbrev entries : Entries
entries = record {
  ledger = (key, pos 5) ∷ [];
  external_ledger = (token, pos 5) ∷ [];
  metadata = ("name", "x4c") ∷ [];
}

custodian_json-read_example : read_snapshot json ≡ ok entries
unfolding custodian_json is_valid_number show_int
custodian_json-read_example =
    custodian_json-read insertion_order info {j = json} ((refl, (refl, refl)), tt)
      ((refl, (refl, refl)), tt) refl
