-- ===== src/Cli/Snapshots.antt =====
-- What is read back in the JSON of a snapshot of a custodian contract: custodian_info.go.
use x4c.Base.{
  String, ◌≡◌, inl, inr, List, [], ◌∷◌, ok, ℕ_discrete, Outcome, Error, Outcome-cases, All,
  weaken_each, each_of, arith, string_eq, sym, ◌∙◌, ok-injective,
}
use x4c.Base.Int.{ℤ, pos}
use x4c.Base.Text.{show_int}
use x4c.Base.Dict.{MapOrder}
use x4c.Json.{
  Json, str, num, obj, field, end, Decoder, into, decode_string, decode_int64, decode_struct,
  decode_slice,
}
use x4c.Json.RoundTrips.{Fits, string-RoundTrips, int64-RoundTrips}
use x4c.Json.Encode.{encode_string, encode_int64, encode_slice, encode_fields}
use x4c.Ledgers.{TokenId, LedgerKey, decode_token, decode_ledger_key, no_token}
use x4c.Ledgers.Output.{
  encode_operator, encode_mint_event, encode_transfer_event, encode_retire_event, encode_token,
  encode_ledger_key, custodian_storage_fields,
}
use x4c.Cli.Items.{HasNumber, decode_entry, token-RoundTrips, key-RoundTrips, list-RoundTrips}
use x4c.Cli.Info.{CustodianSnapshot}
use x4c.Cli.Output.{safe_list, custodian_json}

-- What is read of a snapshot.
pub record Entries : Type 0 where
  pub ledger : List (LedgerKey × ℤ)
  pub external_ledger : List (TokenId × ℤ)
  pub metadata : List (String × String)

abbrev no_key : LedgerKey
no_key = record { token = no_token; raw_kyc = "" }

abbrev no_entries : Entries
no_entries = record { ledger = []; external_ledger = []; metadata = [] }

unfoldable pub decode_entries :
    Decoder (List (LedgerKey × ℤ))
    → Decoder (List (TokenId × ℤ))
    → Decoder (List (String × String))
    → Decoder Entries
unfolding decode_struct
decode_entries ledger external_ledger metadata = decode_struct (
    ("ledger_bigmap", into ledger (λ r. r.ledger) (λ r v. record r { ledger = v }))
    ∷ (
      "external_ledger_bigmap",
      into external_ledger (λ r. r.external_ledger) (λ r v. record r { external_ledger = v }),
    )
    ∷ ("metadata_bigmap", into metadata (λ r. r.metadata) (λ r v. record r { metadata = v }))
    ∷ [])

abbrev decode_shown_ledger : Decoder (List (LedgerKey × ℤ))
decode_shown_ledger = decode_slice (decode_entry decode_ledger_key decode_int64) (no_key, pos 0)

abbrev decode_shown_external : Decoder (List (TokenId × ℤ))
decode_shown_external = decode_slice (decode_entry decode_token decode_int64) (no_token, pos 0)

abbrev decode_shown_metadata : Decoder (List (String × String))
decode_shown_metadata = decode_slice (decode_entry decode_string decode_string) ("", "")

abbrev pub read_snapshot : Json → Outcome Error Entries
read_snapshot j =
    decode_entries decode_shown_ledger decode_shown_external decode_shown_metadata j no_entries

module _ (O : MapOrder) (info : CustodianSnapshot) where
  abbrev shown_ledger : List (LedgerKey × ℤ)
  shown_ledger = O.order LedgerKey ℤ info.ledger_contents

  abbrev shown_external : List (TokenId × ℤ)
  shown_external = O.order TokenId ℤ info.external_ledger_contents

  abbrev shown_metadata : List (String × String)
  shown_metadata = O.order String String info.metadata_contents

  abbrev shown : Entries
  shown = record {
    ledger = shown_ledger;
    external_ledger = shown_external;
    metadata = shown_metadata;
  }

  -- The JSON of the snapshot, from that of its parts that are not read here.
  abbrev snapshot_json :
      (operators ledger external metadata mints transfers retirements : Json) → Json
  snapshot_json operators ledger external metadata mints transfers retirements = obj (
      field "custodian" (str info.storage.custodian) (
        field "ledger" (num (show_int info.storage.ledger)) (
          field "metadata" (num (show_int info.storage.metadata)) (
            field "operators" operators (
              field "external_ledger" (num (show_int info.storage.external_ledger)) (
                field "ledger_bigmap" ledger (
                  field "external_ledger_bigmap" external (
                    field "metadata_bigmap" metadata (
                      field "internal_mint_events" mints (
                        field "internal_transfer_events" transfers
                          (field "retire_events" retirements end)))))))))))

  decode_entries-snapshot_json :
      (l : Decoder (List (LedgerKey × ℤ))) (x : Decoder (List (TokenId × ℤ)))
      (m : Decoder (List (String × String)))
      (operators mints transfers retirements ledger external metadata : Json)
      → l ledger [] ≡ ok shown_ledger
      → x external [] ≡ ok shown_external
      → m metadata [] ≡ ok shown_metadata
      → decode_entries l x m
          (snapshot_json operators ledger external metadata mints transfers retirements)
          no_entries
        ≡ ok shown
  unfolding decode_entries ℕ_discrete
  decode_entries-snapshot_json l x m operators mints transfers retirements ledger external metadata
        ledger_read external_read metadata_read =
      simp (ledger_read, external_read, metadata_read)

  custodian_json-shape :
      {j : Json} (ledger external metadata : Json)
      → safe_list encode_ledger_key encode_int64 shown_ledger ≡ ok ledger
      → safe_list encode_token encode_int64 shown_external ≡ ok external
      → safe_list encode_string encode_string shown_metadata ≡ ok metadata
      → custodian_json O info ≡ ok j
      → (operators : Json) × (mints : Json) × (transfers : Json) × (retirements : Json) × (j
          ≡ snapshot_json operators ledger external metadata mints transfers retirements)
  unfolding custodian_json encode_fields custodian_storage_fields encode_int64
  custodian_json-shape ledger external metadata l x m h =
      elim (Outcome-cases (encode_slice encode_operator info.storage.operators)) [
        | inr (e, q0) ↦ ground (arith, h, q0)
        | inl (operators, q0) ↦
            elim (Outcome-cases (encode_slice encode_mint_event info.internal_mint_events)) [
              | inr (e, q1) ↦ ground (arith, h, q0, q1, l, x, m)
              | inl (mints, q1) ↦
                  elim (Outcome-cases
                    (encode_slice encode_transfer_event info.internal_transfer_events)) [
                      | inr (e, q2) ↦ ground (arith, h, q0, q1, q2, l, x, m)
                      | inl (transfers, q2) ↦
                          elim (Outcome-cases
                            (encode_slice encode_retire_event info.retire_events)) [
                              | inr (e, q3) ↦ ground (arith, h, q0, q1, q2, q3, l, x, m)
                              | inl (retirements, q3) ↦ (
                                operators,
                                mints,
                                transfers,
                                retirements,
                                ok-injective (sym h ∙ simp (q0, q1, q2, q3, l, x, m)),
                              )
                            ]
                    ]
            ]
      ]

  -- Where displayCustodianAsJson succeeds and each entry of the ledgers has a number for its token and
  -- an int64, both ledgers and the metadata are read back in its JSON, entry by entry, in the order in
  -- which the maps were ranged over.
  pub custodian_json-read :
      {j : Json}
      → All (λ e. HasNumber e.0.token × Fits e.1) shown_ledger
      → All (λ e. HasNumber e.0 × Fits e.1) shown_external
      → custodian_json O info ≡ ok j
      → read_snapshot j ≡ ok shown
  custodian_json-read ledger external h =
      let (ledger_json, wrote_ledger, read_ledger) =
        list-RoundTrips encode_ledger_key encode_int64 decode_ledger_key decode_int64
          (no_key, pos 0) shown_ledger
          (weaken_each (λ e fits. (key-RoundTrips e.0 fits.0, int64-RoundTrips e.1 fits.1))
            shown_ledger ledger) in
      let (external_json, wrote_external, read_external) =
        list-RoundTrips encode_token encode_int64 decode_token decode_int64 (no_token, pos 0)
          shown_external
          (weaken_each (λ e fits. (token-RoundTrips e.0 fits.0, int64-RoundTrips e.1 fits.1))
            shown_external external) in
      let (metadata_json, wrote_metadata, read_metadata) =
        list-RoundTrips encode_string encode_string decode_string decode_string ("", "")
          shown_metadata
          (each_of (λ e. (string-RoundTrips e.0, string-RoundTrips e.1)) shown_metadata) in
      let (_, _, _, _, shape) =
        custodian_json-shape ledger_json external_json metadata_json wrote_ledger wrote_external
          wrote_metadata h in
      rw shape (
        decode_entries-snapshot_json _ _ _ _ _ _ _ ledger_json external_json metadata_json
          (read_ledger []) (read_external []) (read_metadata []))
