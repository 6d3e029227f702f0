-- ===== src/Ledgers/Emitted.antt =====
-- What custodian_events.go and fa2_events.go make of the events that the contracts emit.
use x4c.Base.{String, ◌≡◌, true, some, ok, ℕ_discrete}
use x4c.Json.{Json, obj, str, field, end}
use x4c.Json.Number.{is_valid_number}
use x4c.Host.{Host}
use x4c.Tzkt.{Event}
use x4c.Tzclient.{michelson_to_string}
use x4c.Ledgers.Events.{read_transfer_event, read_fa2_retire_event, read_retire_event}

-- A token, as the indexer prints it.
abbrev token_json : String → String → Json
token_json token_id token_address =
    obj (field "token_id" (str token_id) (field "token_address" (str token_address) end))

-- The payload of the custodian's internal_transfer event.
abbrev pub transfer_payload : String → String → String → String → String → Json
transfer_payload source destination token_address token_id amount = obj (
    field "source" (str source) (
      field "destination" (str destination)
        (field "token" (token_json token_id token_address) (field "amount" (str amount) end))))

-- The payload of the custodian's retire event.
abbrev pub retire_payload : String → String → String → String → String → String → Json
retire_payload party kyc token_address token_id amount reason = obj (
    field "retiring_party" (str party) (
      field "retiring_party_kyc" (str kyc) (
        field "token" (token_json token_id token_address)
          (field "amount" (str amount) (field "retiring_data" (str reason) end)))))

-- The payload of the FA2 contract's retire event.
abbrev pub fa2_retire_payload : String → String → String → String → Json
fa2_retire_payload party token_id amount reason = obj (
    field "retiring_party" (str party) (
      field "token_id" (str token_id)
        (field "amount" (str amount) (field "retiring_data" (str reason) end))))

module _ (H : Host) (event : Event) (token_address token_id amount : String)
    (amount_valid : is_valid_number amount ≡ true) where
  -- A transfer's event is read with the source as `RawTo` and the destination as `RawFrom`.
  pub read_transfer_event-swaps :
      (source destination : String)
      → is_valid_number token_id ≡ true
      → event.payload ≡ some (transfer_payload source destination token_address token_id amount)
      → read_transfer_event H event
        ≡ ok (record {
          event = event;
          raw_to = source;
          raw_from = destination;
          token = record { token_id = token_id; address = token_address };
          amount = amount;
        })
  unfolding read_transfer_event
  read_transfer_event-swaps source destination id_valid p = simp (p, id_valid, amount_valid)

  -- A retirement's event is read with its token and amount, and with the texts that the KYC and the
  -- reason unpack to.
  pub read_retire_event-reads :
      (party raw_kyc raw_reason : String) {kyc reason : String}
      → is_valid_number token_id ≡ true
      → event.payload ≡ some (retire_payload party raw_kyc token_address token_id amount raw_reason)
      → michelson_to_string H raw_kyc ≡ ok kyc
      → michelson_to_string H raw_reason ≡ ok reason
      → read_retire_event H event
        ≡ ok (record {
          event = event;
          retiring_party = party;
          retiring_party_kyc = kyc;
          token = record { token_id = token_id; address = token_address };
          amount = amount;
          reason = reason;
        })
  unfolding read_retire_event
  read_retire_event-reads party raw_kyc raw_reason id_valid p k r =
      simp (p, id_valid, amount_valid, k, r)

  -- The FA2 contract's event is read with 0 for the token, whatever the token is.
  pub read_fa2_retire_event-token :
      (party raw_reason : String) {reason : String}
      → event.payload ≡ some (fa2_retire_payload party token_id amount raw_reason)
      → michelson_to_string H raw_reason ≡ ok reason
      → read_fa2_retire_event H event
        ≡ ok (record {
          event = event;
          retiring_party = party;
          token_id = "0";
          amount = amount;
          reason = reason;
        })
  unfolding read_fa2_retire_event ℕ_discrete
  read_fa2_retire_event-token party raw_reason p r = simp (p, amount_valid, r)
