-- ===== src/Server/Retirement.antt =====
-- retire.go.
use x4c.Base.{
  String, ◌<>◌, Bool, [], ◌∷◌, Outcome, err, errorf, Error, Action, pure, lift, or_fail, fail_if,
  ◌>>=◌, ◌>>◌, map_err, ◌==◌, string_eq, ltb, if◌then◌else◌,
}
use x4c.Base.Int.{ℤ, pos, leb_ℤ}
use x4c.Base.Text.{parse_int}
use x4c.Json.{Decoder, into, decode_string, decode_number, decode_struct_strictly, unmarshal}
use x4c.Host.{Host}
use x4c.Tzclient.{new_contract_with_address}
use x4c.Ledgers.{custodian_retire}
use x4c.Server.Types.{
  HttpError, bad_request, internal_server_error, as_http, Response, respond, Body, Server,
  CreditRetireRequest, CreditRetireData,
}
use x4c.Server.Handlers.{find_contract}

unfoldable pub decode_retire_request : Decoder CreditRetireRequest
unfolding decode_struct_strictly
decode_retire_request = decode_struct_strictly (
    ("minter", into decode_string (λ r. r.minter) (λ r v. record r { minter = v }))
    ∷ ("kyc", into decode_string (λ r. r.kyc) (λ r v. record r { kyc = v }))
    ∷ ("tokenID", into decode_number (λ r. r.token_id) (λ r v. record r { token_id = v }))
    ∷ ("amount", into decode_number (λ r. r.amount) (λ r v. record r { amount = v }))
    ∷ ("reason", into decode_string (λ r. r.reason) (λ r v. record r { reason = v }))
    ∷ [])

abbrev no_request : CreditRetireRequest
no_request = record { minter = ""; kyc = ""; token_id = ""; amount = ""; reason = "" }

-- Past this many bytes http.MaxBytesReader fails.
abbrev max_bytes : ℤ
max_bytes = pos 1048576

unfoldable pub read_request : Body → Outcome Error CreditRetireRequest
unfolding decode_retire_request
read_request body =
    if ltb 1048576 body.extent
    then err (errorf "http: request body too large")
    else unmarshal decode_retire_request body.content no_request

module _ {H : Host} {S : Type 0} (server : Server H S) where
  open server use {tezos_client, custodian_operator}

  unfoldable pub retire_credits : String → Body → Action S HttpError CreditRetireData
  unfolding string_eq read_request custodian_retire new_contract_with_address parse_int
  retire_credits contract_address body = do
    fail_if (contract_address == "") (bad_request "No contract address specified")
    contract ←
        lift (find_contract server "contract" contract_address "Failed parse contract address")
    request ← lift (map_err (as_http (bad_request "Failed to decode request")) (read_request body))
    minter ← lift (find_contract server "minter" request.minter "Failed to resolve minter")
    token_id ←
        lift (
          map_err (as_http (bad_request "Failed to resolve token ID")) (parse_int request.token_id))
    amount ←
        lift (map_err (as_http (bad_request "Failed to resolve amount")) (parse_int request.amount))
    fail_if (leb_ℤ amount (pos 0)) (bad_request "Amount to retire is not valid")
    op_hash ←
        or_fail
          (custodian_retire H tezos_client contract custodian_operator minter token_id request.kyc
            amount request.reason)
          (as_http (internal_server_error "Failed call contract"))
    pure (record {
      message = "Successfully retired credits";
      operation_hash = op_hash;
      operation_lookup_url = tezos_client.get_indexer_web_url <> ("/" <> op_hash);
    })

  unfoldable pub retire : Bool → String → Body → S → Response CreditRetireData × S
  unfolding retire_credits
  retire writable contract_address body = respond writable (retire_credits contract_address body)
