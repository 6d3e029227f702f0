-- ===== src/Ledgers/Events.antt =====
-- custodian_events.go and fa2_events.go: the events that the contracts emitted.
use x4c.Base.{
  String, List, [], ◌∷◌, ◌++◌, Outcome, ok, err, Error, wrap, map_err, try, Action, lift, or_fail,
  ◌>>=◌,
}
use x4c.Base.Fallible
use x4c.Json.{Decoder, into, embedded, decode_string, decode_number, decode_struct, unmarshal}
use x4c.Host.{Host}
use x4c.Tzkt.{Event, event_table}
use x4c.Tzclient.{TezosClient, Contract, michelson_to_string}
use x4c.Ledgers.Types.{TokenId, no_token, decode_token}

pub record CustodianRetireEvent : Type 0 where
  pub event : Event
  pub retiring_party : String
  pub retiring_party_kyc : String
  pub token : TokenId
  pub amount : String
  pub reason : String

pub record InternalMintEvent : Type 0 where
  pub event : Event
  pub token : TokenId
  pub amount : String
  pub new_total : String

pub record InternalTransferEvent : Type 0 where
  pub event : Event
  pub raw_to : String
  pub raw_from : String
  pub token : TokenId
  pub amount : String

pub record Fa2RetireEvent : Type 0 where
  pub event : Event
  pub retiring_party : String
  pub token_id : String
  pub amount : String
  pub reason : String

module _ (H : Host) where
  unfoldable pub decode_retire_event : Decoder CustodianRetireEvent
  unfolding decode_struct decode_token
  decode_retire_event = decode_struct (
      embedded (event_table H) (λ r. r.event) (λ r v. record r { event = v })
      ++ ((
        "retiring_party",
        into decode_string (λ r. r.retiring_party) (λ r v. record r { retiring_party = v }),
      )
          ∷ (
            "retiring_party_kyc",
            into decode_string (λ r. r.retiring_party_kyc)
                (λ r v. record r { retiring_party_kyc = v }),
          )
          ∷ ("token", into decode_token (λ r. r.token) (λ r v. record r { token = v }))
          ∷ ("amount", into decode_number (λ r. r.amount) (λ r v. record r { amount = v }))
          ∷ ("retiring_data", into decode_string (λ r. r.reason) (λ r v. record r { reason = v }))
          ∷ []))

  unfoldable pub decode_mint_event : Decoder InternalMintEvent
  unfolding decode_struct decode_token
  decode_mint_event = decode_struct (
      embedded (event_table H) (λ r. r.event) (λ r v. record r { event = v })
      ++ (("token", into decode_token (λ r. r.token) (λ r v. record r { token = v }))
          ∷ ("amount", into decode_number (λ r. r.amount) (λ r v. record r { amount = v }))
          ∷ ("new_total", into decode_number (λ r. r.new_total) (λ r v. record r { new_total = v }))
          ∷ []))

  -- `RawTo` is read from the source and `RawFrom` from the destination.
  unfoldable pub decode_transfer_event : Decoder InternalTransferEvent
  unfolding decode_struct decode_token
  decode_transfer_event = decode_struct (
      embedded (event_table H) (λ r. r.event) (λ r v. record r { event = v })
      ++ (("source", into decode_string (λ r. r.raw_to) (λ r v. record r { raw_to = v }))
          ∷ ("destination", into decode_string (λ r. r.raw_from) (λ r v. record r { raw_from = v }))
          ∷ ("token", into decode_token (λ r. r.token) (λ r v. record r { token = v }))
          ∷ ("amount", into decode_number (λ r. r.amount) (λ r v. record r { amount = v }))
          ∷ []))

  unfoldable pub decode_fa2_retire_event : Decoder Fa2RetireEvent
  unfolding decode_struct
  decode_fa2_retire_event = decode_struct (
      embedded (event_table H) (λ r. r.event) (λ r v. record r { event = v })
      ++ ((
        "retiring_party",
        into decode_string (λ r. r.retiring_party) (λ r v. record r { retiring_party = v }),
      )
          ∷ ("tokenId", into decode_number (λ r. r.token_id) (λ r v. record r { token_id = v }))
          ∷ ("amount", into decode_number (λ r. r.amount) (λ r v. record r { amount = v }))
          ∷ ("retiring_data", into decode_string (λ r. r.reason) (λ r v. record r { reason = v }))
          ∷ []))

  -- `To` and `From`
  unfoldable pub transfer_to : InternalTransferEvent → String
  transfer_to e = elim (michelson_to_string H e.raw_to) [ ok res ↦ res | err _ ↦ e.raw_to ]

  unfoldable pub transfer_from : InternalTransferEvent → String
  transfer_from e = elim (michelson_to_string H e.raw_from) [ ok res ↦ res | err _ ↦ e.raw_from ]

  unfoldable pub read_retire_event : Event → Outcome Error CustodianRetireEvent
  unfolding decode_retire_event michelson_to_string
  read_retire_event event =
      Fallible.◌>>=◌
        (map_err (wrap "failed to unmarshall payload") (
          unmarshal decode_retire_event event.payload (record {
            event = event;
            retiring_party = "";
            retiring_party_kyc = "";
            token = no_token;
            amount = "0";
            reason = "";
          })))
        (λ typed_event.
          Fallible.◌>>=◌
            (map_err (wrap "failed to unmarshall event retiring_party_kyc")
              (michelson_to_string H typed_event.retiring_party_kyc))
            (λ retiring_party_kyc.
              Fallible.◌>>=◌
                (map_err (wrap "failed to unmarshall event reason")
                  (michelson_to_string H typed_event.reason))
                (λ reason. ok (record typed_event {
                  retiring_party_kyc = retiring_party_kyc;
                  reason = reason;
                }))))

  unfoldable pub read_transfer_event : Event → Outcome Error InternalTransferEvent
  unfolding decode_transfer_event
  read_transfer_event event = map_err (wrap "failed to unmarshall internal transfer payload") (
      unmarshal decode_transfer_event event.payload
        (record { event = event; raw_to = ""; raw_from = ""; token = no_token; amount = "0" }))

  unfoldable pub read_mint_event : Event → Outcome Error InternalMintEvent
  unfolding decode_mint_event
  read_mint_event event = map_err (wrap "failed to unmarshall internal mint payload") (
      unmarshal decode_mint_event event.payload
        (record { event = event; token = no_token; amount = "0"; new_total = "0" }))

  unfoldable pub read_fa2_retire_event : Event → Outcome Error Fa2RetireEvent
  unfolding decode_fa2_retire_event michelson_to_string
  read_fa2_retire_event event =
      Fallible.◌>>=◌
        (map_err (wrap "failed to unmarshall payload") (
          unmarshal decode_fa2_retire_event event.payload (record {
            event = event;
            retiring_party = "";
            token_id = "0";
            amount = "0";
            reason = "";
          })))
        (λ typed_event.
          Fallible.◌>>=◌
            (map_err (wrap "failed to unmarshall event reason")
              (michelson_to_string H typed_event.reason))
            (λ reason. ok (record typed_event { reason = reason })))

-- The loops that read each event in turn.
unfoldable pub read_events :
    {A : Type 0} → (Event → Outcome Error A) → List Event → Outcome Error (List A)
read_events read [] = ok []
read_events read (event ∷ raw) =
    let rest = read_events read raw in
    try (read event) (λ typed_event. try rest (λ result. ok (typed_event ∷ result)))

module _ {H : Host} {S : Type 0} (client : TezosClient H S) (contract : Contract H) where
  unfoldable pub get_custodian_retire_events : Action S Error (List CustodianRetireEvent)
  unfolding read_events read_retire_event
  get_custodian_retire_events = do
    raw ←
        or_fail (client.get_contract_events (H.address_string contract.address) "retire")
          (wrap "failed to find retire events")
    lift (read_events (read_retire_event H) raw)

  unfoldable pub get_internal_transfer_events : Action S Error (List InternalTransferEvent)
  unfolding read_events read_transfer_event
  get_internal_transfer_events = do
    raw ←
        or_fail (client.get_contract_events (H.address_string contract.address) "internal_transfer")
          (wrap "failed to find internal_transfer events")
    lift (read_events (read_transfer_event H) raw)

  unfoldable pub get_internal_mint_events : Action S Error (List InternalMintEvent)
  unfolding read_events read_mint_event
  get_internal_mint_events = do
    raw ←
        or_fail (client.get_contract_events (H.address_string contract.address) "internal_mint")
          (wrap "failed to find internal_mint events")
    lift (read_events (read_mint_event H) raw)

  unfoldable pub get_fa2_retire_events : Action S Error (List Fa2RetireEvent)
  unfolding read_events read_fa2_retire_event
  get_fa2_retire_events = do
    raw ←
        or_fail (client.get_contract_events (H.address_string contract.address) "retire")
          (wrap "failed to find retire events")
    lift (read_events (read_fa2_retire_event H) raw)
