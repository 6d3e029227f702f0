-- ===== src/Cli/Tables.antt =====
-- The tables of custodian_info.go and fa2_info.go. A table is its rows; the layout of tabby and the
-- printing of times and numbers in a table are not modelled, so a cell is a text or a number.
use x4c.Base.{String, List, [], ◌∷◌, ◌++◌, map, flat_map, Outcome, ok, err, Error, string_eq}
use x4c.Base.Int.{ℤ}
use x4c.Base.Dict.{MapOrder}
use x4c.Host.{Host}
use x4c.Tzkt.{Event}
use x4c.Tzclient.{Client, find_name_for_address}
use x4c.Ledgers.{
  LedgerKey, TokenId, Fa2Owner, Fa2TokenMetadata, decode_key_kyc, decode_operator_kyc, transfer_to,
  transfer_from,
}
use x4c.Cli.Info.{CustodianSnapshot, Fa2Snapshot}

pub data Cell : Type 0 where
  text : String → Cell
  number : ℤ → Cell

abbrev pub Rows : Type 0
Rows = List (List Cell)

abbrev or_raw : Outcome Error String → String → String
or_raw (ok kyc) raw = kyc
or_raw (err _) raw = raw

-- The tables that the commands print without `-json`.
module _ {H : Host} (O : MapOrder) (client : Client H) where
  name_of : String → Cell
  unfolding find_name_for_address
  name_of address = text (find_name_for_address O client address)

  abbrev event_cells : Event → TokenId → List Cell
  event_cells event token =
      number event.identifier ∷ text event.timestamp ∷ text token.address ∷ text token.token_id ∷ []

  unfoldable pub custodian_tables : CustodianSnapshot → List Rows
  unfolding name_of decode_key_kyc decode_operator_kyc transfer_to transfer_from
  custodian_tables info =
      ((name_of info.storage.custodian ∷ []) ∷ [])
      ∷ map
          (λ (key, value).
            text (or_raw (decode_key_kyc H key) key.raw_kyc)
            ∷ name_of key.token.address
            ∷ text key.token.token_id
            ∷ number value
            ∷ [])
          (O.order LedgerKey ℤ info.ledger_contents)
      ∷ map
          (λ operator.
            name_of operator.operator
            ∷ text (or_raw (decode_operator_kyc H operator) operator.raw_kyc)
            ∷ text operator.token_id
            ∷ [])
          info.storage.operators
      ∷ map (λ (key, value). name_of key.address ∷ text key.token_id ∷ number value ∷ [])
          (O.order TokenId ℤ info.external_ledger_contents)
      ∷ map (λ (key, value). text key ∷ text value ∷ [])
          (O.order String String info.metadata_contents)
      ∷ map (λ e. event_cells e.event e.token ++ (text e.amount ∷ text e.new_total ∷ []))
          info.internal_mint_events
      ∷ map
          (λ e.
            event_cells e.event e.token
            ++ (text (transfer_from H e) ∷ text (transfer_to H e) ∷ text e.amount ∷ []))
          info.internal_transfer_events
      ∷ map
          (λ e.
            event_cells e.event e.token
            ++ (text e.retiring_party
                ∷ text e.retiring_party_kyc
                ∷ text e.amount
                ∷ text e.reason
                ∷ []))
          info.retire_events
      ∷ []

  unfoldable pub fa2_tables : Fa2Snapshot → List Rows
  unfolding name_of
  fa2_tables info =
      ((name_of info.storage.oracle ∷ []) ∷ [])
      ∷ map
          (λ (key, value). text key.token_identifier ∷ name_of key.token_owner ∷ number value ∷ [])
          (O.order Fa2Owner ℤ info.ledger_contents)
      ∷ map (λ (key, value). text key ∷ text value ∷ [])
          (O.order String String info.metadata_contents)
      ∷ flat_map
          (λ (token_id, token_info).
            map (λ (key, value). number token_id ∷ text key ∷ text value ∷ [])
              (O.order String String token_info.token_information))
          (O.order ℤ Fa2TokenMetadata info.token_metadata_contents)
      ∷ map
          (λ e.
            number e.event.identifier
            ∷ text e.event.timestamp
            ∷ text e.token_id
            ∷ text e.retiring_party
            ∷ text e.amount
            ∷ text e.reason
            ∷ [])
          info.retire_events
      ∷ []
