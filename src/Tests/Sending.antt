-- ===== src/Tests/Sending.antt =====
-- The values that are sent to the contracts.
use x4c.Base.{◌≡◌, true, List, [], ◌∷◌, none, ok, nat_eq}
use x4c.Base.Int.{pos}
use x4c.Base.Text.{to_bytes}
use x4c.Tzclient.{Contract}
use x4c.Contracts.Custodian
use x4c.Contracts.Custodian.Types.{Token, token_eq}
use x4c.Contracts.Fa2
use x4c.Ledgers.{
  ledger_key_eq, token_id_eq, retire_parameters, internal_transfer_parameters,
  internal_mint_parameters, mint_parameters, add_token_parameters,
}
use x4c.Ledgers.Encoding.{custodian_parameters-read, fa2_parameters-read}
use x4c.Ledgers.Granting.{Grant, as_update, update_operators_parameters-read}
use x4c.Ledgers.{operator_updates, update_operators_parameters}
use x4c.Ledgers.{custodian_storage, fa2_storage}
use x4c.Ledgers.Originating.{originated-IsSolvent}
use x4c.Contracts.Settlement.{World}
use x4c.Contracts.Settlement.Recording.{IsSolvent}
use x4c.Tests.Samples.{host, michelson}

abbrev fa2 : Contract host
fa2 = record { name = "fa2"; address = "KT1token" }

abbrev retirement : Custodian.Types.InternalRetire
retirement = record {
  token_address = "KT1token";
  txs =
      record {
        retiring_party_kyc = to_bytes "alice";
        token_id = 4;
        amount = 5;
        retiring_data = to_bytes "done";
      }
      ∷ [];
}

custodian_parameters-read_example :
    (Custodian.Parameters.read_entrypoint michelson
        (retire_parameters host fa2 (pos 4) "alice" (pos 5) "done")
      ≡ ok (Custodian.Types.Entrypoint.retire (retirement ∷ [])))
    × (Custodian.Parameters.read_entrypoint michelson
          (internal_transfer_parameters host fa2 (pos 4) (pos 5) "alice" "bob")
        ≡ ok (
            Custodian.Types.Entrypoint.internal_transfer (
              record {
                from_ = to_bytes "alice";
                token_address = "KT1token";
                txs = record { to_ = to_bytes "bob"; token_id = 4; amount = 5 } ∷ [];
              }
              ∷ [])))
    × (Custodian.Parameters.read_entrypoint michelson (internal_mint_parameters host fa2 (pos 4))
        ≡ ok (
            Custodian.Types.Entrypoint.internal_mint
              (record { token_address = "KT1token"; token_id = 4 } ∷ [])))
custodian_parameters-read_example =
    custodian_parameters-read host michelson fa2 4 5 "alice" "bob" "done"

fa2_parameters-read_example :
    (Fa2.Parameters.read_entrypoint michelson (mint_parameters host (pos 4) "tz1alice" (pos 5))
      ≡ ok (Fa2.Types.Entrypoint.mint (record { owner = "tz1alice"; token_id = 4; qty = 5 } ∷ [])))
    × (Fa2.Parameters.read_entrypoint michelson (add_token_parameters host (pos 4) "forest" "ipfs")
        ≡ ok (
            Fa2.Types.Entrypoint.add_token_id (
              record {
                token_id = 4;
                token_info = ("title", to_bytes "forest") ∷ ("url", to_bytes "ipfs") ∷ [];
              }
              ∷ [])))
fa2_parameters-read_example = fa2_parameters-read host michelson 4 "tz1alice" 5 "forest" "ipfs"

abbrev others : Custodian.Types.Others
others = record { view_balance_of = λ _ _ _. none; has_entrypoint = λ _ _. true }

abbrev grant : Grant host michelson
grant = record { adds = true; owner = "alice"; operator = "tz1bob"; token_id = 4 }

update_operators_parameters-read_example :
    (ps : List host.Prim) × (operator_updates host (as_update host michelson grant ∷ []) ≡ ok ps)
    × (Custodian.Parameters.read_entrypoint michelson (update_operators_parameters host ps)
        ≡ ok (
            Custodian.Types.Entrypoint.update_internal_operators (
              Custodian.Types.add_operator
                (record { token_owner = to_bytes "alice"; token_operator = "tz1bob"; token_id = 4 })
              ∷ [])))
update_operators_parameters-read_example =
    update_operators_parameters-read host michelson (grant ∷ [])

abbrev world : World
world = record { custodian_address = "KT1self"; token_address = "KT1token"; elsewhere = others }

originated-IsSolvent_example :
    (c : Custodian.Types.Storage) × (t : Fa2.Types.Storage) × (Custodian.Stored.read_storage
        michelson
        (custodian_storage host "tz1custodian")
      ≡ ok c)
    × (Fa2.Stored.read_storage michelson (fa2_storage host "tz1oracle") ≡ ok t)
    × (c.custodian ≡ "tz1custodian")
    × (t.oracle ≡ "tz1oracle")
    × IsSolvent world (record { custodian = c; token = t; pending = [] })
originated-IsSolvent_example = originated-IsSolvent host michelson world "tz1custodian" "tz1oracle"
