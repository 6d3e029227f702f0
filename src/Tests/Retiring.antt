-- ===== src/Tests/Retiring.antt =====
-- A retirement and an external transfer of the sample of Tests/Settlement.
use mathlib.Core.Logic.{◌↔◌}
use mathlib.Core.List.{flat_map}
use x4c.Base.{◌+◌, ◌≡◌, refl, [], ◌∷◌, ok, nat_eq, string_eq, arith}
use x4c.Base.Dict.{lookup, insert}
use x4c.Contracts.Balance.{total, balance}
use x4c.Contracts.Custodian
use x4c.Contracts.Custodian.Types.{
  InternalRetireData, owner_eq, token_eq, ExternalTransfer, Operation,
}
use x4c.Contracts.Custodian.Guards.{packed_self}
use x4c.Contracts.Custodian.Entrypoints.{retire, external_transfer, transfer_call}
use x4c.Contracts.Custodian.Accepting.{IsAcceptable, retirement, left, retire-accepted}
use x4c.Contracts.Custodian.Backing.{held}
use x4c.Contracts.Fa2.Supply.{supply}
use x4c.Contracts.Settlement.{System, call_custodian, carry_out, others_now, run}
use x4c.Contracts.Settlement.Owed.{owed, external_transfer-owed}
use x4c.Contracts.Settlement.Keeping.{here}
use x4c.Contracts.Settlement.Retiring.{retirement-settles, request}
use x4c.Tests.Settlement.{
  world, context, token, settled, settled-IsSolvent, custodian_storage, token_storage,
}

abbrev two : InternalRetireData
two = record { retiring_party_kyc = packed_self; token_id = 4; amount = 2; retiring_data = [] }

two-IsAcceptable : IsAcceptable context "KT1token" two (custodian_storage 5)
unfolding lookup owner_eq balance string_eq packed_self flat_map
two-IsAcceptable = (refl, omega arith)

retire-accepted_example :
    ((s' : Custodian.Types.Storage) × (retire context
          (others_now world (token_storage 9))
          (retirement "KT1token" two ∷ [])
          (custodian_storage 5)
        ≡ ok (left context (others_now world (token_storage 9)) "KT1token" two, s')))
    ↔ IsAcceptable context "KT1token" two (custodian_storage 5)
retire-accepted_example =
    retire-accepted context (others_now world (token_storage 9)) "KT1token" two
      (custodian_storage 5) settled-IsSolvent.backed refl

retirement-settles_example :
    (s' : System) × (run world
        (call_custodian context (request world two) ∷ carry_out ∷ carry_out ∷ [])
        (settled 5 9)
      ≡ ok s')
    × (s'.pending ≡ [])
    × (held (here world 4) s'.custodian.ledger + 2
        ≡ held (here world 4) (custodian_storage 5).ledger)
    × (supply 4 s'.token + 2 ≡ supply 4 (token_storage 9))
retirement-settles_example =
    retirement-settles world context two (settled 5 9) settled-IsSolvent refl refl two-IsAcceptable

abbrev two_out : ExternalTransfer
two_out = record {
  token_address = "KT1token";
  txn_batch =
      record {
        from_ = packed_self;
        txs = record { to_ = "tz1carol"; token_id = 4; amount = 2 } ∷ [];
      }
      ∷ [];
}

external_transfer-owed_example :
    held token (custodian_storage 3).ledger
      + total (owed token) (transfer_call context (others_now world (token_storage 9)) two_out ∷ [])
    ≡ held token (custodian_storage 5).ledger
unfolding external_transfer nat_eq insert lookup packed_self flat_map
external_transfer-owed_example =
    external_transfer-owed token context (others_now world (token_storage 9)) (two_out ∷ [])
      (custodian_storage 5) refl
