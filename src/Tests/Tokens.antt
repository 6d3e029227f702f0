-- ===== src/Tests/Tokens.antt =====
-- Calls of the token contract on a sample storage.
use x4c.Base.{ℕ, ◌+◌, ◌≡◌, refl, nat_eq, [], ◌∷◌, some}
use x4c.Base.Dict.{lookup, insert}
use x4c.Contracts.Balance.{Context}
use x4c.Contracts.Custodian.Types.{owner_eq, token_eq}
use x4c.Contracts.Fa2
use x4c.Contracts.Fa2.Supply.{supply, minted, main-supply}
use x4c.Contracts.Fa2.Consent.{HasConsent, main-HasConsent}
use x4c.Contracts.Fa2.Metadata.{main-HasMetadata}
use x4c.Contracts.Fa2.Access.{NeedsOracle, main-NeedsOracle}

abbrev context : Context
context = record { sender = "tz1custodian"; source = "tz1custodian"; self_address = "KT1self" }

abbrev carol : Fa2.Types.Owner
carol = record { token_owner = "tz1carol"; token_id = 4 }

-- Carol holds some of the token.
abbrev fa2_storage : ℕ → Fa2.Types.Storage
fa2_storage a = record {
  oracle = "tz1custodian";
  ledger = (carol, a) ∷ [];
  operators = [];
  token_metadata = (4, record { token_id = 4; token_info = [] }) ∷ [];
  metadata = [];
}

abbrev mint_three : Fa2.Types.Entrypoint
mint_three = Fa2.Types.Entrypoint.mint (record { owner = "tz1carol"; token_id = 4; qty = 3 } ∷ [])

main-supply_example :
    supply 4 (fa2_storage 8) + Fa2.Supply.retired 4 mint_three
    ≡ supply 4 (fa2_storage 5) + minted 4 mint_three
unfolding Fa2.Entrypoints.main nat_eq insert lookup
main-supply_example = main-supply 4 context mint_three (fa2_storage 5) refl

main-NeedsOracle_example : NeedsOracle context (fa2_storage 5) mint_three
unfolding Fa2.Entrypoints.main nat_eq insert lookup
main-NeedsOracle_example = main-NeedsOracle context (fa2_storage 5) mint_three refl

abbrev carol_calls : Context
carol_calls = record { sender = "tz1carol"; source = "tz1carol"; self_address = "KT1self" }

abbrev send_five : Fa2.Types.Entrypoint
send_five = Fa2.Types.Entrypoint.transfer (
    record { from_ = "tz1carol"; txs = record { to_ = "tz1bob"; token_id = 4; amount = 5 } ∷ [] }
    ∷ [])

main-HasConsent_example : HasConsent carol_calls (fa2_storage 5) send_five
unfolding Fa2.Entrypoints.main nat_eq insert lookup
main-HasConsent_example = main-HasConsent carol_calls (fa2_storage 5) send_five refl

abbrev metadata : Fa2.Types.TokenMetadata
metadata = record { token_id = 4; token_info = [] }

main-HasMetadata_example : lookup 4 (fa2_storage 8).token_metadata ≡ some metadata
unfolding Fa2.Entrypoints.main nat_eq insert lookup
main-HasMetadata_example = main-HasMetadata context 4 metadata mint_three (fa2_storage 5) refl refl
