-- ===== src/Tests/Contracts.antt =====
-- Calls of the contracts on sample storages.
use mathlib.Core.List.{List, flat_map}
use x4c.Base.{ℕ, ◌+◌, ◌*◌, ◌-◌, ◌≡◌, refl, true, arith, nat_eq, [], ◌∷◌, some}
use x4c.Base.Dict.{lookup, insert}
use x4c.Contracts.Balance.{Context, total, balance, sum_where}
use x4c.Contracts.Custodian
use x4c.Contracts.Custodian.Types.{
  Token, Owner, Others, InternalTransfer, InternalRetire, Entrypoint, Operation, owner_eq, token_eq,
  emit_retire,
}
use x4c.Contracts.Custodian.Entrypoints.{
  main, internal_transfer, retire, internal_mint, retire_call,
}
use x4c.Contracts.Custodian.Backing.{IsBacked, held}
use x4c.Contracts.Custodian.Backing.Calls.{main-IsBacked}
use x4c.Contracts.Custodian.Access.{IsAllowed, main-IsAllowed}
use x4c.Contracts.Custodian.Totals.{internal_transfer-conserves}
use x4c.Contracts.Custodian.Settling.{asked, retire-asked}
use x4c.Contracts.Custodian.Minting.{internal_mint-adds, count}

abbrev context : Context
context = record { sender = "tz1custodian"; source = "tz1custodian"; self_address = "KT1self" }

abbrev others : Others
others = record { view_balance_of = λ _ _ _. some 9; has_entrypoint = λ _ _. true }

abbrev token : Token
token = record { token_address = "KT1token"; token_id = 4 }

abbrev alice : Owner
alice = record { kyc = 1 ∷ []; token = token }

abbrev bob : Owner
bob = record { kyc = 2 ∷ []; token = token }

-- Alice holds some of the token, Bob the rest of eight.
abbrev storage : ℕ → ℕ → Custodian.Types.Storage
storage a b = record {
  custodian = "tz1custodian";
  ledger = (alice, a) ∷ (bob, b) ∷ [];
  external_ledger = (token, a + b) ∷ [];
  operators = [];
  metadata = [];
}

abbrev two_from_alice : InternalTransfer
two_from_alice = record {
  from_ = 1 ∷ [];
  token_address = "KT1token";
  txs = record { to_ = 2 ∷ []; token_id = 4; amount = 2 } ∷ [];
}

abbrev retire_two : InternalRetire
retire_two = record {
  token_address = "KT1token";
  txs = record { retiring_party_kyc = 1 ∷ []; token_id = 4; amount = 2; retiring_data = [] } ∷ [];
}

held_of_sample : (t : Token) → held t (storage 5 3).ledger ≡ balance t (storage 5 3).external_ledger
unfolding sum_where balance lookup owner_eq
held_of_sample t = ground arith

storage-IsBacked : IsBacked (storage 5 3)
unfolding lookup owner_eq
storage-IsBacked = record {
  ledger_nodup = (refl, (refl, tt));
  external_nodup = (refl, tt);
  agree = held_of_sample;
}

main-IsBacked_example : IsBacked (storage 3 5)
unfolding main nat_eq insert
main-IsBacked_example =
    main-IsBacked context others (Entrypoint.internal_transfer (two_from_alice ∷ [])) (storage 5 3)
      refl storage-IsBacked

main-IsAllowed_example :
    IsAllowed context (storage 5 3) others (Entrypoint.retire (retire_two ∷ []))
unfolding main nat_eq insert
main-IsAllowed_example =
    main-IsAllowed context (storage 5 3) others (Entrypoint.retire (retire_two ∷ [])) refl

internal_transfer-conserves_example :
    ((t : Token) → held t (storage 3 5).ledger ≡ held t (storage 5 3).ledger)
    × ((storage 3 5).external_ledger ≡ (storage 5 3).external_ledger)
unfolding internal_transfer nat_eq insert lookup
internal_transfer-conserves_example =
    internal_transfer-conserves context (two_from_alice ∷ []) (storage 5 3) refl

-- Naming a token twice records twice what is new: 8 and twice 1, where there are 9.
internal_mint-adds_example :
    balance token ((token, 10) ∷ [])
    ≡ balance token (storage 5 3).external_ledger
      + count token (token ∷ token ∷ []) * (9 - balance token (storage 5 3).external_ledger)
unfolding internal_mint nat_eq insert lookup balance token_eq flat_map
internal_mint-adds_example =
    internal_mint-adds context others (storage 5 3) token refl (token ∷ token ∷ []) (refl, tt) refl

abbrev two_retired : List Operation
two_retired =
    retire_call context others retire_two
    ∷ emit_retire (record {
      retiring_party = "tz1custodian";
      retiring_party_kyc = 1 ∷ [];
      token = token;
      amount = 2;
      retiring_data = [];
    })
    ∷ []

retire-asked_example :
    held token (storage 3 3).ledger + total (asked token) two_retired
    ≡ held token (storage 5 3).ledger
unfolding retire nat_eq insert lookup flat_map
retire-asked_example =
    retire-asked token context others (retire_two ∷ []) (storage 5 3) {ops = two_retired} refl
