-- ===== src/Tests/Settlement.antt =====
-- Both contracts together on a sample: tokens that arrive, are recorded and then retired.
use mathlib.Core.List.{flat_map}
use x4c.Base.{ℕ, ◌≡◌, refl, true, List, [], ◌∷◌, none, ok, arith, nat_eq, string_eq}
use x4c.Base.Dict.{lookup, insert}
use x4c.Contracts.Balance.{Context, balance, sum_where}
use x4c.Contracts.Custodian
use x4c.Contracts.Custodian.Types.{
  Token, Entrypoint, owner_eq, token_eq, InternalRetire, call_retire,
}
use x4c.Contracts.Custodian.Guards.{packed_self}
use x4c.Contracts.Fa2
use x4c.Contracts.Settlement.{World, System, Event, call_custodian, carry_out, run}
use x4c.Contracts.Settlement.Recording.{IsSolvent, AreOrderly}
use x4c.Contracts.Settlement.Solvency.{run-IsSolvent}
use x4c.Contracts.Settlement.Draining.{pending-carried_out}

abbrev pub world : World
world = record {
  custodian_address = "KT1self";
  token_address = "KT1token";
  elsewhere = record { view_balance_of = λ _ _ _. none; has_entrypoint = λ _ _. true };
}

abbrev pub context : Context
context = record { sender = "tz1custodian"; source = "tz1custodian"; self_address = "KT1self" }

abbrev pub token : Token
token = record { token_address = "KT1token"; token_id = 4 }

-- The contract has some of the token, and has recorded some.
abbrev pub custodian_storage : ℕ → Custodian.Types.Storage
custodian_storage n = record {
  custodian = "tz1custodian";
  ledger = (record { kyc = packed_self; token = token }, n) ∷ [];
  external_ledger = (token, n) ∷ [];
  operators = [];
  metadata = [];
}

abbrev pub token_storage : ℕ → Fa2.Types.Storage
token_storage n = record {
  oracle = "tz1oracle";
  ledger = (record { token_owner = "KT1self"; token_id = 4 }, n) ∷ [];
  operators = [];
  token_metadata = [];
  metadata = [];
}

abbrev retire_two : InternalRetire
retire_two = record {
  token_address = "KT1token";
  txs =
      record { retiring_party_kyc = packed_self; token_id = 4; amount = 2; retiring_data = [] }
      ∷ [];
}

abbrev pub settled : ℕ → ℕ → System
settled recorded has = record {
  custodian = custodian_storage recorded;
  token = token_storage has;
  pending = [];
}

abbrev events : List Event
events =
    call_custodian context (Entrypoint.internal_mint (token ∷ []))
    ∷ call_custodian context (Entrypoint.retire (retire_two ∷ []))
    ∷ carry_out
    ∷ carry_out
    ∷ carry_out
    ∷ []

run_of_sample : run world events (settled 5 9) ≡ ok (settled 7 7)
unfolding run nat_eq insert lookup Fa2.Entrypoints.view_balance_of flat_map
run_of_sample = refl

pub settled-IsSolvent : IsSolvent world (settled 5 9)
unfolding lookup owner_eq balance sum_where Fa2.Entrypoints.is_operator
settled-IsSolvent = record {
  backed = record {
    ledger_nodup = (refl, tt);
    external_nodup = (refl, tt);
    agree = λ t. ground arith;
  };
  safe = record { nodup = (refl, tt); no_operator = λ operator id. refl };
  own = tt;
  covered = λ id. ground arith;
}

events-AreOrderly : AreOrderly world events (settled 5 9)
events-AreOrderly = (
  (λ id. refl, λ t. ground arith),
  λ s1 _. (tt, λ s2 _. (tt, λ s3 _. (tt, λ s4 _. (tt, λ s5 _. tt)))),
)

run-IsSolvent_example : IsSolvent world (settled 7 7)
run-IsSolvent_example =
    run-IsSolvent world events (settled 5 9) run_of_sample events-AreOrderly settled-IsSolvent

-- A retirement that is still to be carried out.
abbrev retiring : System
retiring = record {
  custodian = custodian_storage 3;
  token = token_storage 7;
  pending =
      call_retire "KT1token"
        (record { retiring_party = "KT1self"; token_id = 4; amount = 2; retiring_data = [] } ∷ [])
      ∷ [];
}

retiring-IsSolvent : IsSolvent world retiring
unfolding lookup owner_eq balance sum_where Fa2.Entrypoints.is_operator nat_eq
retiring-IsSolvent = record {
  backed = record {
    ledger_nodup = (refl, tt);
    external_nodup = (refl, tt);
    agree = λ t. ground arith;
  };
  safe = record { nodup = (refl, tt); no_operator = λ operator id. refl };
  own = ((refl, tt), tt);
  covered = λ id. ground arith;
}

pending-carried_out_example :
    (s' : System) × (run world (carry_out ∷ []) retiring ≡ ok s')
    × (s'.pending ≡ [])
    × (s'.custodian ≡ custodian_storage 3)
pending-carried_out_example = pending-carried_out world retiring retiring-IsSolvent
