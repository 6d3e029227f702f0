-- ===== src/Tests/Names.antt =====
-- Names of a client, and its file of contracts.
use mathlib.Core.List.{Mem, eq-or-mem_of_mem-cons, not-mem-nil}
use mathlib.Core.Logic.{∥∥₁_elim}
use mathlib.Core.HLevel.{hedberg}
use x4c.Base.{
  String, ◌≡◌, refl, sym, subst, inl, inr, Bool, string_dec, List, [], ◌∷◌, some, none, ok, ◌⊎◌,
  string_eq, true,
}
use x4c.Base.Text.{strip_prefix}
use x4c.Base.Dict.{lookup, insertion_order}
use x4c.Tzclient.{
  Client, Wallet, Contract, find_name_for_address, read_contracts, contracts_file, Files,
}
use x4c.Tzclient.Naming.{NamesWallet, NamesContract, NoneAt, find_name_for_address_lem}
use x4c.Tzclient.Saving.{IsStored, address_under, contracts_file-read}
use x4c.Tests.Samples.{host}

abbrev wallet : Wallet host
wallet = record { name = "operator"; address = "tz1operator"; key = none }

abbrev contract : Contract host
contract = record { name = "custodian"; address = "KT1custodian" }

abbrev fa2 : Contract host
fa2 = record { name = "fa2"; address = "KT1token" }

abbrev client : List (String × Contract host) → Client host
client contracts = record {
  rpc_url = "https://node";
  indexer_rpc_url = "https://indexer";
  signatory_url = "";
  wallets = ("operator", wallet) ∷ [];
  contracts = contracts;
  path = "/home";
  indexer_web_url = "https://web";
}

abbrev one : List (String × Contract host)
one = ("custodian", contract) ∷ []

find_name_for_address_lem_example :
    NamesWallet
      (client one)
      "KT1custodian"
      (find_name_for_address insertion_order (client one) "KT1custodian")
    ⊎ (NoneAt (λ w. w.address) (client one).wallets "KT1custodian"
        × (NamesContract
              (client one)
              "KT1custodian"
              (find_name_for_address insertion_order (client one) "KT1custodian")
            ⊎ (NoneAt (λ k. k.address) (client one).contracts "KT1custodian"
                × (find_name_for_address insertion_order (client one) "KT1custodian"
                    ≡ "KT1custodian"))))
find_name_for_address_lem_example =
    find_name_for_address_lem insertion_order (client one) "KT1custodian"

bool_dec : Discrete Bool
bool_dec = hlevel

one_own_name : (entry : String × Contract host) → Mem entry one → entry.0 ≡ entry.1.name
one_own_name entry m = ∥∥₁_elim (eq-or-mem_of_mem-cons m) (hedberg string_dec _ _) (λ d. elim d [
  | inl e ↦ subst (λ r. r.0 ≡ r.1.name) (sym e) refl
  | inr m' ↦ absurd (not-mem-nil m')
])

one_is_contract :
    (entry : String × Contract host) → Mem entry one → host.is_contract entry.1.address ≡ true
unfolding strip_prefix
one_is_contract entry m = ∥∥₁_elim (eq-or-mem_of_mem-cons m) (hedberg bool_dec _ _) (λ d. elim d [
  | inl e ↦ subst (λ r. host.is_contract r.1.address ≡ true) (sym e) refl
  | inr m' ↦ absurd (not-mem-nil m')
])

one-IsStored : (entry : String × Contract host) → Mem entry one → IsStored entry
one-IsStored entry m = record {
  own_name = one_own_name entry m;
  address_read = refl;
  address_of_contract = one_is_contract entry m;
}

-- A file system with the one file.
abbrev read_file : Files
read_file path = ok (some (contracts_file insertion_order one))

contracts_file-read_example :
    (d : List (String × Contract host)) × (read_contracts host read_file "/home/contracts" ≡ ok d)
    × ((n : String) → address_under n d ≡ address_under n one)
unfolding lookup
contracts_file-read_example =
    contracts_file-read insertion_order one (refl, tt) one-IsStored read_file "/home/contracts" refl
