-- ===== src/Contracts/Custodian/Stored.antt =====
-- How the custodian contract reads the storage that it is originated with: the fields of the type
-- storage of custodian.mligo in the order of their names, as a tree of pairs.
use x4c.Base.{ℕ, String, List}
use x4c.Host.{Host}
use x4c.Contracts.Michelson.{Michelson, Reads, read_pair, read_seq, read_as, read_big_map}
use x4c.Contracts.Custodian.Types.{Token, Owner, Operator, Storage}
use x4c.Contracts.Custodian.Parameters.{read_token, read_operator}

module _ {H : Host} (M : Michelson H) where
  open M use {as_string, as_bytes, as_nat}

  abbrev pub read_owner : Reads H Owner
  read_owner p =
      read_as (λ (kyc, token). record { kyc = kyc; token = token })
        (read_pair M as_bytes (read_token M) p)

  abbrev pub read_external_ledger : Reads H (List (Token × ℕ))
  read_external_ledger = read_big_map M (read_token M) as_nat

  abbrev pub read_ledger : Reads H (List (Owner × ℕ))
  read_ledger = read_big_map M read_owner as_nat

  abbrev pub read_metadata : Reads H (List (String × List ℕ))
  read_metadata = read_big_map M as_string as_bytes

  abbrev pub read_operators : Reads H (List Operator)
  read_operators = read_seq M (read_operator M)

  abbrev pub read_fields :
      Reads H (
        ((String × List (Token × ℕ)) × (List (Owner × ℕ) × List (String × List ℕ))) × List Operator)
  read_fields =
      read_pair M
        (read_pair M (read_pair M as_string read_external_ledger)
          (read_pair M read_ledger read_metadata))
        read_operators

  abbrev pub as_storage :
      ((String × List (Token × ℕ)) × (List (Owner × ℕ) × List (String × List ℕ))) × List Operator
      → Storage
  as_storage (((custodian, external_ledger), (ledger, metadata)), operators) = record {
    custodian = custodian;
    ledger = ledger;
    external_ledger = external_ledger;
    operators = operators;
    metadata = metadata;
  }

  unfoldable pub read_storage : Reads H Storage
  unfolding read_seq
  read_storage p = read_as as_storage (read_fields p)
