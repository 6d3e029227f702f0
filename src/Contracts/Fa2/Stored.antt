-- ===== src/Contracts/Fa2/Stored.antt =====
-- How the FA2 contract reads the storage that it is originated with: the fields of the type storage
-- of fa2.mligo in the order of their names, as a tree of pairs.
use x4c.Base.{ℕ, String, List}
use x4c.Host.{Host}
use x4c.Contracts.Michelson.{Michelson, Reads, read_pair, read_seq, read_as, read_big_map}
use x4c.Contracts.Fa2.Types.{Owner, Operator, TokenMetadata, Storage}
use x4c.Contracts.Fa2.Parameters.{read_token_metadata}

module _ {H : Host} (M : Michelson H) where
  open M use {as_string, as_bytes, as_nat}

  abbrev pub read_owner : Reads H Owner
  read_owner p =
      read_as (λ (owner, id). record { token_owner = owner; token_id = id })
        (read_pair M as_string as_nat p)

  abbrev pub read_operator : Reads H Operator
  read_operator p =
      read_as
        (λ (owner, (operator, id)). record {
          token_owner = owner;
          token_operator = operator;
          token_id = id;
        })
        (read_pair M as_string (read_pair M as_string as_nat) p)

  abbrev pub read_ledger : Reads H (List (Owner × ℕ))
  read_ledger = read_big_map M read_owner as_nat

  abbrev pub read_metadata : Reads H (List (String × List ℕ))
  read_metadata = read_big_map M as_string as_bytes

  abbrev pub read_operators : Reads H (List Operator)
  read_operators = read_seq M read_operator

  abbrev pub read_token_metadata_map : Reads H (List (ℕ × TokenMetadata))
  read_token_metadata_map = read_big_map M as_nat (read_token_metadata M)

  abbrev pub read_fields : Reads H (
      ((List (Owner × ℕ) × List (String × List ℕ)) × (List Operator × String))
      × List (ℕ × TokenMetadata))
  read_fields =
      read_pair M
        (read_pair M (read_pair M read_ledger read_metadata) (read_pair M read_operators as_string))
        read_token_metadata_map

  abbrev pub as_storage :
      ((List (Owner × ℕ) × List (String × List ℕ)) × (List Operator × String))
        × List (ℕ × TokenMetadata)
      → Storage
  as_storage (((ledger, metadata), (operators, oracle)), token_metadata) = record {
    oracle = oracle;
    ledger = ledger;
    operators = operators;
    token_metadata = token_metadata;
    metadata = metadata;
  }

  unfoldable pub read_storage : Reads H Storage
  unfolding read_seq
  read_storage p = read_as as_storage (read_fields p)
