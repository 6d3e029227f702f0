-- ===== src/Contracts/Custodian/Parameters.antt =====
-- How the custodian contract reads the parameter of a call: the types of its entrypoints, as LIGO
-- lays them out. Where a type has no comb layout, the fields are in the order of their names.
use x4c.Base.{List, [], ◌∷◌, Outcome, err, Error, errorf, try, if◌then◌else◌, ◌==◌, string_eq}
use x4c.Host.{Host, OpCode, d_left, d_right, Parameters}
use x4c.Contracts.Michelson.{Michelson, Reads, read_pair, read_seq, read_as}
use x4c.Contracts.Custodian.Types.{
  Token, Operator, InternalTransferTo, InternalTransfer, UpdateInternalOperator, add_operator,
  remove_operator, InternalRetireData, InternalRetire, Entrypoint,
}

module _ {H : Host} (M : Michelson H) where
  open M use {as_string, as_bytes, as_nat, as_code}

  abbrev pub read_token : Reads H Token
  read_token p =
      read_as (λ (address, id). record { token_address = address; token_id = id })
        (read_pair M as_string as_nat p)

  abbrev pub read_transfer_to : Reads H InternalTransferTo
  read_transfer_to p =
      read_as (λ (to, (id, amount)). record { to_ = to; token_id = id; amount = amount })
        (read_pair M as_bytes (read_pair M as_nat as_nat) p)

  abbrev pub read_transfer : Reads H InternalTransfer
  read_transfer p =
      read_as
        (λ (from, (address, txs)). record { from_ = from; token_address = address; txs = txs })
        (read_pair M as_bytes (read_pair M as_string (read_seq M read_transfer_to)) p)

  abbrev pub read_operator : Reads H Operator
  read_operator p =
      read_as
        (λ (owner, (operator, id)). record {
          token_owner = owner;
          token_operator = operator;
          token_id = id;
        })
        (read_pair M as_bytes (read_pair M as_string as_nat) p)

  -- The two cases of a variant type.
  abbrev pub read_case : OpCode × List H.Prim → Outcome Error UpdateInternalOperator
  read_case (d_left, p ∷ []) = read_as add_operator (read_operator p)
  read_case (d_right, p ∷ []) = read_as remove_operator (read_operator p)
  read_case _ = err (errorf "not a case")

  abbrev pub read_update : Reads H UpdateInternalOperator
  read_update p = try (as_code p) read_case

  abbrev pub read_retire_data : Reads H InternalRetireData
  read_retire_data p =
      read_as
        (λ ((amount, data_), (kyc, id)). record {
          retiring_party_kyc = kyc;
          token_id = id;
          amount = amount;
          retiring_data = data_;
        })
        (read_pair M (read_pair M as_nat as_bytes) (read_pair M as_bytes as_nat) p)

  abbrev pub read_retire : Reads H InternalRetire
  read_retire p =
      read_as (λ (address, txs). record { token_address = address; txs = txs })
        (read_pair M as_string (read_seq M read_retire_data) p)

  -- The entrypoints that the Go code calls.
  unfoldable pub read_entrypoint : Parameters H → Outcome Error Entrypoint
  unfolding read_seq string_eq
  read_entrypoint p =
      if p.entrypoint == "internal_transfer"
      then read_as Entrypoint.internal_transfer (read_seq M read_transfer p.value)
      else if p.entrypoint == "internal_mint"
      then read_as Entrypoint.internal_mint (read_seq M read_token p.value)
      else if p.entrypoint == "update_internal_operators"
      then read_as Entrypoint.update_internal_operators (read_seq M read_update p.value)
      else if p.entrypoint == "retire"
      then read_as Entrypoint.retire (read_seq M read_retire p.value)
      else err (errorf "no such entrypoint")
