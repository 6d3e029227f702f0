-- ===== src/Contracts/Fa2/Parameters.antt =====
-- How the FA2 contract reads the parameter of a call: the types of its entrypoints, as LIGO lays
-- them out. Where a type has no comb layout, the fields are in the order of their names.
use x4c.Base.{
  String, List, [], ◌∷◌, Outcome, ok, err, Error, errorf, try, if◌then◌else◌, ◌==◌, string_eq,
}
use x4c.Host.{Host, OpCode, d_elt, Parameters}
use x4c.Contracts.Balance.{Bytes}
use x4c.Contracts.Michelson.{Michelson, Reads, read_pair, read_seq, read_as}
use x4c.Contracts.Fa2.Types.{MintData, TokenMetadata, Entrypoint}

module _ {H : Host} (M : Michelson H) where
  open M use {as_string, as_bytes, as_nat, as_code}

  abbrev pub read_mint_data : Reads H MintData
  read_mint_data p =
      read_as (λ ((owner, qty), id). record { owner = owner; token_id = id; qty = qty })
        (read_pair M (read_pair M as_string as_nat) as_nat p)

  -- An entry of a map.
  abbrev pub read_entry_of : OpCode × List H.Prim → Outcome Error (String × Bytes)
  read_entry_of (d_elt, k ∷ v ∷ []) =
      try (as_string k) (λ key. try (as_bytes v) (λ value. ok (key, value)))
  read_entry_of _ = err (errorf "not an entry of a map")

  abbrev pub read_entry : Reads H (String × Bytes)
  read_entry p = try (as_code p) read_entry_of

  abbrev pub read_token_metadata : Reads H TokenMetadata
  read_token_metadata p =
      read_as (λ (id, info). record { token_id = id; token_info = info })
        (read_pair M as_nat (read_seq M read_entry) p)

  -- The entrypoints that the Go code calls.
  unfoldable pub read_entrypoint : Parameters H → Outcome Error Entrypoint
  unfolding read_seq string_eq
  read_entrypoint p =
      if p.entrypoint == "mint"
      then read_as Entrypoint.mint (read_seq M read_mint_data p.value)
      else if p.entrypoint == "add_token_id"
      then read_as Entrypoint.add_token_id (read_seq M read_token_metadata p.value)
      else err (errorf "no such entrypoint")
