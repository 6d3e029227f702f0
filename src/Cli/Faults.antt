-- ===== src/Cli/Faults.antt =====
-- What internal_mint and update_operators do with an argument that names nothing.
use x4c.Base.{
  String, ◌<>◌, List, Outcome, ◌≡◌, [], ◌∷◌, ok, err, Error, Outcome-cases, inl, inr, string_eq,
}
use x4c.Host.{Host, Parameters}
use x4c.Tzclient.{Client, load_default_client, contract_by_name}
use x4c.Contracts.Michelson.{Michelson}
use x4c.Cli.Setup.{Outside}
use x4c.Cli.Calls.{internal_mint_command}

module _ {H : Host} {S : Type 0} (W : Outside H S) where
  -- A name for the FA2 contract that the client does not know is not read any further: internal_mint
  -- does the same with any two such names.
  pub internal_mint_command-unknown :
      (contract signer token_id fa2 fa2' : String) (s : S)
      → ((c : Client H)
          → load_default_client H W.getenv W.read_file ≡ ok c
          → (e : Error) × (contract_by_name W.map_order c fa2 ≡ err e))
      → ((c : Client H)
          → load_default_client H W.getenv W.read_file ≡ ok c
          → (e : Error) × (contract_by_name W.map_order c fa2' ≡ err e))
      → internal_mint_command W (contract ∷ signer ∷ fa2 ∷ token_id ∷ []) s
        ≡ internal_mint_command W (contract ∷ signer ∷ fa2' ∷ token_id ∷ []) s
  unfolding internal_mint_command
  internal_mint_command-unknown contract signer token_id fa2 fa2' s u u' =
      elim (Outcome-cases (load_default_client H W.getenv W.read_file)) [
        | inr (e, q) ↦ simp (q)
        | inl (c, q) ↦ let (e, r) = u c q in let (e', r') = u' c q in simp (q, r, r')
      ]

  -- What the command makes of the answer to its call.
  abbrev pub reported : Outcome Error String × S → Outcome String (List String) × S
  reported (ok op_hash, s) = (ok (("Submitted operation successfully as " <> op_hash) ∷ []), s)
  reported (err e, s) = (err "Failed to update operators", s)
