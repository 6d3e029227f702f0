-- ===== src/Contracts/Fa2/Access.antt =====
-- Who may mint, add tokens and administer in the FA2 contract.
use x4c.Base.{◌≡◌, List, ok, try-eq-ok, ◌==◌, ==_iff, string_eq, arith}
use x4c.Contracts.Balance.{Context}
use x4c.Contracts.Fa2.Types.{Storage, Entrypoint, Operation}
use x4c.Contracts.Fa2.Entrypoints.{
  require, permissions_denied, mint_tokens, add_token_id, update_contract_metadata, update_oracle,
  main,
}

module _ (x : Context) (s : Storage) where
  -- What a call needs of its sender beyond the checks of its elements.
  abbrev pub NeedsOracle : Entrypoint → Type 0
  NeedsOracle (Entrypoint.transfer p) = Unit
  NeedsOracle (Entrypoint.balance_of requests callback) = Unit
  NeedsOracle (Entrypoint.update_operators p) = Unit
  NeedsOracle (Entrypoint.retire p) = Unit
  NeedsOracle _ = x.sender ≡ s.oracle

  sender_is_oracle :
      {u : Unit {0}}
      → require (x.sender == s.oracle) permissions_denied ≡ ok u
      → x.sender ≡ s.oracle
  sender_is_oracle h = (==_iff x.sender s.oracle).0 (ground arith)

  -- A mint, an addition of tokens, a change of the metadata and a change of the oracle succeed only
  -- for the oracle.
  pub main-NeedsOracle :
      (call : Entrypoint) {ops : List Operation} {s' : Storage}
      → main x call s ≡ ok (ops, s')
      → NeedsOracle call
  unfolding main mint_tokens add_token_id update_contract_metadata update_oracle
  main-NeedsOracle (Entrypoint.transfer p) h = tt
  main-NeedsOracle (Entrypoint.balance_of requests callback) h = tt
  main-NeedsOracle (Entrypoint.update_operators p) h = tt
  main-NeedsOracle (Entrypoint.retire p) h = tt
  main-NeedsOracle (Entrypoint.mint p) h =
      sender_is_oracle (try-eq-ok (require (x.sender == s.oracle) permissions_denied) _ h).1
  main-NeedsOracle (Entrypoint.add_token_id p) h =
      sender_is_oracle (try-eq-ok (require (x.sender == s.oracle) permissions_denied) _ h).1
  main-NeedsOracle (Entrypoint.update_contract_metadata p) h =
      sender_is_oracle (try-eq-ok (require (x.sender == s.oracle) permissions_denied) _ h).1
  main-NeedsOracle (Entrypoint.update_oracle p) h =
      sender_is_oracle (try-eq-ok (require (x.sender == s.oracle) permissions_denied) _ h).1
