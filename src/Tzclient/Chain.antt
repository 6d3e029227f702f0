-- ===== src/Tzclient/Chain.antt =====
-- tzgo's RPC client, signers and contract deployment as parameters over the state of the chain, and
-- the loop that repeats a request.
use x4c.Base.{
  ℕ, zero, suc, String, Bool, true, false, List, Option, Outcome, ok, err, Error, Action,
}
use x4c.Base.{url_error, not_exist, other}
use x4c.Host.{Host, Parameters}

pub data Signer (H : Host) : Type 0 where
  -- signer.NewFromKey
  local : H.PrivateKey → Signer H
  -- remote.New(url), with an address
  remote : String → H.Address → Signer H

pub record Rpc (H : Host) (S : Type 0) : Type 1 where
  -- rpc.NewClient
  pub new_client : String → Outcome Error (Unit {0})
  -- `Init` and `Listen`, whose errors the source drops
  pub init_and_listen : S → S
  pub new_remote : String → Outcome Error (Unit {0})
  -- `Send` of a call with a signer, the source address, the target and the parameters: the hash of
  -- the operation, or none for a receipt that holds no operation
  pub send : Signer H → H.Address → H.Address → Parameters H → Action S Error (Option String)
  pub Code : Type 0
  pub unmarshal_code : List ℕ → Outcome Error Code
  -- `Deploy` with the key of the signer: the new contract's address
  pub deploy : H.PrivateKey → Code → H.Prim → Action S Error H.Address
  -- time.Sleep(500 * time.Millisecond)
  pub sleep : S → S

abbrev pub max_retries : ℕ
max_retries = 5

-- `errors.As(err, &urlError)` on a result.
abbrev pub is_url_failure : {A : Type 0} → Outcome Error A → Bool
is_url_failure (ok a) = false
is_url_failure (err e) = elim e.cause [ url_error ↦ true | not_exist ↦ false | other ↦ false ]

-- The loop over `tries`, which counts the tries that are left: `tries` is `max_retries` minus `left`,
-- and `tries < maxRetries` fails where none is left.
unfoldable pub retry : {S A : Type 0} → (S → S) → Action S Error A → ℕ → Action S Error A
retry sleep attempt zero s = attempt s
retry sleep attempt (suc left) s =
    let (r, s') = attempt s in
    elim (is_url_failure r) [ true ↦ retry sleep attempt left (sleep s') | false ↦ (r, s') ]
