-- ===== src/Ledgers/Settling.antt =====
-- CustodianRetire in custodian_entrypoints.go together with both contracts.
use x4c.Base.{
  ℕ, ◌+◌, String, ◌≡◌, true, List, [], ◌∷◌, ok, ok-injective, sym, ◌∙◌, subst, try-eq-ok,
}
use x4c.Base.Int.{ℤ, pos}
use x4c.Base.Text.{to_bytes}
use x4c.Host.{Host, Parameters}
use x4c.Tzclient.{TezosClient, Wallet, Contract}
use x4c.Contracts.Balance.{Context, fold}
use x4c.Contracts.Michelson.{Michelson}
use x4c.Contracts.Custodian.Types.{Entrypoint, InternalRetireData}
use x4c.Contracts.Custodian.Entrypoints.{main}
use x4c.Contracts.Custodian.Parameters.{read_entrypoint}
use x4c.Contracts.Custodian.Accepting.{IsAcceptable, retirement, retire-IsAcceptable}
use x4c.Contracts.Custodian.Backing.{held}
use x4c.Contracts.Fa2.Supply.{supply}
use x4c.Contracts.Settlement.{
  World, System, Event, call_custodian, carry_out, step, run, others_now,
}
use x4c.Contracts.Settlement.Keeping.{here}
use x4c.Contracts.Settlement.Recording.{IsSolvent, at_custodian}
use x4c.Contracts.Settlement.Retiring.{request, retirement-settles}
use x4c.Ledgers.Entrypoints.{custodian_retire}
use x4c.Ledgers.Encoding.{kyc_bytes, retire_parameters-read}
use x4c.Ledgers.Retiring.{retire_parameters-natural}

module _ (w : World) where
  -- A call of the custodian contract and the two operations that a retirement leaves.
  abbrev pub settling : Context → Entrypoint → List Event
  settling x call = call_custodian x call ∷ carry_out ∷ carry_out ∷ []

  -- What was accepted, where it was run.
  run-IsAcceptable :
      (x : Context) (d : InternalRetireData) (s s' : System)
      → IsSolvent w s
      → run w (settling x (request w d)) s ≡ ok s'
      → IsAcceptable (at_custodian w x) w.token_address d s.custodian
  unfolding run fold step main
  run-IsAcceptable x d s s' solvent h =
      let (s1, first, _) = try-eq-ok (step w s (call_custodian x (request w d))) _ h in
      let (r, called, _) =
        try-eq-ok (main (at_custodian w x) (others_now w s.token) (request w d) s.custodian) _
          first in
      retire-IsAcceptable (at_custodian w x) (others_now w s.token) w.token_address d s.custodian
        solvent.backed r.0 r.1 called

  run-settles :
      (x : Context) (d : InternalRetireData) (s s' : System)
      → IsSolvent w s
      → s.pending ≡ []
      → (w.elsewhere.has_entrypoint "%retire" w.token_address ≡ true)
      → run w (settling x (request w d)) s ≡ ok s'
      → (held (here w d.token_id) s'.custodian.ledger + d.amount
          ≡ held (here w d.token_id) s.custodian.ledger)
        × (supply d.token_id s'.token + d.amount ≡ supply d.token_id s.token)
  run-settles x d s s' solvent quiet can_retire h =
      let (s2, again, _, taken, retired) =
        retirement-settles w x d s solvent quiet can_retire (run-IsAcceptable x d s s' solvent h) in
      let same : s2 ≡ s' = ok-injective (sym again ∙ h) in (rw same at taken, rw same at retired)

  -- The amount of the token that both contracts know is taken out of the custodian's ledger and out
  -- of the supply.
  pub record Settled (token_id amount : ℤ) (before after : System) : Type 0 where
    token_number : ℕ
    amount_number : ℕ
    token_natural : token_id ≡ pos token_number
    amount_natural : amount ≡ pos amount_number
    taken :
        held (here w token_number) after.custodian.ledger + amount_number
        ≡ held (here w token_number) before.custodian.ledger
    retired : supply token_number after.token + amount_number ≡ supply token_number before.token

  module _ (H : Host) (M : Michelson H) (x : Context) where
    module _ {S : Type 0} (client : TezosClient H S) (signer : Wallet H) (contract : Contract H)
        (view : S → System) where
      -- The node has a call of the contract by the signer run by both contracts: the call, and then
      -- the operations that it leaves. Nobody else's call comes between.
      abbrev pub RunsSystem : Type 0
      RunsSystem =
          (p : Parameters H) (s : S) (op_hash : String) (s' : S)
          → client.call_contract signer contract p s ≡ (ok op_hash, s')
          → (call : Entrypoint) × (read_entrypoint M p ≡ ok call)
            × (run w (settling x call) (view s) ≡ ok (view s'))

      pub custodian_retire-Settled :
          (token_address : Contract H) (token_id amount : ℤ) (kyc reason : String) (s : S)
          {op_hash : String} {s' : S}
          → RunsSystem
          → IsSolvent w (view s)
          → (view s).pending ≡ []
          → (w.elsewhere.has_entrypoint "%retire" w.token_address ≡ true)
          → H.address_string token_address.address ≡ w.token_address
          → custodian_retire H client contract signer token_address token_id kyc amount reason s
            ≡ (ok op_hash, s')
          → Settled token_id amount (view s) (view s')
      unfolding custodian_retire
      custodian_retire-Settled token_address token_id amount kyc reason s {op_hash} {s'} runs
            solvent quiet can_retire home h =
          let (call, read, ran) = runs _ s op_hash s' h in
          let (n, m, token_natural, amount_natural) =
            retire_parameters-natural H M token_address token_id kyc amount reason read in
          let asked : InternalRetireData = record {
            retiring_party_kyc = kyc_bytes H M kyc;
            token_id = n;
            amount = m;
            retiring_data = to_bytes reason;
          } in
          let at_address = ok-injective (
            sym (rw (token_natural, amount_natural) at read)
            ∙ retire_parameters-read H M token_address n kyc m reason) in
          let same : call ≡ request w asked =
            subst (λ address. call ≡ Entrypoint.retire (retirement address asked ∷ [])) home
              at_address in
          let (taken, retired) =
            run-settles x asked (view s) (view s') solvent quiet can_retire
              (subst (λ c. run w (settling x c) (view s) ≡ ok (view s')) same ran) in
          record {
            token_number = n;
            amount_number = m;
            token_natural = token_natural;
            amount_natural = amount_natural;
            taken = taken;
            retired = retired;
          }
