-- ===== src/Contracts/Settlement/Retiring.antt =====
-- A retirement from the call of the custodian contract to the token contract.
use x4c.Base.{
  ◌+◌, ◌≡◌, refl, ap, true, [], ◌∷◌, ok, try-eq-ok, ok-injective, ==_iff, string_eq, nat_eq, arith,
}
use x4c.Contracts.Balance.{Context, fold}
use x4c.Contracts.Custodian
use x4c.Contracts.Custodian.Types.{
  Token, token_eq, Entrypoint, InternalRetireData, Operation, call_retire,
}
use x4c.Contracts.Custodian.Entrypoints.{main, retire, retire_call, retire_event}
use x4c.Contracts.Custodian.Accepting.{IsAcceptable, retirement, left, retire-accepted}
use x4c.Contracts.Custodian.Backing.{held}
use x4c.Contracts.Custodian.Totals.{retire-held}
use x4c.Contracts.Fa2
use x4c.Contracts.Fa2.Supply.{supply, main-supply}
use x4c.Contracts.Settlement.{
  World, System, call_custodian, carry_out, others_now, token_retire, from_custodian, perform, step,
  run,
}
use x4c.Contracts.Settlement.Keeping.{here}
use x4c.Contracts.Settlement.Recording.{IsSolvent, at_custodian}
use x4c.Contracts.Settlement.Solvency.{step-IsSolvent}
use x4c.Contracts.Settlement.Draining.{perform-Succeeds, carry_out-eq-ok}

module _ (w : World) where
  abbrev pub request : InternalRetireData → Entrypoint
  request d = Entrypoint.retire (retirement w.token_address d ∷ [])

  module _ (x : Context) (d : InternalRetireData) (s : System) (solvent : IsSolvent w s)
      (quiet : s.pending ≡ []) where
    abbrev self : Context
    self = at_custodian w x

    abbrev known : Custodian.Types.Others
    known = others_now w s.token

    call-eq-ok :
        (c1 : Custodian.Types.Storage)
        → retire self known (retirement w.token_address d ∷ []) s.custodian
          ≡ ok (left self known w.token_address d, c1)
        → step w s (call_custodian x (request d))
          ≡ ok (record s { custodian = c1; pending = left self known w.token_address d })
    unfolding step main
    call-eq-ok c1 h = rw (h, quiet) refl

    -- Retiring at the token contract takes from the supply.
    call-supply :
        (token token' : Fa2.Types.Storage)
        → perform w (retire_call self known (retirement w.token_address d)) token ≡ ok token'
        → supply d.token_id token' + d.amount ≡ supply d.token_id token
    unfolding perform
    call-supply token token' h =
        let asked = Fa2.Types.Entrypoint.retire (
          token_retire (record {
            retiring_party = w.custodian_address;
            token_id = d.token_id;
            amount = d.amount;
            retiring_data = d.retiring_data;
          })
          ∷ []) in
        let at_home = (==_iff w.token_address w.token_address).1 refl in
        let (r, called, same) =
          try-eq-ok (Fa2.Entrypoints.main (from_custodian w) asked token) _ (rw at_home at h) in
        ground (
          arith,
          ap (supply d.token_id) (ok-injective same),
          main-supply d.token_id (from_custodian w) asked token called,
          ==_iff d.token_id d.token_id,
        )

    event-eq-ok :
        (token : Fa2.Types.Storage)
        → perform w (retire_event self known (retirement w.token_address d) d) token ≡ ok token
    unfolding perform
    event-eq-ok token = refl

    -- With the custodian contract solvent and nothing pending, the retirement of an amount that the
    -- owner holds, by the custodian or an operator of the owner, is accepted and carried out: nothing
    -- is left pending, and both what the custodian holds of the token and the supply of the token
    -- fall by the amount.
    pub retirement-settles :
        (w.elsewhere.has_entrypoint "%retire" w.token_address ≡ true)
        → IsAcceptable self w.token_address d s.custodian
        → (s' : System) × (run w (call_custodian x (request d) ∷ carry_out ∷ carry_out ∷ []) s
            ≡ ok s')
          × (s'.pending ≡ [])
          × (held (here w d.token_id) s'.custodian.ledger + d.amount
              ≡ held (here w d.token_id) s.custodian.ledger)
          × (supply d.token_id s'.token + d.amount ≡ supply d.token_id s.token)
    unfolding run fold
    retirement-settles can_retire acceptable =
        let id = d.token_id in
        let op : Operation = retire_call self known (retirement w.token_address d) in
        let event : Operation = retire_event self known (retirement w.token_address d) d in
        let (c1, called) =
          (retire-accepted self known w.token_address d s.custodian solvent.backed can_retire).1
            acceptable in
        let first = call-eq-ok c1 called in
        let s1 : System = record s { custodian = c1; pending = op ∷ event ∷ [] } in
        let solvent1 = step-IsSolvent w s (call_custodian x (request d)) s1 first tt solvent in
        let (token, done) =
          perform-Succeeds w op solvent1.own.0 s.token (λ i. omega (arith, solvent1.covered i))
            solvent1.safe in
        let second = carry_out-eq-ok w op (event ∷ []) s1 refl done in
        let s2 : System = record s1 { token = token; pending = event ∷ [] } in
        let third = carry_out-eq-ok w event [] s2 refl (event-eq-ok token) in
        (
          record s1 { token = token; pending = [] },
          rw first (rw second (rw third refl)),
          refl,
          ground (
            arith,
            retire-held self known (here w id) (retirement w.token_address d ∷ []) s.custodian
                called,
            ==_iff (here w id) (here w id),
          ),
          call-supply s.token token done,
        )
