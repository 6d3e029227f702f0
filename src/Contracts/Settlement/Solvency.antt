-- ===== src/Contracts/Settlement/Solvency.antt =====
-- Whether the custodian contract has at the token contract what it records, while calls of both
-- contracts and pending operations come in any order.
use x4c.Base.{
  All, ◌≡◌, refl, ap, subst, List, [], ◌∷◌, ok, try-eq-ok, ok-injective, string_eq, arith,
}
use x4c.Contracts.Balance.{fold, total}
use x4c.Contracts.Custodian.Types.{token_eq, Operation}
use x4c.Contracts.Custodian.Entrypoints.{main}
use x4c.Contracts.Custodian.Backing.Calls.{main-IsBacked}
use x4c.Contracts.Fa2
use x4c.Contracts.Settlement.{
  World, System, Event, call_custodian, call_token, carry_out, others_now, perform, perform_next,
  step, run,
}
use x4c.Contracts.Settlement.Own.{IsOwn, All-append, main-AreOwn}
use x4c.Contracts.Settlement.Owed.{owed}
use x4c.Contracts.Settlement.Keeping.{here, main-Keeps}
use x4c.Contracts.Settlement.Recording.{
  IsSolvent, IsOrderly, AreOrderly, at_custodian, call-covered,
}
use x4c.Contracts.Settlement.Performing.{perform-Loses}

module _ (w : World) where
  pub perform_next-IsSolvent :
      (ops : List Operation) (s s' : System)
      → perform_next w ops s ≡ ok s'
      → s.pending ≡ ops
      → IsSolvent w s
      → IsSolvent w s'
  unfolding perform_next
  perform_next-IsSolvent [] s s' h _ solvent = subst (IsSolvent w) (ok-injective h) solvent
  perform_next-IsSolvent (op ∷ ops) s s' h e solvent =
      let (token, done, same) = try-eq-ok (perform w op s.token) _ h in
      subst (IsSolvent w) (ok-injective same) (record {
        backed = solvent.backed;
        own = (subst (All (IsOwn w.custodian_address)) e solvent.own).1;
        safe = (perform-Loses w 0 op s.token token done solvent.safe).0;
        covered = λ id. omega (
          arith,
          ap (total (owed (here w id))) e,
          solvent.covered id,
          (perform-Loses w id op s.token token done solvent.safe).1,
        );
      })

  pub step-IsSolvent :
      (s : System) (e : Event) (s' : System)
      → step w s e ≡ ok s'
      → IsOrderly w s e
      → IsSolvent w s
      → IsSolvent w s'
  unfolding step
  step-IsSolvent s (call_custodian x call) s' h orderly solvent =
      let o = others_now w s.token in
      let (r, called, same) = try-eq-ok (main (at_custodian w x) o call s.custodian) _ h in
      subst (IsSolvent w) (ok-injective same) (record {
        own =
            All-append (IsOwn w.custodian_address) r.0 s.pending
              (main-AreOwn (at_custodian w x) o call s.custodian called) solvent.own;
        backed = main-IsBacked (at_custodian w x) o call s.custodian called solvent.backed;
        safe = solvent.safe;
        covered = call-covered w x s call called orderly solvent;
      })
  step-IsSolvent s (call_token x call) s' h orderly solvent =
      let c = w.custodian_address in
      let (r, called, same) = try-eq-ok (Fa2.Entrypoints.main x call s.token) _ h in
      subst (IsSolvent w) (ok-injective same) (record {
        backed = solvent.backed;
        own = solvent.own;
        safe = (main-Keeps c x orderly 0 call s.token called solvent.safe).0;
        covered = λ id. omega (
          arith,
          solvent.covered id,
          (main-Keeps c x orderly id call s.token called solvent.safe).1,
        );
      })
  step-IsSolvent s carry_out s' h _ solvent = perform_next-IsSolvent s.pending s s' h refl solvent

  -- Calls of the custodian contract and of a token contract, by anyone and in any order, with the
  -- operations that the custodian leaves carried out one at a time between them, keep the custodian
  -- solvent: what it records of each token, with what is still owed, is at most what it has at the
  -- token contract. The condition is that a mint names no token twice and comes while nothing is
  -- owed, and that the custodian contract has named no operator at the start.
  pub run-IsSolvent :
      (events : List Event) (s : System) {s' : System}
      → run w events s ≡ ok s'
      → AreOrderly w events s
      → IsSolvent w s
      → IsSolvent w s'
  unfolding run fold
  run-IsSolvent [] s h _ solvent = subst (IsSolvent w) (ok-injective h) solvent
  run-IsSolvent (e ∷ es) s h (orderly, rest) solvent =
      let (s1, first, later) = try-eq-ok (step w s e) _ h in
      run-IsSolvent es s1 later (rest s1 first) (step-IsSolvent s e s1 first orderly solvent)
