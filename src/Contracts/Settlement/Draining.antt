-- ===== src/Contracts/Settlement/Draining.antt =====
-- That the pending operations of a solvent custodian contract can all be carried out.
use x4c.Base.{
  ℕ, ◌≤◌, ◌≡◌, refl, ◌∙◌, ap, subst, List, [], ◌∷◌, map, ok, ◌==◌, string_eq, nat_eq, All, arith,
  Bool-cases, inl, inr,
}
use x4c.Contracts.Balance.{fold, total}
use x4c.Contracts.Custodian
use x4c.Contracts.Custodian.Types.{
  Operation, call_transfer, call_retire, emit_internal_transfer, emit_internal_mint, emit_retire,
}
use x4c.Contracts.Fa2.Types.{
  Storage, owner_eq, Transfer, RetireTokens, Entrypoint, emit_retire as retired,
}
use x4c.Contracts.Fa2.Entrypoints.{
  transfer_one, transfer_batch, transfer, retire_one, retire_tokens, main,
}
use x4c.Contracts.Settlement.{
  World, System, carry_out, token_transfer, token_retire, from_custodian, perform, perform_next,
  step, run,
}
use x4c.Contracts.Settlement.Owed.{owed}
use x4c.Contracts.Settlement.Own.{IsOwn, All-Unit}
use x4c.Contracts.Settlement.Custody.{
  IsSafe, owned, taken, retired_from, transfer_one-loses, retire_one-loses,
}
use x4c.Contracts.Settlement.Keeping.{here, out, out-le, retired-le}
use x4c.Contracts.Settlement.Progress.{
  Succeeds, fold-Succeeds, transfer_one-Succeeds, retire_one-Succeeds,
}
use x4c.Contracts.Settlement.Recording.{IsSolvent}
use x4c.Contracts.Settlement.Solvency.{perform_next-IsSolvent}

module _ (w : World) where
  open w use {custodian_address}

  transfer_batch-Succeeds :
      (p : Transfer)
      → p.from_ ≡ custodian_address
      → (s : Storage)
      → Succeeds
          (IsSafe custodian_address)
          (λ (p : Transfer). p.from_ ≡ custodian_address)
          (owned custodian_address)
          (out w)
          (λ a. transfer_batch (from_custodian w) a p)
          (λ id. out w id p)
          s
  unfolding transfer_batch
  transfer_batch-Succeeds p mine s =
      fold-Succeeds (IsSafe custodian_address) (λ _. Unit {0}) (owned custodian_address)
        (λ id. taken custodian_address id p.from_) (transfer_one (from_custodian w) p.from_)
        (λ d _ a enough safe.
          let (a', e) =
            transfer_one-Succeeds custodian_address (from_custodian w) refl p.from_ mine d a enough
              safe in
          (
            a',
            e,
            (transfer_one-loses custodian_address (from_custodian w) 0 p.from_ a d a' e safe).0,
            λ id.
                (transfer_one-loses custodian_address (from_custodian w) id p.from_ a d a' e
                  safe).1,
          ))
        p.txs (All-Unit p.txs) s

  transfer-Succeeds :
      (ts : List Transfer)
      → All (λ p. p.from_ ≡ custodian_address) ts
      → (s : Storage) → ((id : ℕ) → total (out w id) ts ≤ owned custodian_address id s)
      → IsSafe custodian_address s
      → (s' : Storage) × (main (from_custodian w) (Entrypoint.transfer ts) s ≡ ok ([], s'))
  unfolding main transfer
  transfer-Succeeds ts mine s enough safe =
      let (s', e, _, _) =
        fold-Succeeds (IsSafe custodian_address) (λ p. p.from_ ≡ custodian_address)
          (owned custodian_address) (out w) (transfer_batch (from_custodian w))
          transfer_batch-Succeeds ts mine s enough safe in
      (s', rw e refl)

  retire-Succeeds :
      (rs : List RetireTokens)
      → All (λ r. r.retiring_party ≡ custodian_address) rs
      → (s : Storage)
      → ((id : ℕ) → total (retired_from custodian_address id) rs ≤ owned custodian_address id s)
      → IsSafe custodian_address s
      → (s' : Storage) × (main (from_custodian w) (Entrypoint.retire rs) s
          ≡ ok (map retired rs, s'))
  unfolding main retire_tokens
  retire-Succeeds rs mine s enough safe =
      let x = from_custodian w in
      let (s', e, _, _) =
        fold-Succeeds (IsSafe custodian_address) (λ r. r.retiring_party ≡ custodian_address)
          (owned custodian_address) (retired_from custodian_address) (retire_one x s)
          (λ r q a enough safe_a.
            let (a', e) = retire_one-Succeeds custodian_address x refl s r q a enough in
            (
              a',
              e,
              (retire_one-loses custodian_address x 0 s safe a r a' e safe_a).0,
              λ id. (retire_one-loses custodian_address x id s safe a r a' e safe_a).1,
            ))
          rs mine s enough safe in
      (s', rw e refl)

  transfers-own :
      (ts : List Custodian.Types.Transfer)
      → All (λ t. t.from_ ≡ custodian_address) ts
      → All (λ p. p.from_ ≡ custodian_address) (map token_transfer ts)
  transfers-own [] _ = tt
  transfers-own (t ∷ ts) (q, qs) = (q, transfers-own ts qs)

  retires-own :
      (rs : List Custodian.Types.ExternalRetire)
      → All (λ r. r.retiring_party ≡ custodian_address) rs
      → All (λ r. r.retiring_party ≡ custodian_address) (map token_retire rs)
  retires-own [] _ = tt
  retires-own (r ∷ rs) (q, qs) = (q, retires-own rs qs)

  -- An operation that moves own tokens, of which there are enough, is carried out.
  pub perform-Succeeds :
      (op : Operation)
      → IsOwn custodian_address op
      → (s : Storage) → ((id : ℕ) → owed (here w id) op ≤ owned custodian_address id s)
      → IsSafe custodian_address s
      → (s' : Storage) × (perform w op s ≡ ok s')
  unfolding perform
  perform-Succeeds (call_transfer address ts) mine s enough safe =
      elim (Bool-cases (w.token_address == address)) [
        | inr e ↦ (s, rw e refl)
        | inl e ↦
            let (s', done) =
              transfer-Succeeds (map token_transfer ts) (transfers-own ts mine) s
                (λ id. omega (arith, out-le w id ts, rw e at (enough id))) safe in
            (s', rw (e, done) refl)
      ]
  perform-Succeeds (call_retire address rs) mine s enough safe =
      elim (Bool-cases (w.token_address == address)) [
        | inr e ↦ (s, rw e refl)
        | inl e ↦
            let (s', done) =
              retire-Succeeds (map token_retire rs) (retires-own rs mine) s
                (λ id. omega (arith, retired-le w id rs, rw e at (enough id))) safe in
            (s', rw (e, done) refl)
      ]
  perform-Succeeds (emit_internal_transfer e) _ s _ _ = (s, refl)
  perform-Succeeds (emit_internal_mint e) _ s _ _ = (s, refl)
  perform-Succeeds (emit_retire e) _ s _ _ = (s, refl)

  performs :
      (op : Operation) (ops : List Operation) (s : System) {token : Storage}
      → perform w op s.token ≡ ok token
      → perform_next w (op ∷ ops) s ≡ ok (record s { token = token; pending = ops })
  unfolding perform_next
  performs op ops s e = rw e refl

  pub carry_out-eq-ok :
      (op : Operation) (ops : List Operation) (s : System) {token : Storage}
      → s.pending ≡ op ∷ ops
      → perform w op s.token ≡ ok token
      → step w s carry_out ≡ ok (record s { token = token; pending = ops })
  unfolding step
  carry_out-eq-ok op ops s e done = ap (λ l. perform_next w l s) e ∙ performs op ops s done

  -- All of them, one after the other.
  drain :
      (ops : List Operation) (s : System)
      → s.pending ≡ ops
      → IsSolvent w s
      → (s' : System) × (run w (map (λ _. carry_out) ops) s ≡ ok s')
        × (s'.pending ≡ [])
        × (s'.custodian ≡ s.custodian)
  unfolding run fold
  drain [] s e solvent = (s, refl, e, refl)
  drain (op ∷ ops) s e solvent =
      let mine = subst (All (IsOwn custodian_address)) e solvent.own in
      let (token, done) =
        perform-Succeeds op mine.0 s.token
          (λ id. omega (arith, ap (total (owed (here w id))) e, solvent.covered id)) solvent.safe in
      let s1 : System = record s { token = token; pending = ops } in
      let first = carry_out-eq-ok op ops s e done in
      let (s', rest, empty, same) =
        drain ops s1 refl
          (perform_next-IsSolvent w (op ∷ ops) s s1 (performs op ops s done) e solvent) in
      (s', rw first rest, empty, same)

  -- The pending operations of a solvent custodian contract are carried out without failure by the
  -- token contract, until none is left, and the custodian's storage stays what it was.
  pub pending-carried_out :
      (s : System)
      → IsSolvent w s
      → (s' : System) × (run w (map (λ _. carry_out) s.pending) s ≡ ok s')
        × (s'.pending ≡ [])
        × (s'.custodian ≡ s.custodian)
  pending-carried_out s solvent = drain s.pending s refl solvent
