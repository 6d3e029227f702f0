-- ===== src/Contracts/Settlement/Own.antt =====
-- Whose tokens the operations of custodian.mligo move: the contract's own.
use mathlib.Core.List.{flat_map}
use x4c.Base.{
  String, ◌≡◌, refl, subst, List, [], ◌∷◌, ◌++◌, map, ok, try-eq-ok, ok-injective, ◌==◌, string_eq,
  All, arith, Bool-cases, inl, inr,
}
use x4c.Base.Int.{pos, eqb_ℤ}
use x4c.Contracts.Balance.{Address, Context, fold}
use x4c.Contracts.Custodian.Types.{
  Storage, Others, ExternalTransfer, InternalRetire, EmitInternalMint, Entrypoint, Operation,
  call_transfer, call_retire,
}
use x4c.Contracts.Custodian.Guards.{require, permissions_denied}
use x4c.Contracts.Custodian.Entrypoints.{
  transfer_batch, internal_transfer, transfer_event, mint_updates, apply_mint, mint_events,
  internal_mint, calls, transfer_call, external_group, external_transfer, retire_call, retire_event,
  retire_batch, retire, update_internal_operators, update_custodian, main,
}

-- The operation moves or retires tokens of one holder alone.
abbrev pub IsOwn : Address → Operation → Type 0
IsOwn c (call_transfer address ts) = All (λ t. t.from_ ≡ c) ts
IsOwn c (call_retire address rs) = All (λ r. r.retiring_party ≡ c) rs
IsOwn c _ = Unit

pub All-Unit {ℓ} : {A : Type ℓ} (xs : List A) → All (λ _. Unit {0}) xs
All-Unit [] = tt
All-Unit (x ∷ xs) = (tt, All-Unit xs)

module _ {ℓ} {A : Type ℓ} (Q : A → Type 0) where
  pub All-append : (xs ys : List A) → All Q xs → All Q ys → All Q (xs ++ ys)
  All-append [] ys hx hy = hy
  All-append (x ∷ xs) ys (q, hx) hy = (q, All-append xs ys hx hy)

  All-map : {B : Type 0} (f : B → A) → ((b : B) → Q (f b)) → (bs : List B) → All Q (map f bs)
  All-map f h [] = tt
  All-map f h (b ∷ bs) = (h b, All-map f h bs)

  All-flat_map :
      {B : Type 0} (f : B → List A)
      → ((b : B) → All Q (f b))
      → (bs : List B) → All Q (flat_map f bs)
  unfolding flat_map
  All-flat_map f h [] = tt
  All-flat_map f h (b ∷ bs) = All-append (f b) (flat_map f bs) (h b) (All-flat_map f h bs)

module _ (x : Context) where
  abbrev AreOwn : List Operation → Type 0
  AreOwn = All (IsOwn x.self_address)

  module _ (others : Others) where
    calls-AreOwn :
        (entrypoint : String) {A : Type 0} (address : A → Address) (call : A → Operation)
        → ((p : A) → IsOwn x.self_address (call p))
        → (p : List A) {ops : List Operation} → calls x others entrypoint address call p ≡ ok ops
        → AreOwn ops
    unfolding calls
    calls-AreOwn entrypoint address call own [] h = subst AreOwn (ok-injective h) tt
    calls-AreOwn entrypoint address call own (p ∷ ps) {ops = left} h =
        elim (Bool-cases (others.has_entrypoint entrypoint (address p))) [
          | inr e ↦ ground (arith, h, e)
          | inl e ↦
              let (rest, q, h1) =
                try-eq-ok (calls x others entrypoint address call ps) (λ ops. ok (call p ∷ ops))
                  {b = left} (ground (arith, h, e)) in
              subst AreOwn (ok-injective h1) (own p, calls-AreOwn entrypoint address call own ps q)
        ]

    transfer_call-IsOwn : (p : ExternalTransfer) → IsOwn x.self_address (transfer_call x others p)
    transfer_call-IsOwn p = All-map (λ t. t.from_ ≡ x.self_address) _ (λ b. refl) p.txn_batch

    retire_call-IsOwn : (p : InternalRetire) → IsOwn x.self_address (retire_call x others p)
    retire_call-IsOwn p = All-map (λ r. r.retiring_party ≡ x.self_address) _ (λ tx. refl) p.txs

    mint_events-AreOwn : (us : List EmitInternalMint) → AreOwn (mint_events x others us)
    unfolding mint_events
    mint_events-AreOwn [] = tt
    mint_events-AreOwn (u ∷ us) = elim (Bool-cases (eqb_ℤ u.amount (pos 0))) [
      | inl e ↦ rw e (mint_events-AreOwn us)
      | inr e ↦ rw e (tt, mint_events-AreOwn us)
    ]

    -- Every operation that a call leaves moves tokens of the contract itself.
    pub main-AreOwn :
        (call : Entrypoint) (s : Storage) {ops : List Operation} {s' : Storage}
        → main x others call s ≡ ok (ops, s')
        → AreOwn ops
    unfolding main internal_transfer internal_mint external_transfer update_internal_operators
        retire update_custodian
    main-AreOwn (Entrypoint.internal_transfer p) s h =
        let (updated, _, h1) = try-eq-ok (fold (transfer_batch x) p s) _ h in
        subst (λ r. AreOwn r.0) (ok-injective h1)
          (All-flat_map (IsOwn x.self_address) (λ p. map (transfer_event x p) p.txs)
            (λ p. All-map (IsOwn x.self_address) (transfer_event x p) (λ d. tt) p.txs) p)
    main-AreOwn (Entrypoint.internal_mint p) s h =
        let (_, _, h1) = try-eq-ok (require (x.sender == s.custodian) permissions_denied) _ h in
        let (updates, _, h2) = try-eq-ok (mint_updates x others s p) _ h1 in
        let (updated, _, h3) = try-eq-ok (fold (apply_mint x others) updates s) _ h2 in
        subst (λ r. AreOwn r.0) (ok-injective h3) (mint_events-AreOwn updates)
    main-AreOwn (Entrypoint.external_transfer p) s h =
        let (_, _, h1) = try-eq-ok (require (x.sender == s.custodian) permissions_denied) _ h in
        let (updated, _, h2) = try-eq-ok (fold (external_group x others) p s) _ h1 in
        let (ops, q, h3) =
          try-eq-ok (calls x others "%transfer" (λ p. p.token_address) (transfer_call x others) p) _
            h2 in
        subst (λ r. AreOwn r.0) (ok-injective h3)
          (calls-AreOwn "%transfer" (λ p. p.token_address) (transfer_call x others)
            transfer_call-IsOwn p q)
    main-AreOwn (Entrypoint.update_internal_operators us) s h =
        let (_, _, h1) = try-eq-ok (require (x.sender == s.custodian) permissions_denied) _ h in
        subst (λ r. AreOwn r.0) (ok-injective h1) tt
    main-AreOwn (Entrypoint.retire p) s h =
        let (updated, _, h1) = try-eq-ok (fold (retire_batch x others) p s) _ h in
        let (ops, q, h2) =
          try-eq-ok (calls x others "%retire" (λ p. p.token_address) (retire_call x others) p) _
            h1 in
        subst (λ r. AreOwn r.0) (ok-injective h2)
          (All-append (IsOwn x.self_address) ops _
            (calls-AreOwn "%retire" (λ p. p.token_address) (retire_call x others) retire_call-IsOwn
              p q)
            (All-flat_map (IsOwn x.self_address) (λ p. map (retire_event x others p) p.txs)
              (λ p. All-map (IsOwn x.self_address) (retire_event x others p) (λ d. tt) p.txs) p))
    main-AreOwn (Entrypoint.update_custodian a) s h =
        let (_, _, h1) = try-eq-ok (require (x.sender == s.custodian) permissions_denied) _ h in
        subst (λ r. AreOwn r.0) (ok-injective h1) tt
