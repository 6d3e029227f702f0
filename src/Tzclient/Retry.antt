-- ===== src/Tzclient/Retry.antt =====
-- How often a request is sent: the loops of CallContract and Originate in tzclient.go.
use x4c.Base.{
  ℕ, zero, suc, ◌+◌, ◌≤◌, ◌≡◌, ap, refl, sym, ◌∙◌, String, true, false, ok, Error, Action, arith,
  Bool-cases, Outcome-cases, inl, inr,
}
use x4c.Host.{Host, Parameters}
use x4c.Tzclient.Accounts.{Wallet, Contract}
use x4c.Tzclient.Types.{Client}
use x4c.Tzclient.Chain.{Rpc, Signer, retry, is_url_failure, max_retries}
use x4c.Tzclient.Calls.{call_contract, signer_of}

module _ {S A : Type 0} (sleep : S → S) (attempt : Action S Error A) (tries : S → ℕ)
    (attempt_counts : (s : S) → tries (attempt s).1 ≡ suc (tries s))
    (sleep_keeps : (s : S) → tries (sleep s) ≡ tries s) where
  retry-zero : (s : S) → retry sleep attempt zero s ≡ attempt s
  unfolding retry
  retry-zero s = refl

  retry-again :
      (left : ℕ) (s : S)
      → is_url_failure (attempt s).0 ≡ true
      → retry sleep attempt (suc left) s ≡ retry sleep attempt left (sleep (attempt s).1)
  unfolding retry
  retry-again left s h = ground (arith, h)

  retry-done :
      (left : ℕ) (s : S)
      → is_url_failure (attempt s).0 ≡ false
      → retry sleep attempt (suc left) s ≡ attempt s
  unfolding retry
  retry-done left s h = ground (arith, h)

  -- The loop makes one attempt at least, and at most one more than there are tries left. Where what
  -- it returns is a failure of the connection, it has made them all.
  pub retry-tries :
      (left : ℕ) (s : S)
      → (suc (tries s) ≤ tries (retry sleep attempt left s).1)
        × (tries (retry sleep attempt left s).1 ≤ tries s + suc left)
        × (is_url_failure (retry sleep attempt left s).0 ≡ true
            → tries (retry sleep attempt left s).1 ≡ tries s + suc left)
  retry-tries zero s =
      let e = ap (λ r. tries r.1) (retry-zero s) in
      (
        omega (arith, e, attempt_counts s),
        omega (arith, e, attempt_counts s),
        λ _. omega (arith, e, attempt_counts s),
      )
  retry-tries (suc left) s = elim (Bool-cases (is_url_failure (attempt s).0)) [
    | inl again ↦
        let e = retry-again left s again in
        let t = ap (λ r. tries r.1) e in
        let (low, high, all) = retry-tries left (sleep (attempt s).1) in
        let c = attempt_counts s in
        let k = sleep_keeps (attempt s).1 in
        (
          omega (arith, t, low, c, k),
          omega (arith, t, high, c, k),
          λ h. omega (arith, t, c, k, all (sym (ap (λ r. is_url_failure r.0) e) ∙ h)),
        )
    | inr done ↦
        let e = retry-done left s done in
        let t = ap (λ r. tries r.1) e in
        let c = attempt_counts s in
        (omega (arith, t, c), omega (arith, t, c), λ h. ground (arith, e, done))
  ]

module _ {H : Host} {S : Type 0} (R : Rpc H S) (tries : S → ℕ)
    (send_counts : (g : Signer H) (source target : H.Address) (p : Parameters H) (s : S)
      → tries (R.send g source target p s).1 ≡ suc (tries s))
    (sleep_keeps : (s : S) → tries (R.sleep s) ≡ tries s)
    (init_keeps : (s : S) → tries (R.init_and_listen s) ≡ tries s) where
  -- A call of a contract is sent at most six times, and at least once where it succeeds.
  pub call_contract-tries :
      (c : Client H) (signed_by : Wallet H) (target : Contract H) (p : Parameters H) (s : S)
      → (tries (call_contract R c signed_by target p s).1 ≤ tries s + suc max_retries)
        × ((hash : String)
            → (call_contract R c signed_by target p s).0 ≡ ok hash
            → suc (tries s) ≤ tries (call_contract R c signed_by target p s).1)
  unfolding call_contract
  call_contract-tries c signed_by target p s =
      let s0 = R.init_and_listen s in
      let i = init_keeps s in
      elim (Outcome-cases (R.new_client c.rpc_url)) [
        | inr (e, q) ↦ (ground (arith, q), λ hash h. ground (arith, q))
        | inl (_, q) ↦ elim (Outcome-cases (signer_of R c.signatory_url signed_by)) [
          | inr (e, q') ↦ (ground (arith, q, q', i), λ hash h. ground (arith, q, q'))
          | inl (g, q') ↦
              let send = R.send g signed_by.address target.address p in
              let (low, high, _) =
                retry-tries R.sleep send tries (send_counts g signed_by.address target.address p)
                  sleep_keeps max_retries s0 in
              elim (Outcome-cases (retry R.sleep send max_retries s0).0) [
                | inr (e, r) ↦
                    (ground (arith, q, q', r, i, high), λ hash h. ground (arith, q, q', r, i, low))
                | inl (e, r) ↦
                    (ground (arith, q, q', r, i, high), λ hash h. ground (arith, q, q', r, i, low))
              ]
        ]
      ]
