-- ===== src/Ledgers/Operators.antt =====
-- Which updates of operators are sent: CustodianUpdateOperators in custodian_entrypoints.go.
use x4c.Base.{
  ◌≡◌, refl, sym, ◌∙◌, List, [], ◌∷◌, ok, err, Error, ◌⊎◌, inl, inr, arith, All, try, try-eq-ok,
  ==_iff, nat_eq, Outcome-cases,
}
use x4c.Host.{Host}
use x4c.Tzclient.{TezosClient, Wallet, Contract}
use x4c.Ledgers.Entrypoints.{
  OperatorUpdate, operator_updates, update_code, add_operator, remove_operator, operator_update,
  custodian_update_operators,
}

module _ (H : Host) where
  abbrev pub IsKnown : OperatorUpdate H → Type 0
  IsKnown o = (o.update_type ≡ add_operator) ⊎ (o.update_type ≡ remove_operator)

  pub operator_updates-nil : operator_updates H [] ≡ ok []
  unfolding operator_updates
  operator_updates-nil = refl

  pub operator_updates-cons :
      (o : OperatorUpdate H) (os : List (OperatorUpdate H))
      → operator_updates H (o ∷ os)
        ≡ try (update_code o.update_type) (λ update_type.
          try
            (operator_updates H os)
            (λ operator_list. ok (operator_update H update_type o ∷ operator_list)))
  unfolding operator_updates
  operator_updates-cons o os = refl

  operator_updates-IsKnown :
      (os : List (OperatorUpdate H)) {ps : List H.Prim}
      → operator_updates H os ≡ ok ps
      → All IsKnown os
  operator_updates-IsKnown [] h = tt
  operator_updates-IsKnown (o ∷ os) h =
      let (code, e, h1) =
        try-eq-ok (update_code o.update_type) _ (sym (operator_updates-cons o os) ∙ h) in
      let (rest, e', _) = try-eq-ok (operator_updates H os) _ h1 in
      (
        ground (arith, e, ==_iff o.update_type add_operator, ==_iff o.update_type remove_operator),
        operator_updates-IsKnown os e',
      )

  -- A call that succeeds had only updates that add or remove an operator; and with any other update
  -- no contract is called, whatever the other updates are.
  pub custodian_update_operators-IsKnown :
      {S : Type 0} (client : TezosClient H S) (target : Contract H) (signer : Wallet H)
      (os : List (OperatorUpdate H)) (s : S)
      → All IsKnown os
        ⊎ ((e : Error) × (custodian_update_operators H client target signer os s ≡ (err e, s)))
  unfolding custodian_update_operators
  custodian_update_operators-IsKnown client target signer os s =
      elim (Outcome-cases (operator_updates H os)) [
        | inl (ps, q) ↦ inl (operator_updates-IsKnown os q)
        | inr (e, q) ↦ inr (e, simp (q))
      ]
