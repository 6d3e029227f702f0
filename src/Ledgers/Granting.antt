-- ===== src/Ledgers/Granting.antt =====
-- What the custodian contract reads in the updates of operators that custodian_entrypoints.go sends.
use x4c.Base.{
  ℕ, String, ◌≡◌, refl, Bool, true, false, List, [], ◌∷◌, map, ok, nat_eq, string_eq, ℕ_discrete,
}
use x4c.Base.Int.{pos}
use x4c.Host.{Host, OpCode, d_left, d_right}
use x4c.Contracts.Michelson.{
  Michelson, read_list, read_seq, read_pair, read_pair-new_pair, read_as-eq-ok,
}
use x4c.Contracts.Custodian.Types.{
  Operator, UpdateInternalOperator, add_operator, remove_operator, Entrypoint,
}
use x4c.Contracts.Custodian.Parameters.{read_update, read_operator, read_entrypoint}
use x4c.Ledgers.Entrypoints.{
  OperatorUpdate, operator_updates, update_operators_parameters, update_code, operator_update,
}
use x4c.Ledgers.Entrypoints as Sent
use x4c.Ledgers.Encoding.{kyc_bytes}
use x4c.Ledgers.Operators.{operator_updates-nil, operator_updates-cons}

module _ (H : Host) (M : Michelson H) where
  open M use {as_string, as_bytes, as_nat, as_string-new_string, as_bytes-new_bytes, as_nat-new_nat}

  -- An update that is asked for: whether it adds, and whom it is about.
  pub record Grant : Type 0 where
    pub adds : Bool
    pub owner : String
    pub operator : H.Address
    pub token_id : ℕ

  abbrev pub type_of : Bool → ℕ
  type_of true = Sent.add_operator
  type_of false = Sent.remove_operator

  -- The update that the Go code is given, and the one that the contract is meant to see.
  abbrev pub as_update : Grant → OperatorUpdate H
  as_update g = record {
    owner = g.owner;
    operator = g.operator;
    token_id = pos g.token_id;
    update_type = type_of g.adds;
  }

  abbrev as_case : Bool → Operator → UpdateInternalOperator
  as_case true o = add_operator o
  as_case false o = remove_operator o

  abbrev pub as_seen : Grant → UpdateInternalOperator
  as_seen g = as_case g.adds (record {
    token_owner = kyc_bytes H M g.owner;
    token_operator = H.address_string g.operator;
    token_id = g.token_id;
  })

  operator-read :
      (g : Grant)
      → read_operator M (
          H.new_pair
            (H.new_bytes (kyc_bytes H M g.owner))
            (H.new_pair (H.new_string (H.address_string g.operator)) (H.new_nat (pos g.token_id))))
        ≡ ok (record {
          token_owner = kyc_bytes H M g.owner;
          token_operator = H.address_string g.operator;
          token_id = g.token_id;
        })
  operator-read g = read_as-eq-ok _ (
      read_pair-new_pair M as_bytes (read_pair M as_string as_nat) (as_bytes-new_bytes _) (
        read_pair-new_pair M as_string as_nat (as_string-new_string _) (as_nat-new_nat g.token_id)))

  -- Each update is sent under the code of its case, under which the contract reads it.
  abbrev code_of : Bool → OpCode
  code_of true = d_left
  code_of false = d_right

  update_code-sent : (adds : Bool) → update_code (type_of adds) ≡ ok (code_of adds)
  unfolding nat_eq ℕ_discrete
  update_code-sent true = refl
  update_code-sent false = refl

  case-read :
      (adds : Bool) (p : H.Prim) {o : Operator}
      → read_operator M p ≡ ok o
      → read_update M (H.new_code (code_of adds) (p ∷ [])) ≡ ok (as_case adds o)
  case-read true p h = rw (M.as_code-new_code d_left (p ∷ []), h) refl
  case-read false p h = rw (M.as_code-new_code d_right (p ∷ []), h) refl

  abbrev sent : List Grant → List H.Prim
  sent [] = []
  sent (g ∷ gs) = let rest = sent gs in operator_update H (code_of g.adds) (as_update g) ∷ rest

  operator_updates-sent : (gs : List Grant) → operator_updates H (map as_update gs) ≡ ok (sent gs)
  operator_updates-sent [] = operator_updates-nil H
  operator_updates-sent (g ∷ gs) =
      rw
        (
          operator_updates-cons H (as_update g) (map as_update gs),
          update_code-sent g.adds,
          operator_updates-sent gs,
        )
        refl

  read_list-sent : (gs : List Grant) → read_list (read_update M) (sent gs) ≡ ok (map as_seen gs)
  unfolding read_list
  read_list-sent [] = refl
  read_list-sent (g ∷ gs) = simp (case-read g.adds _ (operator-read g), read_list-sent gs)

  read_seq-sent :
      (gs : List Grant) → read_seq M (read_update M) (H.sequence (sent gs)) ≡ ok (map as_seen gs)
  unfolding read_seq
  read_seq-sent gs = simp (M.as_seq-sequence (sent gs), read_list-sent gs)

  -- A list of updates is encoded, and the custodian contract reads each as the addition or the removal
  -- that was asked for, of the operator for the packed KYC text and the token.
  pub update_operators_parameters-read :
      (gs : List Grant)
      → (ps : List H.Prim) × (operator_updates H (map as_update gs) ≡ ok ps)
        × (read_entrypoint M (update_operators_parameters H ps)
            ≡ ok (Entrypoint.update_internal_operators (map as_seen gs)))
  unfolding read_entrypoint
  update_operators_parameters-read gs =
      (sent gs, operator_updates-sent gs, read_as-eq-ok _ (read_seq-sent gs))
