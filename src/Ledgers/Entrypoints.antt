-- ===== src/Ledgers/Entrypoints.antt =====
-- custodian_entrypoints.go, fa2_entrypoints.go, custodian_originate.go and fa2_originate.go: the
-- Micheline values that are sent to the contracts.
use x4c.Base.{
  String, ℕ, List, [], ◌∷◌, Outcome, ok, err, Error, errorf, Action, lift, ◌>>=◌, if◌then◌else◌,
  try, ◌==◌, nat_eq, ℕ_discrete,
}
use x4c.Base.Int.{ℤ}
use x4c.Base.Text.{to_bytes}
use x4c.Host.{Host, OpCode, d_left, d_right, d_pair, d_elt, Parameters}
use x4c.Tzclient.{TezosClient, Wallet, Contract}

abbrev pub add_operator : ℕ
add_operator = 1

abbrev pub remove_operator : ℕ
remove_operator = 2

abbrev pub update_code : ℕ → Outcome Error OpCode
update_code update_type =
    if update_type == add_operator
    then ok d_left
    else if update_type == remove_operator
    then ok d_right
    else err (errorf "update had unexpected update type")

module _ (H : Host) where
  open H use {
    Prim, new_string, new_bytes, new_nat, new_pair, new_seq, new_code, sequence, binary, pack,
    address_string,
  }

  -- A KYC text is sent packed.
  abbrev pub packed : String → Prim
  packed kyc = new_bytes (pack (new_string kyc))

  unfoldable pub internal_mint_parameters : Contract H → ℤ → Parameters H
  internal_mint_parameters token_address token_id = record {
    entrypoint = "internal_mint";
    value =
        new_seq
          (new_pair (new_string (address_string token_address.address)) (new_nat token_id) ∷ []);
  }

  unfoldable pub internal_transfer_parameters : Contract H → ℤ → ℤ → String → String → Parameters H
  internal_transfer_parameters token_address token_id amount current_kyc new_kyc = record {
    entrypoint = "internal_transfer";
    value = new_seq (
        new_pair (packed current_kyc) (
          new_pair (new_string (address_string token_address.address)) (
            new_seq
              (new_pair (packed new_kyc) (new_pair (new_nat token_id) (new_nat amount)) ∷ [])))
        ∷ []);
  }

  -- CustodianOperatorUpdateInfo
  pub record OperatorUpdate : Type 0 where
    pub owner : String
    pub operator : H.Address
    pub token_id : ℤ
    pub update_type : ℕ

  abbrev pub operator_update : OpCode → OperatorUpdate → Prim
  operator_update update_type operator = new_code update_type (
      new_pair (packed operator.owner)
        (new_pair (new_string (address_string operator.operator)) (new_nat operator.token_id))
      ∷ [])

  unfoldable pub operator_updates : List OperatorUpdate → Outcome Error (List Prim)
  unfolding nat_eq ℕ_discrete
  operator_updates [] = ok []
  operator_updates (operator ∷ update_list) =
      let rest = operator_updates update_list in
      try (update_code operator.update_type) (λ update_type.
        try rest (λ operator_list. ok (operator_update update_type operator ∷ operator_list)))

  abbrev pub update_operators_parameters : List Prim → Parameters H
  update_operators_parameters operator_list = record {
    entrypoint = "update_internal_operators";
    value = sequence operator_list;
  }

  unfoldable pub retire_parameters : Contract H → ℤ → String → ℤ → String → Parameters H
  unfolding to_bytes
  retire_parameters token_address token_id kyc amount reason = record {
    entrypoint = "retire";
    value = new_seq (
        new_pair (new_string (address_string token_address.address)) (
          new_seq (
            new_pair (new_pair (new_nat amount) (new_bytes (to_bytes reason)))
              (new_pair (packed kyc) (new_nat token_id))
            ∷ []))
        ∷ []);
  }

  unfoldable pub add_token_parameters : ℤ → String → String → Parameters H
  unfolding to_bytes
  add_token_parameters token_id title url = record {
    entrypoint = "add_token_id";
    value = new_seq (
        new_pair (new_nat token_id) (
          new_seq (
            binary d_elt (new_string "title" ∷ new_bytes (to_bytes title) ∷ [])
            ∷ binary d_elt (new_string "url" ∷ new_bytes (to_bytes url) ∷ [])
            ∷ []))
        ∷ []);
  }

  unfoldable pub mint_parameters : ℤ → H.Address → ℤ → Parameters H
  mint_parameters token_id token_owner amount = record {
    entrypoint = "mint";
    value = new_seq (
        new_pair (new_pair (new_string (address_string token_owner)) (new_nat amount))
          (new_nat token_id)
        ∷ []);
  }

  unfoldable pub custodian_storage : H.Address → Prim
  custodian_storage owner =
      new_pair
        (new_code d_pair (
          new_pair (new_string (address_string owner)) (new_seq []) ∷ new_seq [] ∷ new_seq [] ∷ []))
        (new_seq [])

  unfoldable pub fa2_storage : H.Address → Prim
  fa2_storage oracle =
      new_pair
        (new_code d_pair (
          new_pair (new_seq []) (new_seq [])
          ∷ new_seq []
          ∷ new_string (address_string oracle)
          ∷ []))
        (new_seq [])

  module _ {S : Type 0} (client : TezosClient H S) where
    unfoldable pub custodian_internal_mint :
        Contract H → Wallet H → Contract H → ℤ → Action S Error String
    unfolding internal_mint_parameters
    custodian_internal_mint target signer token_address token_id =
        client.call_contract signer target (internal_mint_parameters token_address token_id)

    unfoldable pub custodian_internal_transfer :
        Contract H → Wallet H → Contract H → ℤ → ℤ → String → String → Action S Error String
    unfolding internal_transfer_parameters
    custodian_internal_transfer target signer token_address token_id amount current_kyc new_kyc =
        client.call_contract signer target
          (internal_transfer_parameters token_address token_id amount current_kyc new_kyc)

    unfoldable pub custodian_update_operators :
        Contract H → Wallet H → List OperatorUpdate → Action S Error String
    unfolding operator_updates
    custodian_update_operators target signer update_list = do
      operator_list ← lift (operator_updates update_list)
      client.call_contract signer target (update_operators_parameters operator_list)

    unfoldable pub custodian_retire :
        Contract H → Wallet H → Contract H → ℤ → String → ℤ → String → Action S Error String
    unfolding retire_parameters
    custodian_retire target signer token_address token_id kyc amount reason =
        client.call_contract signer target
          (retire_parameters token_address token_id kyc amount reason)

    unfoldable pub fa2_add_token :
        Contract H → Wallet H → ℤ → String → String → Action S Error String
    unfolding add_token_parameters
    fa2_add_token target oracle token_id title url =
        client.call_contract oracle target (add_token_parameters token_id title url)

    unfoldable pub fa2_mint : Contract H → Wallet H → ℤ → H.Address → ℤ → Action S Error String
    unfolding mint_parameters
    fa2_mint target oracle token_id token_owner amount =
        client.call_contract oracle target (mint_parameters token_id token_owner amount)

    unfoldable pub custodian_originate : List ℕ → Wallet H → H.Address → Action S Error (Contract H)
    unfolding custodian_storage
    custodian_originate contract_bytes signer owner =
        client.originate signer contract_bytes (custodian_storage owner)

    unfoldable pub fa2_originate : List ℕ → Wallet H → H.Address → Action S Error (Contract H)
    unfolding fa2_storage
    fa2_originate contract_bytes signer oracle =
        client.originate signer contract_bytes (fa2_storage oracle)
