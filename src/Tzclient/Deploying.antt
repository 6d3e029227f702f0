-- ===== src/Tzclient/Deploying.antt =====
-- What a successful Originate in tzclient.go has sent.
use x4c.Base.{
  ℕ, ◌≡◌, List, some, ok, Option-cases, Outcome-cases, Bool-cases, inl, inr, arith, String,
}
use x4c.Host.{Host}
use x4c.Tzclient.Accounts.{Wallet, Contract, new_contract_with_address}
use x4c.Tzclient.Types.{Client}
use x4c.Tzclient.Chain.{Rpc, retry, max_retries}
use x4c.Tzclient.Calls.{originate}

module _ {H : Host} {S : Type 0} (R : Rpc H S) where
  new_contract_with_address-eq-ok :
      (name text : String) (k : Contract H)
      → new_contract_with_address H name text ≡ ok k
      → H.parse_address text ≡ ok k.address
  unfolding new_contract_with_address
  new_contract_with_address-eq-ok name text k h = elim (Outcome-cases (H.parse_address text)) [
    | inr (e, q) ↦ ground (arith, h, q)
    | inl (address, q) ↦ elim (Bool-cases (H.is_contract address)) [
      | inl yes_contract ↦ ground (arith, h, q, yes_contract)
      | inr no_contract ↦ ground (arith, h, q, no_contract)
    ]
  ]

  -- The code and the storage were deployed from `s` to `s'`, signed with the wallet's key, at the
  -- address of the contract.
  pub record Deployed (w : Wallet H) (code : List ℕ) (storage : H.Prim) (contract : Contract H)
      (s s' : S) : Type 0 where
    pub key : H.PrivateKey
    pub unmarshalled : R.Code
    pub address : H.Address
    pub key_known : w.key ≡ some key
    pub code_unmarshalled : R.unmarshal_code code ≡ ok unmarshalled
    pub deployed :
        retry R.sleep (R.deploy key unmarshalled storage) max_retries (R.init_and_listen s)
        ≡ (ok address, s')
    pub address_read : H.parse_address (H.address_string address) ≡ ok contract.address

  pub originate-Deployed :
      (c : Client H) (w : Wallet H) (code : List ℕ) (storage : H.Prim) (s : S)
      {contract : Contract H} {s' : S}
      → originate R c w code storage s ≡ (ok contract, s')
      → Deployed w code storage contract s s'
  unfolding originate
  originate-Deployed c w code storage s {contract} {s'} h =
      elim (Outcome-cases (R.new_client c.rpc_url)) [
        | inr (e, q0) ↦ ground (arith, h, q0)
        | inl (_, q0) ↦ elim (Option-cases w.key) [
          | inl q1 ↦ ground (arith, h, q0, q1)
          | inr (key, q1) ↦ elim (Outcome-cases (R.unmarshal_code code)) [
            | inr (e, q2) ↦ ground (arith, h, q0, q1, q2)
            | inl (unmarshalled, q2) ↦
                let sent =
                  retry R.sleep (R.deploy key unmarshalled storage) max_retries
                    (R.init_and_listen s) in
                elim (Outcome-cases sent.0) [
                  | inr (e, q3) ↦ ground (arith, h, q0, q1, q2, q3)
                  | inl (address, q3) ↦
                      elim (Outcome-cases
                        (new_contract_with_address H "new" (H.address_string address))) [
                          | inr (e, q4) ↦ ground (arith, h, q0, q1, q2, q3, q4)
                          | inl (made, q4) ↦
                              let same : made ≡ contract = ground (arith, h, q0, q1, q2, q3, q4) in
                              let after : sent.1 ≡ s' = ground (arith, h, q0, q1, q2, q3, q4) in
                              record {
                                key = key;
                                unmarshalled = unmarshalled;
                                address = address;
                                key_known = q1;
                                code_unmarshalled = q2;
                                deployed = ground (arith, q3, after);
                                address_read =
                                    new_contract_with_address-eq-ok "new" (H.address_string address)
                                      contract (rw same at q4);
                              }
                        ]
                ]
          ]
        ]
      ]
