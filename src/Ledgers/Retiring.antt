-- ===== src/Ledgers/Retiring.antt =====
-- CustodianRetire in custodian_entrypoints.go together with the contract that it calls.
use x4c.Base.{
  ℕ, ◌+◌, String, ◌≡◌, true, List, [], ◌∷◌, ok, ok-injective, sym, subst, ◌∙◌, ◌==◌, if◌then◌else◌,
  arith, refl, err,
}
use x4c.Base.Int.{ℤ, pos, negsuc}
use x4c.Base.Text.{to_bytes}
use x4c.Host.{Host, Parameters}
use x4c.Tzclient.{TezosClient, Wallet, Contract}
use x4c.Contracts.Balance.{Context}
use x4c.Contracts.Michelson.{Michelson, read_seq, read_list}
use x4c.Contracts.Custodian.Types.{
  Token, token_eq, Storage, Others, InternalRetire, Entrypoint, Operation,
}
use x4c.Contracts.Custodian.Entrypoints.{main, may_move}
use x4c.Contracts.Custodian.Parameters.{read_entrypoint}
use x4c.Contracts.Custodian.Backing.{held}
use x4c.Contracts.Custodian.Totals.{retire-held}
use x4c.Contracts.Custodian.Access.{main-IsAllowed}
use x4c.Ledgers.Entrypoints.{retire_parameters, custodian_retire}
use x4c.Ledgers.Encoding.{kyc_bytes, retire_parameters-read}

-- A number that is negative is not read.
pub retire_parameters-natural :
    (H : Host) (M : Michelson H) (token_address : Contract H) (token_id : ℤ) (kyc : String)
    (amount : ℤ) (reason : String) {call : Entrypoint}
    → read_entrypoint M (retire_parameters H token_address token_id kyc amount reason) ≡ ok call
    → (n : ℕ) × (m : ℕ) × (token_id ≡ pos n) × (amount ≡ pos m)
unfolding read_entrypoint retire_parameters read_seq read_list
retire_parameters-natural H M token_address (pos n) kyc (pos m) reason r = (n, m, refl, refl)
retire_parameters-natural H M token_address (negsuc n) kyc (pos m) reason r =
    let (e, negative) = M.as_nat-new_nat_neg n in
    let refused : read_entrypoint M
          (retire_parameters H token_address (negsuc n) kyc (pos m) reason)
        ≡ err e =
      simp (
        M.as_seq-new_seq, M.as_pair-new_pair, M.as_string-new_string, M.as_nat-new_nat,
        M.as_bytes-new_bytes, negative,
      ) in
    ground (arith, r, refused)
retire_parameters-natural H M token_address token_id kyc (negsuc m) reason r =
    let (e, negative) = M.as_nat-new_nat_neg m in
    let refused : read_entrypoint M
          (retire_parameters H token_address token_id kyc (negsuc m) reason)
        ≡ err e =
      simp (M.as_seq-new_seq, M.as_pair-new_pair, M.as_string-new_string, negative) in
    ground (arith, r, refused)

module _ (H : Host) (M : Michelson H) (x : Context) (others : Others) where
  -- Where the custodian contract accepts the call that a retirement sends, it takes exactly the
  -- amount of exactly that token out of its ledger, and the sender was the custodian or an operator
  -- of the owner.
  pub retire_parameters-takes :
      (token_address : Contract H) (token_id : ℕ) (kyc : String) (amount : ℕ) (reason : String)
      {call : Entrypoint} (s : Storage) {s' : Storage} {ops : List Operation}
      → read_entrypoint M (retire_parameters H token_address (pos token_id) kyc (pos amount) reason)
        ≡ ok call
      → main x others call s ≡ ok (ops, s')
      → (may_move x s (kyc_bytes H M kyc) token_id ≡ true)
        × ((t : Token)
            → held t s'.ledger
                + (if t == record {
                  token_address = H.address_string token_address.address;
                  token_id = token_id;
                }
                    then amount
                    else 0)
              ≡ held t s.ledger)
  unfolding main
  retire_parameters-takes token_address token_id kyc amount reason s {s' = s'} {ops = ops} r h =
      let sent : InternalRetire = record {
        token_address = H.address_string token_address.address;
        txs =
            record {
              retiring_party_kyc = kyc_bytes H M kyc;
              token_id = token_id;
              amount = amount;
              retiring_data = to_bytes reason;
            }
            ∷ [];
      } in
      let same =
        ok-injective
          (sym r ∙ retire_parameters-read H M token_address token_id kyc amount reason) in
      let h' = subst (λ c. main x others c s ≡ ok (ops, s')) same h in
      let allowed = main-IsAllowed x s others (Entrypoint.retire (sent ∷ [])) h' in
      (allowed.0.0, λ t. omega (arith, retire-held x others t (sent ∷ []) s h'))

  -- Exactly the amount of exactly that token is taken out of the ledger, by one who may move the
  -- tokens of the KYC text.
  pub record Taken (token_address : Contract H) (token_id amount : ℤ) (kyc : String)
      (before after : Storage) : Type 0 where
    token_number : ℕ
    amount_number : ℕ
    token_natural : token_id ≡ pos token_number
    amount_natural : amount ≡ pos amount_number
    permitted : may_move x before (kyc_bytes H M kyc) token_number ≡ true
    taken :
        (t : Token)
        → held t after.ledger
            + (if t == record {
              token_address = H.address_string token_address.address;
              token_id = token_number;
            }
                then amount_number
                else 0)
          ≡ held t before.ledger

  module _ {S : Type 0} (client : TezosClient H S) (signer : Wallet H) (contract : Contract H)
      (view : S → Storage) where
    -- The node has a call of the contract by the signer run by the custodian contract, whose storage
    -- in a state is what `view` says: where the call succeeds, the contract has read it and accepted
    -- it. Nobody else's call comes between.
    abbrev pub RunsCustodian : Type 0
    RunsCustodian =
        (p : Parameters H) (s : S) (op_hash : String) (s' : S)
        → client.call_contract signer contract p s ≡ (ok op_hash, s')
        → (call : Entrypoint) × (ops : List Operation) × (read_entrypoint M p ≡ ok call)
          × (main x others call (view s) ≡ ok (ops, view s'))

    pub custodian_retire-Taken :
        (token_address : Contract H) (token_id amount : ℤ) (kyc reason : String) (s : S)
        {op_hash : String} {s' : S}
        → RunsCustodian
        → custodian_retire H client contract signer token_address token_id kyc amount reason s
          ≡ (ok op_hash, s')
        → Taken token_address token_id amount kyc (view s) (view s')
    unfolding custodian_retire
    custodian_retire-Taken token_address token_id amount kyc reason s {op_hash} {s'} runs h =
        let (call, ops, read, ran) = runs _ s op_hash s' h in
        let (n, m, token_natural, amount_natural) =
          retire_parameters-natural H M token_address token_id kyc amount reason read in
        let (permitted, taken) =
          retire_parameters-takes token_address n kyc m reason (view s)
            (rw (token_natural, amount_natural) at read) ran in
        record {
          token_number = n;
          amount_number = m;
          token_natural = token_natural;
          amount_natural = amount_natural;
          permitted = permitted;
          taken = taken;
        }
