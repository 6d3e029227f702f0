-- ===== src/Contracts/Custodian/Entrypoints.antt =====
-- The entrypoints of custodian.mligo.
use x4c.Contracts.Custodian.Guards.{
  Result, address_not_found, call_view_failed, insufficient_balance, is_operator, packed_self,
  permissions_denied, require, set_add, set_remove,
}
use x4c.Base.{
  ℕ, String, List, [], ◌∷◌, ◌++◌, map, flat_map, none, some, Bool, ◌||◌, ok, err, try,
  if◌then◌else◌, ◌==◌, string_eq, nat_eq,
}
use x4c.Base.Fallible.{◌>>=◌, ◌>>◌}
use x4c.Base.Int.{pos, ◌+ℤ◌, neg_ℤ, ltb_ℤ, eqb_ℤ, sub_ℕ}
use x4c.Base.Dict.{lookup}
use x4c.Contracts.Balance.{Address, Bytes, Context, Failing, fold, balance, update_balance}
use x4c.Contracts.Custodian.Types.{
  Token, Owner, token_eq, owner_eq, operator_eq, Storage, InternalTransferTo, InternalTransfer,
  TransferTo, ExternalTransferBatch, ExternalTransfer, UpdateInternalOperator, add_operator,
  remove_operator, InternalRetireData, InternalRetire, Entrypoint, EmitInternalMint, Operation,
  emit_internal_transfer, emit_internal_mint, emit_retire, call_transfer, call_retire, Others,
}

module _ (x : Context) where
  -- The sender is the custodian, or an operator of the owner for the token.
  abbrev pub may_move : Storage → Bytes → ℕ → Bool
  may_move storage owner token_id =
      x.sender == storage.custodian
      || is_operator
          (record { token_owner = owner; token_operator = x.sender; token_id = token_id })
          storage.operators

  abbrev token_of : Address → ℕ → Token
  token_of address id = record { token_address = address; token_id = id }

  abbrev owner_of : Bytes → Token → Owner
  owner_of kyc token = record { kyc = kyc; token = token }

  -- The destination is credited before the source is debited.
  unfoldable pub transfer_one : InternalTransfer → Storage → InternalTransferTo → Failing Storage
  unfolding is_operator string_eq operator_eq update_balance owner_eq neg_ℤ ◌+ℤ◌
  transfer_one transfer storage destination = do
    require (may_move storage transfer.from_ destination.token_id) permissions_denied
    let token = token_of transfer.token_address destination.token_id
    credited ←
        update_balance insufficient_balance (owner_of destination.to_ token)
          (pos destination.amount) storage.ledger
    ledger ←
        update_balance insufficient_balance (owner_of transfer.from_ token)
          (neg_ℤ (pos destination.amount)) credited
    ok (record storage { ledger = ledger })

  unfoldable pub transfer_batch : Storage → InternalTransfer → Failing Storage
  unfolding fold transfer_one
  transfer_batch storage transfer = fold (transfer_one transfer) transfer.txs storage

  abbrev pub transfer_event : InternalTransfer → InternalTransferTo → Operation
  transfer_event transfer destination = emit_internal_transfer (record {
    source = transfer.from_;
    destination = destination.to_;
    token = token_of transfer.token_address destination.token_id;
    amount = destination.amount;
  })

  unfoldable pub internal_transfer : List InternalTransfer → Storage → Result
  unfolding fold transfer_batch
  internal_transfer params storage = do
    updated ← fold transfer_batch params storage
    ok (flat_map (λ transfer. map (transfer_event transfer) transfer.txs) params, updated)

  module _ (others : Others) where
    -- What a mint would add: the balance that the FA2 contract reports, less what is recorded.
    unfoldable pub mint_update : Storage → Token → Failing EmitInternalMint
    unfolding balance lookup token_eq
    mint_update storage token =
        elim (others.view_balance_of token.token_address x.self_address token.token_id) [
          | none ↦ err call_view_failed
          | some external_balance ↦
              let diff = sub_ℕ external_balance (balance token storage.external_ledger) in
              if ltb_ℤ diff (pos 0)
              then err insufficient_balance
              else ok (record { token = token; amount = diff; new_total = external_balance })
        ]

    -- Every update is computed from the storage before the call.
    unfoldable pub mint_updates : Storage → List Token → Failing (List EmitInternalMint)
    unfolding mint_update
    mint_updates storage [] = ok []
    mint_updates storage (token ∷ params) =
        let rest = mint_updates storage params in
        try (mint_update storage token) (λ update. try rest (λ updates. ok (update ∷ updates)))

    unfoldable pub apply_mint : Storage → EmitInternalMint → Failing Storage
    unfolding update_balance owner_eq token_eq ◌+ℤ◌ packed_self
    apply_mint storage update = do
      ledger ←
          update_balance insufficient_balance (owner_of packed_self update.token) update.amount
            storage.ledger
      external_ledger ←
          update_balance insufficient_balance update.token update.amount storage.external_ledger
      ok (record storage { ledger = ledger; external_ledger = external_ledger })

    -- `filter_map`: an event for each update that adds something.
    unfoldable pub mint_events : List EmitInternalMint → List Operation
    mint_events [] = []
    mint_events (update ∷ updates) =
        let rest = mint_events updates in
        if eqb_ℤ update.amount (pos 0) then rest else emit_internal_mint update ∷ rest

    unfoldable pub internal_mint : List Token → Storage → Result
    unfolding fold mint_updates apply_mint mint_events string_eq
    internal_mint params storage = do
      require (x.sender == storage.custodian) permissions_denied
      update_list ← mint_updates storage params
      updated ← fold apply_mint update_list storage
      ok (mint_events update_list, updated)

    -- Both ledgers lose an amount of a token that an owner held.
    unfoldable pub take_out : Owner → ℕ → Storage → Failing Storage
    unfolding update_balance owner_eq token_eq neg_ℤ ◌+ℤ◌
    take_out owner amount storage = do
      ledger ← update_balance insufficient_balance owner (neg_ℤ (pos amount)) storage.ledger
      external_ledger ←
          update_balance insufficient_balance owner.token (neg_ℤ (pos amount))
            storage.external_ledger
      ok (record storage { ledger = ledger; external_ledger = external_ledger })

    unfoldable pub external_one : Address → Bytes → Storage → TransferTo → Failing Storage
    unfolding take_out
    external_one address from storage p =
        take_out (owner_of from (token_of address p.token_id)) p.amount storage

    unfoldable pub external_batch : Address → Storage → ExternalTransferBatch → Failing Storage
    unfolding fold external_one
    external_batch address storage p = fold (external_one address p.from_) p.txs storage

    unfoldable pub external_group : Storage → ExternalTransfer → Failing Storage
    unfolding fold external_batch
    external_group storage p = fold (external_batch p.token_address) p.txn_batch storage

    -- One operation for each element, if the contract that it calls has the entrypoint.
    unfoldable pub calls :
        {A : Type 0} → String → (A → Address) → (A → Operation) → List A → Failing (List Operation)
    calls entrypoint address call [] = ok []
    calls entrypoint address call (p ∷ param) =
        let rest = calls entrypoint address call param in
        if others.has_entrypoint entrypoint (address p)
        then try rest (λ ops. ok (call p ∷ ops))
        else err address_not_found

    abbrev pub transfer_call : ExternalTransfer → Operation
    transfer_call p =
        call_transfer p.token_address
          (map (λ b. record { from_ = x.self_address; txs = b.txs }) p.txn_batch)

    unfoldable pub external_transfer : List ExternalTransfer → Storage → Result
    unfolding fold external_group calls string_eq
    external_transfer param storage = do
      require (x.sender == storage.custodian) permissions_denied
      updated ← fold external_group param storage
      ops ← calls "%transfer" (λ p. p.token_address) transfer_call param
      ok (ops, updated)

    unfoldable pub retire_one : Address → Storage → InternalRetireData → Failing Storage
    unfolding take_out is_operator string_eq operator_eq
    retire_one address storage p = do
      require (may_move storage p.retiring_party_kyc p.token_id) permissions_denied
      take_out (owner_of p.retiring_party_kyc (token_of address p.token_id)) p.amount storage

    unfoldable pub retire_batch : Storage → InternalRetire → Failing Storage
    unfolding fold retire_one
    retire_batch storage p = fold (retire_one p.token_address) p.txs storage

    abbrev pub retire_call : InternalRetire → Operation
    retire_call p = call_retire p.token_address (
        map
          (λ tx. record {
            retiring_party = x.self_address;
            token_id = tx.token_id;
            amount = tx.amount;
            retiring_data = tx.retiring_data;
          })
          p.txs)

    abbrev pub retire_event : InternalRetire → InternalRetireData → Operation
    retire_event p d = emit_retire (record {
      retiring_party = x.source;
      retiring_party_kyc = d.retiring_party_kyc;
      token = token_of p.token_address d.token_id;
      amount = d.amount;
      retiring_data = d.retiring_data;
    })

    unfoldable pub retire : List InternalRetire → Storage → Result
    unfolding fold retire_batch calls
    retire param storage = do
      updated ← fold retire_batch param storage
      ops_retire_tokens ← calls "%retire" (λ p. p.token_address) retire_call param
      ok (ops_retire_tokens ++ flat_map (λ p. map (retire_event p) p.txs) param, updated)

  unfoldable pub update_internal_operator : Storage → UpdateInternalOperator → Storage
  unfolding is_operator set_remove operator_eq
  update_internal_operator storage (add_operator o) = record storage {
    operators = set_add o storage.operators;
  }
  update_internal_operator storage (remove_operator o) = record storage {
    operators = set_remove o storage.operators;
  }

  unfoldable pub update_all : Storage → List UpdateInternalOperator → Storage
  unfolding update_internal_operator
  update_all storage [] = storage
  update_all storage (p ∷ param) = update_all (update_internal_operator storage p) param

  unfoldable pub update_internal_operators : List UpdateInternalOperator → Storage → Result
  unfolding update_all string_eq
  update_internal_operators param storage = do
    require (x.sender == storage.custodian) permissions_denied
    ok ([], update_all storage param)

  unfoldable pub update_custodian : Address → Storage → Result
  unfolding string_eq
  update_custodian new_custodian storage = do
    require (x.sender == storage.custodian) permissions_denied
    ok ([], record storage { custodian = new_custodian })

unfoldable pub view_balance_of : Owner → Storage → ℕ
unfolding balance lookup owner_eq
view_balance_of owner storage = balance owner storage.ledger

unfoldable pub main : Context → Others → Entrypoint → Storage → Result
unfolding internal_transfer internal_mint external_transfer update_internal_operators retire
    update_custodian
main x others (Entrypoint.internal_transfer p) = internal_transfer x p
main x others (Entrypoint.internal_mint p) = internal_mint x others p
main x others (Entrypoint.external_transfer p) = external_transfer x others p
main x others (Entrypoint.update_internal_operators p) = update_internal_operators x p
main x others (Entrypoint.retire p) = retire x others p
main x others (Entrypoint.update_custodian p) = update_custodian x p
