-- ===== src/Contracts/Fa2/Entrypoints.antt =====
-- The entrypoints of fa2.mligo.
use x4c.Base.{
  ℕ, String, List, [], ◌∷◌, map, none, some, Bool, true, false, not, ◌||◌, ok, err, if◌then◌else◌,
  ◌==◌, string_eq, nat_eq, ℕ_discrete,
}
use x4c.Base.Fallible.{◌>>=◌, ◌>>◌}
use x4c.Base.Int.{pos, neg_ℤ, ◌+ℤ◌}
use x4c.Base.Dict.{Dict, lookup, insert, contains}
use x4c.Contracts.Balance.{Address, Bytes, Context, Failing, fold, balance, update_balance}
use x4c.Contracts.Fa2.Types.{
  Owner, Operator, owner_eq, operator_eq, TokenMetadata, Storage, TransferTo, Transfer,
  OperatorData, UpdateOperator, add_operator, remove_operator, MintData, RetireTokens, Entrypoint,
  Operation, emit_retire, call_back,
}

abbrev pub token_undefined : ℕ
token_undefined = 0

abbrev pub insufficient_balance : ℕ
insufficient_balance = 1

abbrev pub permissions_denied : ℕ
permissions_denied = 10

abbrev pub id_already_in_use : ℕ
id_already_in_use = 11

abbrev pub collision : ℕ
collision = 12

unfoldable pub is_operator : Operator → List Operator → Bool
is_operator operator [] = false
is_operator operator (o ∷ operators) = operator == o || is_operator operator operators

abbrev pub set_add : Operator → List Operator → List Operator
set_add operator operators =
    if is_operator operator operators then operators else operator ∷ operators

unfoldable pub set_remove : Operator → List Operator → List Operator
set_remove operator [] = []
set_remove operator (o ∷ operators) =
    let rest = set_remove operator operators in if operator == o then rest else o ∷ rest

-- `failwith code` where a test is false.
abbrev pub require : Bool → ℕ → Failing (Unit {0})
require true code = ok tt
require false code = err code

abbrev pub Result : Type 0
Result = Failing (List Operation × Storage)

module _ (x : Context) where
  abbrev pub may_move : Storage → Address → ℕ → Bool
  may_move storage owner token_id =
      x.sender == owner
      || is_operator
          (record { token_owner = owner; token_operator = x.sender; token_id = token_id })
          storage.operators

  abbrev owner_of : Address → ℕ → Owner
  owner_of owner id = record { token_owner = owner; token_id = id }

  -- The destination is credited before the source is debited.
  unfoldable pub transfer_one : Address → Storage → TransferTo → Failing Storage
  unfolding is_operator string_eq operator_eq update_balance owner_eq neg_ℤ ◌+ℤ◌
  transfer_one from storage p = do
    require (may_move storage from p.token_id) permissions_denied
    credited ←
        update_balance insufficient_balance (owner_of p.to_ p.token_id) (pos p.amount)
          storage.ledger
    ledger ←
        update_balance insufficient_balance (owner_of from p.token_id) (neg_ℤ (pos p.amount))
          credited
    ok (record storage { ledger = ledger })

  unfoldable pub transfer_batch : Storage → Transfer → Failing Storage
  unfolding fold transfer_one
  transfer_batch storage p = fold (transfer_one p.from_) p.txs storage

  unfoldable pub transfer : List Transfer → Storage → Result
  unfolding fold transfer_batch
  transfer param storage = do updated ← fold transfer_batch param storage; ok ([], updated)

  unfoldable pub balance_of : List Owner → Address → Storage → Result
  unfolding balance lookup owner_eq
  balance_of requests callback storage =
      ok (call_back callback (map (λ r. (r, balance r storage.ledger)) requests) ∷ [], storage)

  abbrev operator_of : OperatorData → Operator
  operator_of o = record {
    token_owner = o.owner;
    token_operator = o.operator;
    token_id = o.token_id;
  }

  unfoldable pub update_operator : Storage → UpdateOperator → Failing Storage
  unfolding is_operator set_remove operator_eq string_eq
  update_operator storage (add_operator o) = do
    require (x.sender == o.owner) permissions_denied
    require (not (o.operator == o.owner)) collision
    ok (record storage { operators = set_add (operator_of o) storage.operators })
  update_operator storage (remove_operator o) = do
    require (x.sender == o.owner) permissions_denied
    ok (record storage { operators = set_remove (operator_of o) storage.operators })

  unfoldable pub update_operators : List UpdateOperator → Storage → Result
  unfolding fold update_operator
  update_operators param storage = do updated ← fold update_operator param storage; ok ([], updated)

  -- `storage` is the one before the call, of which only the ledger changes.
  unfoldable pub mint_one : Storage → Storage → MintData → Failing Storage
  unfolding update_balance owner_eq nat_eq ℕ_discrete lookup ◌+ℤ◌
  mint_one storage s p = do
    require (contains p.token_id storage.token_metadata) token_undefined
    ledger ← update_balance insufficient_balance (owner_of p.owner p.token_id) (pos p.qty) s.ledger
    ok (record storage { ledger = ledger })

  unfoldable pub mint_tokens : List MintData → Storage → Result
  unfolding fold mint_one string_eq
  mint_tokens param storage = do
    require (x.sender == storage.oracle) permissions_denied
    updated ← fold (mint_one storage) param storage
    ok ([], updated)

  unfoldable pub retire_one : Storage → Storage → RetireTokens → Failing Storage
  unfolding is_operator string_eq operator_eq update_balance owner_eq neg_ℤ ◌+ℤ◌
  retire_one storage s p = do
    require (may_move s p.retiring_party p.token_id) permissions_denied
    ledger ←
        update_balance insufficient_balance (owner_of p.retiring_party p.token_id)
          (neg_ℤ (pos p.amount)) s.ledger
    ok (record storage { ledger = ledger })

  unfoldable pub retire_tokens : List RetireTokens → Storage → Result
  unfolding fold retire_one
  retire_tokens param storage = do
    updated ← fold (retire_one storage) param storage
    ok (map emit_retire param, updated)

  unfoldable pub add_one : Storage → TokenMetadata → Failing Storage
  unfolding lookup insert nat_eq ℕ_discrete
  add_one s d = do
    require (not (contains d.token_id s.token_metadata)) id_already_in_use
    ok (record s { token_metadata = insert d.token_id d s.token_metadata })

  unfoldable pub add_token_id : List TokenMetadata → Storage → Result
  unfolding fold add_one string_eq
  add_token_id param storage = do
    require (x.sender == storage.oracle) permissions_denied
    updated ← fold add_one param storage
    ok ([], updated)

  unfoldable pub update_contract_metadata : Dict String Bytes → Storage → Result
  unfolding string_eq
  update_contract_metadata param storage = do
    require (x.sender == storage.oracle) permissions_denied
    ok ([], record storage { metadata = param })

  unfoldable pub update_oracle : Address → Storage → Result
  unfolding string_eq
  update_oracle new_oracle storage = do
    require (x.sender == storage.oracle) permissions_denied
    ok ([], record storage { oracle = new_oracle })

unfoldable pub view_balance_of : Owner → Storage → ℕ
unfolding balance lookup owner_eq
view_balance_of o storage = balance o storage.ledger

unfoldable pub view_get_metadata : ℕ → Storage → Failing TokenMetadata
unfolding lookup nat_eq ℕ_discrete
view_get_metadata token_id storage = elim (lookup token_id storage.token_metadata) [
  | none ↦ err token_undefined
  | some m ↦ ok (record { token_id = token_id; token_info = m.token_info })
]

unfoldable pub main : Context → Entrypoint → Storage → Result
unfolding transfer balance_of update_operators mint_tokens retire_tokens add_token_id
    update_contract_metadata update_oracle
main x (Entrypoint.transfer p) = transfer x p
main x (Entrypoint.balance_of requests callback) = balance_of x requests callback
main x (Entrypoint.update_operators p) = update_operators x p
main x (Entrypoint.mint p) = mint_tokens x p
main x (Entrypoint.retire p) = retire_tokens x p
main x (Entrypoint.add_token_id p) = add_token_id x p
main x (Entrypoint.update_contract_metadata p) = update_contract_metadata x p
main x (Entrypoint.update_oracle p) = update_oracle x p
