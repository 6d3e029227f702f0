-- ===== src/Contracts/Custodian/Guards.antt =====
-- What the entrypoints of custodian.mligo share: the codes of errors, the set of operators, the key
-- of the contract's own holdings, and `failwith` under a test.
use x4c.Base.{ℕ, List, [], ◌∷◌, Bool, true, false, ◌||◌, ok, err, if◌then◌else◌, ◌==◌}
use x4c.Base.Text.{to_bytes}
use x4c.Contracts.Balance.{Bytes, Failing}
use x4c.Contracts.Custodian.Types.{Operator, operator_eq, Storage, Operation}

abbrev pub permissions_denied : ℕ
permissions_denied = 0

abbrev pub address_not_found : ℕ
address_not_found = 1

abbrev pub insufficient_balance : ℕ
insufficient_balance = 2

abbrev pub call_view_failed : ℕ
call_view_failed = 3

-- `Set.mem`, `Set.add` and `Set.remove`
unfoldable pub is_operator : Operator → List Operator → Bool
is_operator operator [] = false
is_operator operator (o ∷ operators) = operator == o || is_operator operator operators

abbrev pub set_add : Operator → List Operator → List Operator
set_add operator operators =
    if is_operator operator operators then operators else operator ∷ operators

unfoldable pub set_remove : Operator → List Operator → List Operator
set_remove operator [] = []
set_remove operator (o ∷ operators) =
    let rest = set_remove operator operators in if operator == o then rest else o ∷ rest

-- `Bytes.pack` of a text: the tags 5 and 1, four bytes of length and the bytes of the text.
unfoldable pub packed_self : Bytes
unfolding to_bytes
packed_self = 5 ∷ 1 ∷ 0 ∷ 0 ∷ 0 ∷ 4 ∷ to_bytes "self"

-- `guard e code`: `failwith code` where `e` is false.
abbrev pub require : Bool → ℕ → Failing (Unit {0})
require true code = ok tt
require false code = err code

abbrev pub Result : Type 0
Result = Failing (List Operation × Storage)
