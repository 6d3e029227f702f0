-- ===== src/Tzclient/Lookup.antt =====
-- What ContractByName in tzclient.go finds, whatever the order in which Go ranges over the map.
use mathlib.Core.List.{Mem, mem-cons_self, mem-cons_of_mem, eq-or-mem_of_mem-cons, not-mem-nil}
use mathlib.Core.List.Perm
use mathlib.Core.Logic.{∥∥₁_elim}
use mathlib.Core.HLevel.{⊥_prop}
use x4c.Base.{
  String, ◌≡◌, ap, refl, List, [], ◌∷◌, none, some, ok, err, Error, ◌⊎◌, inl, inr, Option-cases,
  Bool-cases, ◌==◌, ==_iff, ◌||◌, string_eq, if◌then◌else◌, arith,
}
use x4c.Base.Dict.{lookup, MapOrder}
use x4c.Host.{Host}
use x4c.Tzclient.Accounts.{Contract}
use x4c.Tzclient.Types.{Client}
use x4c.Tzclient.Names.{find_contract, contract_by_name}

module _ {H : Host} where
  -- A contract has a name if it is stored as its own, or is the text of its address.
  abbrev pub Matches : String → Contract H → Type 0
  Matches name k = (k.name ≡ name) ⊎ (H.address_string k.address ≡ name)

  find_contract-nil : (name : String) → find_contract {H = H} [] name ≡ none
  unfolding find_contract
  find_contract-nil name = refl

  find_contract-cons :
      (n : String) (k : Contract H) (rest : List (String × Contract H)) (name : String)
      → find_contract ((n, k) ∷ rest) name ≡ (
          if k.name == name || H.address_string k.address == name
          then some k
          else find_contract rest name)
  unfolding find_contract
  find_contract-cons n k rest name = refl

  find_contract-some :
      (entries : List (String × Contract H)) (name : String) (k : Contract H)
      → find_contract entries name ≡ some k
      → (n : String) × Mem (n, k) entries × Matches name k
  find_contract-some [] name k h = ground (arith, h, find_contract-nil name)
  find_contract-some ((m, j) ∷ rest) name k h =
      let c = find_contract-cons m j rest name in
      elim (Bool-cases (j.name == name || H.address_string j.address == name)) [
        | inl e ↦
            let same : j ≡ k = ground (arith, h, c, e) in
            (
              m,
              rw (← same) mem-cons_self,
              ground (arith, e, same, ==_iff j.name name, ==_iff (H.address_string j.address) name),
            )
        | inr e ↦
            let (n, member, matches) = find_contract-some rest name k (ground (arith, h, c, e)) in
            (n, mem-cons_of_mem (m, j) member, matches)
      ]

  find_contract-none :
      (entries : List (String × Contract H)) (name : String)
      → find_contract entries name ≡ none
      → (n : String) (k : Contract H) → Mem (n, k) entries
      → ¬ Matches name k
  find_contract-none [] name h n k member _ = not-mem-nil member
  find_contract-none ((m, j) ∷ rest) name h n k member matches =
      let c = find_contract-cons m j rest name in
      ∥∥₁_elim (eq-or-mem_of_mem-cons member) ⊥_prop (λ d. elim d [
        | inl e ↦
            let same : k ≡ j = ap (λ r. r.1) e in
            ground (
              arith,
              h,
              c,
              same,
              matches,
              ==_iff j.name name,
              ==_iff (H.address_string j.address) name,
            )
        | inr member' ↦ find_contract-none rest name (ground (arith, h, c)) n k member' matches
      ])

  -- A contract that is found is the one under the name, or one of the client's that has the name or
  -- the address; and where none is found, there is none of these.
  pub contract_by_name_lem :
      (O : MapOrder) (c : Client H) (name : String)
      → ((k : Contract H)
          → contract_by_name O c name ≡ ok k
          → (lookup name c.contracts ≡ some k)
            ⊎ ((n : String) × Mem (n, k) c.contracts × Matches name k))
        × ((e : Error)
            → contract_by_name O c name ≡ err e
            → (lookup name c.contracts ≡ none)
              × ((n : String) (k : Contract H) → Mem (n, k) c.contracts → ¬ Matches name k))
  unfolding contract_by_name
  contract_by_name_lem O c name =
      let entries = O.order String (Contract H) c.contracts in
      let perm = O.order-perm String (Contract H) c.contracts in
      elim (Option-cases (lookup name c.contracts)) [
        | inr (k, q) ↦ (λ k' h. inl (ground (arith, q, h)), λ e h. ground (arith, q, h))
        | inl q ↦ elim (Option-cases (find_contract entries name)) [
          | inr (k, f) ↦ (
            λ k' h.
                let (n, member, matches) =
                  find_contract-some entries name k' (ground (arith, q, f, h)) in
                inr (n, (Perm.mem_iff perm).0 member, matches),
            λ e h. ground (arith, q, f, h),
          )
          | inl f ↦ (
            λ k h. ground (arith, q, f, h),
            λ e h. (
              q,
              λ n k member. find_contract-none entries name f n k ((Perm.mem_iff perm).1 member),
            ),
          )
        ]
      ]
