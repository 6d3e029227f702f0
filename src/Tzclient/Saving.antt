-- ===== src/Tzclient/Saving.antt =====
-- The file of contracts that SaveContract in tzclient.go writes, as LoadClient reads it.
use mathlib.Core.List.{Mem, mem-cons_self, mem-cons_of_mem, eq-or-mem_of_mem-cons, not-mem-nil}
use mathlib.Core.List.Perm
use mathlib.Core.Logic.{∥∥₁_elim}
use mathlib.Core.HLevel.{⊥_prop, hedberg}
use x4c.Base.{
  String, ◌≡◌, refl, sym, ◌∙◌, ap, List, [], ◌∷◌, Option, none, some, ok, ◌⊎◌, inl, inr,
  Option-cases, Bool-cases, ◌≢◌, ◌==◌, ==_iff, string_eq, string_dec, if◌then◌else◌, arith, try,
  map_err, wrap, true,
}
use x4c.Base.Dict.{Dict, lookup, insert, lookup-insert, NodupKeys, MapOrder}
use x4c.Json.{Raw, unmarshal, decode_items, decode_slice, decode_struct}
use x4c.Host.{Host}
use x4c.Tzclient.Accounts.{Contract, new_contract_with_address}
use x4c.Tzclient.Load.{
  ClientValue, value_table, decode_values, load_contracts, read_contracts, Files,
}
use x4c.Tzclient.Names.{contracts_file, encode_contracts}

option_string_dec : Discrete (Option String)
option_string_dec = hlevel string_dec

module _ {H : Host} where
  -- A contract that is under its own name, and whose address is read back from its text.
  pub record IsStored (entry : String × Contract H) : Type 0 where
    pub own_name : entry.0 ≡ entry.1.name
    pub address_read : H.parse_address (H.address_string entry.1.address) ≡ ok entry.1.address
    pub address_of_contract : H.is_contract entry.1.address ≡ true

  abbrev values : List (String × Contract H) → List ClientValue
  values [] = []
  values ((_, k) ∷ entries) =
      let rest = values entries in
      record { name = k.name; value = H.address_string k.address } ∷ rest

  encode_contracts-decode :
      (entries : List (String × Contract H))
      → decode_items
          (decode_struct value_table)
          (record { name = ""; value = "" })
          (encode_contracts entries)
        ≡ ok (values entries)
  unfolding decode_items encode_contracts decode_struct
  encode_contracts-decode [] = refl
  encode_contracts-decode (_ ∷ entries) = simp (encode_contracts-decode entries)

  -- What is written decodes to the names and addresses.
  contracts_file-decode :
      (O : MapOrder) (contracts : Dict String (Contract H))
      → unmarshal decode_values (some (contracts_file O contracts)) []
        ≡ ok (values (O.order String (Contract H) contracts))
  unfolding contracts_file decode_values decode_slice
  contracts_file-decode O contracts =
      encode_contracts-decode (O.order String (Contract H) contracts)

  -- The contracts of a list, put into a map one by one.
  abbrev stored : List (String × Contract H) → Dict String (Contract H) → Dict String (Contract H)
  stored [] d = d
  stored ((_, k) ∷ entries) d = stored entries (insert k.name k d)

  new_contract-IsStored :
      (entry : String × Contract H)
      → IsStored entry
      → new_contract_with_address H entry.1.name (H.address_string entry.1.address) ≡ ok entry.1
  unfolding new_contract_with_address
  new_contract-IsStored entry i = simp (i.address_read, i.address_of_contract)

  load_contracts-values :
      (entries : List (String × Contract H)) (d : Dict String (Contract H))
      → ((entry : String × Contract H) → Mem entry entries → IsStored entry)
      → load_contracts H (values entries) d ≡ ok (stored entries d)
  unfolding load_contracts
  load_contracts-values [] d i = refl
  load_contracts-values (entry ∷ entries) d i = simp (
    new_contract-IsStored entry (i entry mem-cons_self),
    load_contracts-values entries (insert entry.1.name entry.1 d)
        (λ e m. i e (mem-cons_of_mem entry m)),
  )

  -- The text of the address that is stored under a name.
  abbrev pub address_under : String → Dict String (Contract H) → Option String
  address_under n d = elim (lookup n d) [ none ↦ none | some k ↦ some (H.address_string k.address) ]

  lookup-cons :
      (n j : String) (v : Contract H) (d : Dict String (Contract H))
      → lookup n ((j, v) ∷ d) ≡ (if n == j then some v else lookup n d)
  unfolding lookup
  lookup-cons n j v d = refl

  lookup-nil : (n : String) → lookup {V = Contract H} n [] ≡ none
  unfolding lookup
  lookup-nil n = refl

  lookup-Mem :
      (n : String) (k : Contract H) (d : Dict String (Contract H))
      → lookup n d ≡ some k
      → Mem (n, k) d
  lookup-Mem n k [] h = ground (arith, h, lookup-nil n)
  lookup-Mem n k ((j, v) ∷ d) h =
      let c = lookup-cons n j v d in
      elim (Bool-cases (n == j)) [
        | inl e ↦
            let value : v ≡ k = ground (arith, h, c, e) in
            let key : j ≡ n = sym ((==_iff n j).0 e) in rw (← value, ← key) mem-cons_self
        | inr e ↦ mem-cons_of_mem (j, v) (lookup-Mem n k d (ground (arith, h, c, e)))
      ]

  address_under-Mem :
      (n : String) (k : Contract H) (d : Dict String (Contract H))
      → NodupKeys d
      → Mem (n, k) d
      → address_under n d ≡ some (H.address_string k.address)
  address_under-Mem n k [] u m = absurd (not-mem-nil m)
  address_under-Mem n k ((j, v) ∷ d) (fresh, u) m =
      let c = lookup-cons n j v d in
      ∥∥₁_elim (eq-or-mem_of_mem-cons m) (hedberg option_string_dec _ _) (λ e. elim e [
        | inl same ↦
            let key : n ≡ j = ap (λ r. r.0) same in
            let value : k ≡ v = ap (λ r. r.1) same in ground (arith, key, value, c, ==_iff n j)
        | inr m' ↦ ground (arith, fresh, c, ==_iff n j, address_under-Mem n k d u m')
      ])

  stored-some :
      (entries : List (String × Contract H)) (d : Dict String (Contract H)) (n : String)
      (k : Contract H)
      → lookup n (stored entries d) ≡ some k
      → ((m : String) × Mem (m, k) entries × (k.name ≡ n)) ⊎ (lookup n d ≡ some k)
  stored-some [] d n k h = inr h
  stored-some ((m, v) ∷ entries) d n k h = elim (stored-some entries (insert v.name v d) n k h) [
    | inl (j, member, name) ↦ inl (j, mem-cons_of_mem (m, v) member, name)
    | inr l ↦
        let c = lookup-insert n v.name v d in
        elim (Bool-cases (n == v.name)) [
          | inl e ↦
              let value : v ≡ k = ground (arith, l, c, e) in
              inl (
                m,
                rw (← value) mem-cons_self,
                ap (λ r. r.name) (sym value) ∙ sym ((==_iff n v.name).0 e),
              )
          | inr e ↦ inr (ground (arith, l, c, e))
        ]
  ]

  stored-none :
      (entries : List (String × Contract H)) (d : Dict String (Contract H)) (n : String)
      → lookup n (stored entries d) ≡ none
      → (lookup n d ≡ none) × ((m : String) (k : Contract H) → Mem (m, k) entries → k.name ≢ n)
  stored-none [] d n h = (h, λ m k member _. not-mem-nil member)
  stored-none ((j, v) ∷ entries) d n h =
      let (l, others) = stored-none entries (insert v.name v d) n h in
      let c = lookup-insert n v.name v d in
      (
        ground (arith, l, c, ==_iff n v.name),
        λ m k member at. ∥∥₁_elim (eq-or-mem_of_mem-cons member) ⊥_prop (λ e. elim e [
          | inl same ↦
              let value : k ≡ v = ap (λ r. r.1) same in
              ground (arith, l, c, ==_iff n v.name, value, at)
          | inr member' ↦ others m k member' at
        ]),
      )

  -- The client's contracts are under their own names, and each is stored once.
  module _ (O : MapOrder) (contracts : Dict String (Contract H)) (once : NodupKeys contracts)
      (each : (entry : String × Contract H) → Mem entry contracts → IsStored entry) where
    abbrev entries : List (String × Contract H)
    entries = O.order String (Contract H) contracts

    stored-same : (n : String) → address_under n (stored entries []) ≡ address_under n contracts
    stored-same n = elim (Option-cases (lookup n (stored entries []))) [
      | inr (k, l) ↦ elim (stored-some entries [] n k l) [
        | inr l' ↦ ground (arith, l', lookup-nil n)
        | inl (m, member, name) ↦
            let member' = (Perm.mem_iff (O.order-perm String (Contract H) contracts)).0 member in
            let key = (each (m, k) member').own_name ∙ name in
            let found = address_under-Mem m k contracts once member' in
            ground (arith, l, key, found)
      ]
      | inl l ↦ elim (Option-cases (lookup n contracts)) [
        | inl l' ↦ ground (arith, l, l')
        | inr (k, l') ↦
            let member = lookup-Mem n k contracts l' in
            absurd (
              (stored-none entries [] n l).1 n k
                ((Perm.mem_iff (O.order-perm String (Contract H) contracts)).1 member)
                (sym (each (n, k) member).own_name))
      ]
    ]

    read_contracts-ok :
        (read_file : Files) (file : String) {content : Raw}
        → read_file file ≡ ok content
        → read_contracts H read_file file
          ≡ try
              (map_err
                (wrap "failed to decode tezos-client contracts")
                (unmarshal decode_values content []))
              (λ cs. load_contracts H cs [])
    unfolding read_contracts
    read_contracts-ok read_file file r = ground (arith, r)

    -- What SaveContract writes of a client's contracts is read back with the same address under every
    -- name, where each contract is under its own name and its address is read back from its text.
    pub contracts_file-read :
        (read_file : Files) (file : String)
        → read_file file ≡ ok (some (contracts_file O contracts))
        → (d : Dict String (Contract H)) × (read_contracts H read_file file ≡ ok d)
          × ((n : String) → address_under n d ≡ address_under n contracts)
    contracts_file-read read_file file r =
        let written : (entry : String × Contract H) → Mem entry entries → IsStored entry =
          λ entry m. each entry ((Perm.mem_iff (O.order-perm String (Contract H) contracts)).0 m) in
        (
          stored entries [],
          simp (
            read_contracts-ok read_file file r,
            contracts_file-decode O contracts,
            load_contracts-values entries [] written,
          ),
          stored-same,
        )
