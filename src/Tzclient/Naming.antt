-- ===== src/Tzclient/Naming.antt =====
-- What FindNameForAddress in tzclient.go calls an address, whatever the order in which Go ranges
-- over the maps.
use mathlib.Core.List.{Mem, mem-cons_self, mem-cons_of_mem, eq-or-mem_of_mem-cons, not-mem-nil}
use mathlib.Core.List.Perm
use mathlib.Core.Logic.{∥∥₁_elim}
use mathlib.Core.HLevel.{⊥_prop}
use x4c.Base.{
  String, ◌≡◌, ◌≢◌, ap, subst, refl, List, [], ◌∷◌, Option, none, some, ◌⊎◌, inl, inr, Option-cases,
  Bool-cases, ◌==◌, ==_iff, string_eq, if◌then◌else◌, arith,
}
use x4c.Base.Dict.{Dict, MapOrder}
use x4c.Host.{Host}
use x4c.Tzclient.Accounts.{Wallet, Contract}
use x4c.Tzclient.Types.{Client}
use x4c.Tzclient.Names.{find_wallet_name, find_contract_name, find_name_for_address}

-- What the two loops share: the first entry whose value has the address.
module _ {A : Type 0} (address_of : A → String) (find : List (String × A) → String → Option String)
    (find-nil : (address : String) → find [] address ≡ none)
    (find-cons : (n : String) (v : A) (rest : List (String × A)) (address : String)
      → find ((n, v) ∷ rest) address
        ≡ (if address_of v == address then some n else find rest address)) where
  find-some :
      (entries : List (String × A)) (address n : String)
      → find entries address ≡ some n
      → (v : A) × Mem (n, v) entries × (address_of v ≡ address)
  find-some [] address n h = ground (arith, h, find-nil address)
  find-some ((m, v) ∷ rest) address n h =
      let c = find-cons m v rest address in
      elim (Bool-cases (address_of v == address)) [
        | inl e ↦
            let same : m ≡ n = ground (arith, h, c, e) in
            (v, rw (← same) mem-cons_self, (==_iff (address_of v) address).0 e)
        | inr e ↦
            let (w, member, at) = find-some rest address n (ground (arith, h, c, e)) in
            (w, mem-cons_of_mem (m, v) member, at)
      ]

  find-none :
      (entries : List (String × A)) (address : String)
      → find entries address ≡ none
      → (n : String) (v : A) → Mem (n, v) entries
      → address_of v ≢ address
  find-none [] address h n v member _ = not-mem-nil member
  find-none ((m, w) ∷ rest) address h n v member at =
      let c = find-cons m w rest address in
      ∥∥₁_elim (eq-or-mem_of_mem-cons member) ⊥_prop (λ d. elim d [
        | inl e ↦
            let same : v ≡ w = ap (λ r. r.1) e in
            ground (arith, h, c, same, at, ==_iff (address_of w) address)
        | inr member' ↦ find-none rest address (ground (arith, h, c)) n v member' at
      ])

-- No entry of a map has the address.
abbrev pub NoneAt : {A : Type 0} → (A → String) → Dict String A → String → Type 0
NoneAt {A = A} address_of d address = (n : String) (v : A) → Mem (n, v) d → address_of v ≢ address

module _ (H : Host) where
  abbrev wallet_address : Wallet H → String
  wallet_address w = H.address_string w.address

  abbrev contract_address : Contract H → String
  contract_address k = H.address_string k.address

  find_wallet_name-nil : (address : String) → find_wallet_name {H = H} [] address ≡ none
  unfolding find_wallet_name
  find_wallet_name-nil address = refl

  find_wallet_name-cons :
      (n : String) (w : Wallet H) (rest : List (String × Wallet H)) (address : String)
      → find_wallet_name ((n, w) ∷ rest) address
        ≡ (if wallet_address w == address then some n else find_wallet_name rest address)
  unfolding find_wallet_name
  find_wallet_name-cons n w rest address = refl

  find_contract_name-nil : (address : String) → find_contract_name {H = H} [] address ≡ none
  unfolding find_contract_name
  find_contract_name-nil address = refl

  find_contract_name-cons :
      (n : String) (k : Contract H) (rest : List (String × Contract H)) (address : String)
      → find_contract_name ((n, k) ∷ rest) address
        ≡ (if contract_address k == address then some n else find_contract_name rest address)
  unfolding find_contract_name
  find_contract_name-cons n k rest address = refl

module _ {H : Host} where
  -- A name is that of a wallet with the address.
  abbrev pub NamesWallet : Client H → String → String → Type 0
  NamesWallet c address name =
      (w : Wallet H) × Mem (name, w) c.wallets × (wallet_address H w ≡ address)

  abbrev pub NamesContract : Client H → String → String → Type 0
  NamesContract c address name =
      (k : Contract H) × Mem (name, k) c.contracts × (contract_address H k ≡ address)

  module _ (O : MapOrder) (c : Client H) (address : String) where
    abbrev wallets : List (String × Wallet H)
    wallets = O.order String (Wallet H) c.wallets

    abbrev contracts : List (String × Contract H)
    contracts = O.order String (Contract H) c.contracts

    name_of_wallet :
        {n : String}
        → find_wallet_name wallets address ≡ some n
        → n ≡ find_name_for_address O c address
    unfolding find_name_for_address
    name_of_wallet h = ground (arith, h)

    name_of_contract :
        {n : String}
        → find_wallet_name wallets address ≡ none
        → find_contract_name contracts address ≡ some n
        → n ≡ find_name_for_address O c address
    unfolding find_name_for_address
    name_of_contract h k = ground (arith, h, k)

    name_of_nothing :
        find_wallet_name wallets address ≡ none
        → find_contract_name contracts address ≡ none
        → find_name_for_address O c address ≡ address
    unfolding find_name_for_address
    name_of_nothing h k = ground (arith, h, k)

    wallet_found :
        {n : String} → find_wallet_name wallets address ≡ some n → NamesWallet c address n
    wallet_found {n} h =
        let (w, member, at) =
          find-some (wallet_address H) find_wallet_name (find_wallet_name-nil H)
            (find_wallet_name-cons H) wallets address n h in
        (w, (Perm.mem_iff (O.order-perm String (Wallet H) c.wallets)).0 member, at)

    no_wallet_found :
        find_wallet_name wallets address ≡ none → NoneAt (wallet_address H) c.wallets address
    no_wallet_found h n w member =
        find-none (wallet_address H) find_wallet_name (find_wallet_name-nil H)
          (find_wallet_name-cons H) wallets address h n w
          ((Perm.mem_iff (O.order-perm String (Wallet H) c.wallets)).1 member)

    contract_found :
        {n : String} → find_contract_name contracts address ≡ some n → NamesContract c address n
    contract_found {n} h =
        let (k, member, at) =
          find-some (contract_address H) find_contract_name (find_contract_name-nil H)
            (find_contract_name-cons H) contracts address n h in
        (k, (Perm.mem_iff (O.order-perm String (Contract H) c.contracts)).0 member, at)

    no_contract_found :
        find_contract_name contracts address ≡ none
        → NoneAt (contract_address H) c.contracts address
    no_contract_found h n k member =
        find-none (contract_address H) find_contract_name (find_contract_name-nil H)
          (find_contract_name-cons H) contracts address h n k
          ((Perm.mem_iff (O.order-perm String (Contract H) c.contracts)).1 member)

    -- The name for an address is that of a wallet with the address; else, where no wallet has it, that
    -- of a contract with the address; else, where no contract has it either, the address itself.
    pub find_name_for_address_lem :
        NamesWallet c address (find_name_for_address O c address)
        ⊎ (NoneAt (wallet_address H) c.wallets address
            × (NamesContract c address (find_name_for_address O c address)
                ⊎ (NoneAt (contract_address H) c.contracts address
                    × (find_name_for_address O c address ≡ address))))
    find_name_for_address_lem = elim (Option-cases (find_wallet_name wallets address)) [
      | inr (n, q) ↦ inl (subst (NamesWallet c address) (name_of_wallet q) (wallet_found q))
      | inl q ↦ inr (
        no_wallet_found q,
        elim (Option-cases (find_contract_name contracts address)) [
          | inr (n, r) ↦
              inl (subst (NamesContract c address) (name_of_contract q r) (contract_found r))
          | inl r ↦ inr (no_contract_found r, name_of_nothing q r)
        ],
      )
    ]
