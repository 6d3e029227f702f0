-- ===== src/Tzclient/Adding.antt =====
-- What SaveContract in tzclient.go does to a client.
use x4c.Base.{
  String, ◌≡◌, none, some, ok, err, Error, inl, inr, Option-cases, Bool-cases, ◌==◌, string_eq,
  if◌then◌else◌, arith, wrap, true, false, errorf, Action, Outcome-cases,
}
use x4c.Base.Dict.{lookup, insert, lookup-insert, MapOrder}
use x4c.Json.{Json}
use x4c.Host.{Host}
use x4c.Tzclient.Accounts.{Contract}
use x4c.Tzclient.Types.{Client}
use x4c.Tzclient.Load.{join}
use x4c.Tzclient.Names.{contracts_file, save_contract}

module _ {H : Host} where
  module _ {S : Type 0} (O : MapOrder)
      (write_file : String → Json → Action S Error (Unit {0})) where
    save_contract-new :
        (k : Contract H) (c : Client H) (s : S)
        → (c.path == "") ≡ false
        → lookup k.name c.contracts ≡ none
        → save_contract O write_file k c s ≡ (
            let contracts = insert k.name k c.contracts in
            let (r, s') = write_file (join c.path "contracts") (contracts_file O contracts) s in
            (
              elim r [ ok _ ↦ ok tt | err e ↦ err (wrap "failed to write new contract file" e) ],
              (record c { contracts = contracts }, s'),
            ))
    unfolding save_contract
    save_contract-new k c s p l = simp (p, l)

    save_contract-known :
        (k old : Contract H) (c : Client H) (s : S)
        → lookup k.name c.contracts ≡ some old
        → (e : Error) × (save_contract O write_file k c s ≡ (err e, (c, s)))
    unfolding save_contract
    save_contract-known k old c s l = elim (Bool-cases (c.path == "")) [
      | inl p ↦ (errorf "client has not storage path set", simp (p, l))
      | inr p ↦ (errorf "contract with name alread exists", simp (p, l))
    ]

    save_contract-no_path :
        (k : Contract H) (c : Client H) (s : S)
        → (c.path == "") ≡ true
        → (e : Error) × (save_contract O write_file k c s ≡ (err e, (c, s)))
    unfolding save_contract
    save_contract-no_path k c s p = (errorf "client has not storage path set", simp (p))

    -- Where saving succeeds, the name was new, the client has the contract and else what it had, and
    -- the file of contracts was written with all of them.
    pub save_contract-eq-ok :
        (k : Contract H) (c : Client H) (s : S) {c' : Client H} {s' : S}
        → save_contract O write_file k c s ≡ (ok tt, (c', s'))
        → (lookup k.name c.contracts ≡ none)
          × ((n : String)
              → lookup n c'.contracts ≡ (if n == k.name then some k else lookup n c.contracts))
          × (write_file (join c.path "contracts") (contracts_file O c'.contracts) s ≡ (ok tt, s'))
    save_contract-eq-ok k c s h = elim (Option-cases (lookup k.name c.contracts)) [
      | inr (old, l) ↦ let (e, q) = save_contract-known k old c s l in ground (arith, h, q)
      | inl l ↦ elim (Bool-cases (c.path == "")) [
        | inl p ↦ let (e, q) = save_contract-no_path k c s p in ground (arith, h, q)
        | inr p ↦
            let contracts = insert k.name k c.contracts in
            let q = save_contract-new k c s p l in
            elim (Outcome-cases
              (write_file (join c.path "contracts") (contracts_file O contracts) s).0) [
                | inr (e, w) ↦ ground (arith, h, q, w)
                | inl (_, w) ↦ (
                  l,
                  λ n. ground (arith, h, q, w, lookup-insert n k.name k c.contracts),
                  ground (arith, h, q, w),
                )
              ]
      ]
    ]
