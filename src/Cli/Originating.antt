-- ===== src/Cli/Originating.antt =====
-- What an origination from the command line goes through, whatever its contract.
use x4c.Base.{
  ℕ, String, ◌≡◌, List, Option, none, some, ok, Error, Action, Outcome-cases, Option-cases, inl,
  inr, arith, if◌then◌else◌, ◌==◌, string_eq, ap,
}
use x4c.Base.Dict.{Dict, lookup}
use x4c.Host.{Host}
use x4c.Tzclient.{
  Client, Wallet, Contract, TezosClient, load_default_client, contracts_file, join, save_contract,
}
use x4c.Tzclient.Adding.{save_contract-eq-ok}
use x4c.Cli.Setup.{Outside, tezos_client}
use x4c.Cli.Originate.{admin_address, save_as, originate_command}

module _ {H : Host} {S : Type 0} (W : Outside H S) where
  save_as-eq-ok :
      (contract : Contract H) (alias : String) (client : Client H) (s : S) {s' : S}
      → save_as W contract alias client s ≡ (ok tt, s')
      → (contracts : Dict String (Contract H)) × ((n : String)
          → lookup n contracts ≡ (
              if n == alias
              then some (record contract { name = alias })
              else lookup n client.contracts))
        × (W.write_file (join client.path "contracts") (contracts_file W.map_order contracts) s
            ≡ (ok tt, s'))
  save_as-eq-ok contract alias client s h =
      let named = record contract { name = alias } in
      let saved = save_contract W.map_order W.write_file named client s in
      elim (Outcome-cases saved.0) [
        | inr (e, q) ↦ ground (arith, h, q)
        | inl (_, q) ↦
            let (_, known, wrote) =
              save_contract-eq-ok W.map_order W.write_file named client s {c' = saved.1.0}
                {s' = saved.1.1} (ap (λ r. (r, saved.1)) q) in
            let same : saved.1.1 ≡ _ = ap (λ r. r.1) h in
            (saved.1.0.contracts, known, rw same at wrote)
      ]

  -- From the state `s` to `s'`, in order; `make` originates the contract.
  pub record Originated
      (make : TezosClient H S → List ℕ → Wallet H → H.Address → Action S Error (Contract H))
      (alias file signer_name : String) (admin_name : Option String) (s s' : S) : Type 0 where
    pub client : Client H
    pub code : List ℕ
    pub signer : Wallet H
    pub admin : H.Address
    pub contract : Contract H
    pub between : S
    pub contracts : Dict String (Contract H)
    pub client_loaded : load_default_client H W.getenv W.read_file ≡ ok client
    pub alias_new : lookup alias client.contracts ≡ none
    pub code_read : W.read_bytes file ≡ ok code
    pub signer_found : lookup signer_name client.wallets ≡ some signer
    pub admin_found : admin_address W client signer admin_name ≡ ok admin
    pub originated : make (tezos_client W client) code signer admin s ≡ (ok contract, between)
    pub known :
        (n : String)
        → lookup n contracts ≡ (
            if n == alias
            then some (record contract { name = alias })
            else lookup n client.contracts)
    pub saved :
        W.write_file (join client.path "contracts") (contracts_file W.map_order contracts) between
        ≡ (ok tt, s')

  pub originate_command-Originated :
      (make : TezosClient H S → List ℕ → Wallet H → H.Address → Action S Error (Contract H))
      (alias file signer_name : String) (admin_name : Option String) (s : S) {lines : List String}
      {s' : S}
      → originate_command W make alias file signer_name admin_name s ≡ (ok lines, s')
      → Originated make alias file signer_name admin_name s s'
  unfolding originate_command
  originate_command-Originated make alias file signer_name admin_name s {lines} {s'} h =
      elim (Outcome-cases (load_default_client H W.getenv W.read_file)) [
        | inr (e, q0) ↦ ground (arith, h, q0)
        | inl (client, q0) ↦ elim (Option-cases (lookup alias client.contracts)) [
          | inr (old, q1) ↦ ground (arith, h, q0, q1)
          | inl q1 ↦ elim (Outcome-cases (W.read_bytes file)) [
            | inr (e, q2) ↦ ground (arith, h, q0, q1, q2)
            | inl (code, q2) ↦ elim (Option-cases (lookup signer_name client.wallets)) [
              | inl q3 ↦ ground (arith, h, q0, q1, q2, q3)
              | inr (signer, q3) ↦ elim (Outcome-cases (admin_address W client signer admin_name)) [
                | inr (e, q4) ↦ ground (arith, h, q0, q1, q2, q3, q4)
                | inl (admin, q4) ↦
                    let made = make (tezos_client W client) code signer admin s in
                    elim (Outcome-cases made.0) [
                      | inr (e, q5) ↦ ground (arith, h, q0, q1, q2, q3, q4, q5)
                      | inl (contract, q5) ↦
                          let saved = save_as W contract alias client made.1 in
                          elim (Outcome-cases saved.0) [
                            | inr (e, q6) ↦ ground (arith, h, q0, q1, q2, q3, q4, q5, q6)
                            | inl (_, q6) ↦
                                let (contracts, known, wrote) =
                                  save_as-eq-ok contract alias client made.1
                                    (ap (λ r. (r, saved.1)) q6) in
                                let same : saved.1 ≡ s' =
                                  ground (arith, h, q0, q1, q2, q3, q4, q5, q6) in
                                record {
                                  client = client;
                                  code = code;
                                  signer = signer;
                                  admin = admin;
                                  contract = contract;
                                  between = made.1;
                                  contracts = contracts;
                                  client_loaded = q0;
                                  alias_new = q1;
                                  code_read = q2;
                                  signer_found = q3;
                                  admin_found = q4;
                                  originated = ap (λ r. (r, made.1)) q5;
                                  known = known;
                                  saved = rw same at wrote;
                                }
                          ]
                    ]
              ]
            ]
          ]
        ]
      ]
