-- ===== src/Cli/Deploying.antt =====
-- The commands custodian originate and fa2 originate together with the node and the contracts:
-- custodian_originate.go and fa2_originate.go.
use x4c.Base.{
  ℕ, String, ◌≡◌, refl, List, [], ◌∷◌, Option, none, some, ok, ◌⊎◌, inl, inr, Outcome-cases,
  Option-cases, arith, sym, ◌∙◌, if◌then◌else◌, ◌==◌, string_eq, Action, Error,
}
use x4c.Base.Dict.{Dict, lookup}
use x4c.Host.{Host}
use x4c.Tzclient.{
  Client, Wallet, Contract, TezosClient, load_default_client, contracts_file, join,
  new_wallet_with_address,
}
use x4c.Tzclient.Deploying.{Deployed, originate-Deployed}
use x4c.Tzclient.Signing.{new_wallet_with_address-eq-ok}
use x4c.Contracts.Michelson.{Michelson}
use x4c.Contracts.Custodian.Stored as Custodian
use x4c.Contracts.Fa2.Stored as Fa2
use x4c.Ledgers.{custodian_originate, fa2_originate, custodian_storage, fa2_storage}
use x4c.Ledgers.Originating.{new_custodian, new_token, custodian_storage-read, fa2_storage-read}
use x4c.Cli.Setup.{Outside, Command, tezos_client}
use x4c.Cli.Originate.{
  admin_address, originate_command, custodian_originate_command, fa2_originate_command,
}
use x4c.Cli.Originating.{originate_command-Originated}

-- Which of the two contracts is originated.
pub data Kind : Type 0 where
  custodian_kind fa2_kind : Kind

-- The arguments, of which the last may be missing.
abbrev pub arguments : String → String → String → Option String → List String
arguments alias file signer none = alias ∷ file ∷ signer ∷ []
arguments alias file signer (some admin) = alias ∷ file ∷ signer ∷ admin ∷ []

-- The address that is named: that of the signer where none is, else that of a wallet, else itself.
abbrev pub IsNamed : {H : Host} → Client H → Wallet H → Option String → H.Address → Type 0
IsNamed client signer none a = a ≡ signer.address
IsNamed {H} client signer (some name) a =
    ((w : Wallet H) × (lookup name client.wallets ≡ some w) × (a ≡ w.address))
    ⊎ ((lookup name client.wallets ≡ none) × (H.parse_address name ≡ ok a))

-- What the contract reads of the storage: its ledgers are empty, and the address is its custodian or
-- its oracle.
abbrev pub StartsWith : {H : Host} → Michelson H → Kind → H.Prim → H.Address → Type 0
StartsWith {H} M custodian_kind p a =
    Custodian.read_storage M p ≡ ok (new_custodian (H.address_string a))
StartsWith {H} M fa2_kind p a = Fa2.read_storage M p ≡ ok (new_token (H.address_string a))

module _ {H : Host} {S : Type 0} (W : Outside H S) (M : Michelson H) where
  abbrev pub command_of : Kind → List String → Command S
  command_of custodian_kind = custodian_originate_command W
  command_of fa2_kind = fa2_originate_command W

  abbrev make_of :
      Kind → TezosClient H S → List ℕ → Wallet H → H.Address → Action S Error (Contract H)
  make_of custodian_kind = custodian_originate H
  make_of fa2_kind = fa2_originate H

  abbrev storage_of : Kind → H.Address → H.Prim
  storage_of custodian_kind = custodian_storage H
  storage_of fa2_kind = fa2_storage H

  admin_address-IsNamed :
      (client : Client H) (signer : Wallet H) (name : Option String) (a : H.Address)
      → admin_address W client signer name ≡ ok a
      → IsNamed client signer name a
  admin_address-IsNamed client signer none a h = ground (arith, h)
  admin_address-IsNamed client signer (some name) a h =
      elim (Option-cases (lookup name client.wallets)) [
        | inr (w, q) ↦ inl (w, q, ground (arith, h, q))
        | inl q ↦ elim (Outcome-cases (new_wallet_with_address H "oracle" name)) [
          | inr (e, r) ↦ ground (arith, h, q, r)
          | inl (w, r) ↦
              let (_, named) = new_wallet_with_address-eq-ok H "oracle" name w r in
              inr (q, ground (arith, h, q, r, named))
        ]
      ]

  storage_of-StartsWith : (k : Kind) (a : H.Address) → StartsWith M k (storage_of k a) a
  storage_of-StartsWith custodian_kind a = custodian_storage-read H M a
  storage_of-StartsWith fa2_kind a = fa2_storage-read H M a

  make_of-eq :
      (k : Kind) (client : TezosClient H S) (code : List ℕ) (signer : Wallet H) (a : H.Address)
      (s : S)
      → make_of k client code signer a s ≡ client.originate signer code (storage_of k a) s
  unfolding custodian_originate fa2_originate
  make_of-eq custodian_kind client code signer a s = refl
  make_of-eq fa2_kind client code signer a s = refl

  command_of-eq :
      (k : Kind) (alias file signer : String) (admin : Option String) (s : S)
      → command_of k (arguments alias file signer admin) s
        ≡ originate_command W (make_of k) alias file signer admin s
  unfolding custodian_originate_command fa2_originate_command
  command_of-eq custodian_kind alias file signer none s = refl
  command_of-eq custodian_kind alias file signer (some admin) s = refl
  command_of-eq fa2_kind alias file signer none s = refl
  command_of-eq fa2_kind alias file signer (some admin) s = refl

  -- What was done for the arguments from the state `s` to `s'`.
  pub record Started (k : Kind) (alias file signer_name : String) (admin_name : Option String)
      (s s' : S) : Type 0 where
    client : Client H
    signer : Wallet H
    admin : H.Address
    code : List ℕ
    storage : H.Prim
    contract : Contract H
    between : S
    contracts : Dict String (Contract H)
    client_loaded : load_default_client H W.getenv W.read_file ≡ ok client
    signer_found : lookup signer_name client.wallets ≡ some signer
    admin_named : IsNamed client signer admin_name admin
    code_read : W.read_bytes file ≡ ok code
    starts_with : StartsWith M k storage admin
    deployed : Deployed W.rpc signer code storage contract s between
    alias_new : lookup alias client.contracts ≡ none
    known :
        (n : String)
        → lookup n contracts ≡ (
            if n == alias
            then some (record { name = alias; address = contract.address })
            else lookup n client.contracts)
    saved :
        W.write_file (join client.path "contracts") (contracts_file W.map_order contracts) between
        ≡ (ok tt, s')

  -- Where custodian originate or fa2 originate ends with status 0, the node has taken a deployment of
  -- the file's code, signed with the key of the wallet that is named as signer, whose storage the
  -- contract reads as empty ledgers with, as its custodian or its oracle, the address that is named last:
  -- that of a wallet, else itself, and the signer's where none is named. After that the file of contracts
  -- was written with those of the client and the address of the deployment under the alias, which was new.
  pub originate-Started :
      (k : Kind) (alias file signer_name : String) (admin_name : Option String) (s : S)
      {lines : List String} {s' : S}
      → command_of k (arguments alias file signer_name admin_name) s ≡ (ok lines, s')
      → Started k alias file signer_name admin_name s s'
  originate-Started k alias file signer_name admin_name s h =
      let o =
        originate_command-Originated W (make_of k) alias file signer_name admin_name s
          (sym (command_of-eq k alias file signer_name admin_name s) ∙ h) in
      let sent =
        sym (make_of-eq k (tezos_client W o.client) o.code o.signer o.admin s) ∙ o.originated in
      record {
        client = o.client;
        signer = o.signer;
        admin = o.admin;
        code = o.code;
        storage = storage_of k o.admin;
        contract = o.contract;
        between = o.between;
        contracts = o.contracts;
        client_loaded = o.client_loaded;
        signer_found = o.signer_found;
        admin_named = admin_address-IsNamed o.client o.signer admin_name o.admin o.admin_found;
        code_read = o.code_read;
        starts_with = storage_of-StartsWith k o.admin;
        deployed = originate-Deployed W.rpc o.client o.signer o.code (storage_of k o.admin) s sent;
        alias_new = o.alias_new;
        known = o.known;
        saved = o.saved;
      }
