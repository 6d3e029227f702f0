-- ===== src/Tzclient/Signing.antt =====
-- Who signs a call, and which wallets have a key: CallContract and LoadClient in tzclient.go.
use x4c.Base.{
  String, ◌≡◌, ◌≢◌, refl, List, [], ◌∷◌, none, some, ok, err, ◌⊎◌, inl, inr, Outcome-cases,
  Option-cases, Bool-cases, false, ◌==◌, ==_iff, string_eq, arith, if◌then◌else◌, wrap, map_err,
  try, sym, ◌∙◌, ok-injective, errorf,
}
use x4c.Base.Dict.{Dict, lookup, insert, lookup-insert}
use x4c.Host.{Host}
use x4c.Tzclient.Accounts.{Wallet, new_wallet_with_address}
use x4c.Tzclient.Types.{Client}
use x4c.Tzclient.Chain.{Rpc, Signer, local, remote}
use x4c.Tzclient.Calls.{signer_of}
use x4c.Tzclient.Load.{ClientValue, load_hashes, new_client, Environment}

-- A wallet that is made of an address has that address and no key.
pub new_wallet_with_address-eq-ok :
    (H : Host) (name text : String) (w : Wallet H)
    → new_wallet_with_address H name text ≡ ok w
    → (w.key ≡ none) × (H.parse_address text ≡ ok w.address)
unfolding new_wallet_with_address
new_wallet_with_address-eq-ok H name text w h = elim (Outcome-cases (H.parse_address text)) [
  | inr (e, q) ↦ ground (arith, h, q)
  | inl (address, q) ↦ elim (Bool-cases (H.is_ed25519 address)) [
    | inl ed ↦ (ground (arith, h, q, ed), ground (arith, h, q, ed))
    | inr no_ed ↦ ground (arith, h, q, no_ed)
  ]
]

module _ {H : Host} {S : Type 0} (R : Rpc H S) where
  signer_of-key :
      (url : String) (w : Wallet H) {key : H.PrivateKey}
      → w.key ≡ some key
      → signer_of R url w ≡ ok (local key)
  unfolding signer_of
  signer_of-key url w h = rw (h) refl

  signer_of-no_key :
      (url : String) (w : Wallet H)
      → w.key ≡ none
      → signer_of R url w ≡ (
          if url == ""
          then err (errorf "remote signer not configured")
          else elim (R.new_remote url) [
            | err e ↦ err (wrap "failed to make remote signer" e)
            | ok _ ↦
                if H.address_string w.address == ""
                then err (errorf "signer is missing address!")
                else ok (remote url w.address)
          ])
  unfolding signer_of
  signer_of-no_key url w h = rw (h) refl

  -- A wallet with a key signs with that key. One without signs through the remote signer at the URL,
  -- if there is a URL, under the wallet's own address, if it has one. Anything else is an error.
  pub signer_of-eq-ok :
      (url : String) (w : Wallet H) (g : Signer H)
      → signer_of R url w ≡ ok g
      → ((key : H.PrivateKey) × (w.key ≡ some key) × (g ≡ local key))
        ⊎ ((w.key ≡ none)
            × (url ≢ "")
            × (H.address_string w.address ≢ "")
            × (g ≡ remote url w.address))
  signer_of-eq-ok url w g h = elim (Option-cases w.key) [
    | inr (key, q) ↦ inl (key, q, ok-injective (sym h ∙ signer_of-key url w q))
    | inl q ↦
        let c = signer_of-no_key url w q in
        let has_url = ==_iff url "" in
        let has_address = ==_iff (H.address_string w.address) "" in
        elim (Outcome-cases (R.new_remote url)) [
          | inr (e, r) ↦ ground (arith, h, c, r)
          | inl (_, r) ↦ inr (
            q,
            ground (arith, h, c, r, has_url),
            ground (arith, h, c, r, has_address),
            ground (arith, h, c, r),
          )
        ]
  ]

module _ (H : Host) where
  load_hashes-nil : (wallets : Dict String (Wallet H)) → load_hashes H [] wallets ≡ ok wallets
  unfolding load_hashes
  load_hashes-nil wallets = refl

  load_hashes-cons :
      (hash : ClientValue) (hashes : List ClientValue) (wallets : Dict String (Wallet H))
      → load_hashes H (hash ∷ hashes) wallets ≡ elim (lookup hash.name wallets) [
        | some _ ↦ load_hashes H hashes wallets
        | none ↦
            try
              (map_err
                (wrap "failed to parse hash")
                (new_wallet_with_address H hash.name hash.value))
              (λ wallet. load_hashes H hashes (insert hash.name wallet wallets))
      ]
  unfolding load_hashes
  load_hashes-cons hash hashes wallets = refl

  -- Reading the addresses adds wallets, and never replaces one that has been read with its key.
  pub load_hashes-keeps :
      (hashes : List ClientValue) (wallets : Dict String (Wallet H))
      {wallets' : Dict String (Wallet H)} (name : String) (w : Wallet H)
      → load_hashes H hashes wallets ≡ ok wallets'
      → lookup name wallets ≡ some w
      → lookup name wallets' ≡ some w
  load_hashes-keeps [] wallets name w h k = ground (arith, h, k, load_hashes-nil wallets)
  load_hashes-keeps (hash ∷ hashes) wallets name w h k =
      let c = load_hashes-cons hash hashes wallets in
      elim (Option-cases (lookup hash.name wallets)) [
        | inr (old, q) ↦ load_hashes-keeps hashes wallets name w (ground (arith, h, c, q)) k
        | inl q ↦
            elim (Outcome-cases (
              map_err (wrap "failed to parse hash")
                (new_wallet_with_address H hash.name hash.value))) [
                  | inr (e, p) ↦ ground (arith, h, c, q, p)
                  | inl (wallet, p) ↦
                      load_hashes-keeps hashes (insert hash.name wallet wallets) name w
                        (ground (arith, h, c, q, p))
                        (ground (arith, k, q, lookup-insert name hash.name wallet wallets))
                ]
      ]

  new_client-set :
      (getenv : Environment)
      → (getenv "X4C_TEZOS_RPC_HOST" == "") ≡ false
      → (c : Client H) × (new_client H getenv ≡ ok c)
        × (c.indexer_rpc_url ≡ getenv "X4C_TEZOS_INDEX_HOST")
  unfolding new_client
  new_client-set getenv h =
      let c : Client H = record {
        rpc_url = getenv "X4C_TEZOS_RPC_HOST";
        indexer_rpc_url = getenv "X4C_TEZOS_INDEX_HOST";
        signatory_url = getenv "X4C_SIGNATORY_HOST";
        wallets = [];
        contracts = [];
        path = "";
        indexer_web_url = getenv "X4C_TEZOS_INDEX_WEB";
      } in
      (c, rw (h) refl, refl)

  -- A client is made wherever the node's URL is configured, also where the indexer's is empty.
  pub new_client-eq-ok :
      (getenv : Environment)
      → getenv "X4C_TEZOS_RPC_HOST" ≢ ""
      → (c : Client H) × (new_client H getenv ≡ ok c)
        × (c.indexer_rpc_url ≡ getenv "X4C_TEZOS_INDEX_HOST")
  new_client-eq-ok getenv h =
      new_client-set getenv (ground (arith, h, ==_iff (getenv "X4C_TEZOS_RPC_HOST") ""))
