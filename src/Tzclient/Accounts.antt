-- ===== src/Tzclient/Accounts.antt =====
-- wallet.go and encoding.go.
use x4c.Base.{String, Option, none, some, Outcome, ok, err, Error, errorf, if◌then◌else◌}
use x4c.Base.Fallible.{◌>>=◌}
use x4c.Base.Text.{decode_hex}
use x4c.Host.{Host}

module _ (H : Host) where
  -- `key` is nil in a wallet that only has an address.
  pub record Wallet : Type 0 where
    pub name : String
    pub address : H.Address
    pub key : Option H.PrivateKey

  pub record Contract : Type 0 where
    pub name : String
    pub address : H.Address

  -- The zero values.
  abbrev pub no_wallet : Wallet
  no_wallet = record { name = ""; address = H.no_address; key = none }

  abbrev pub no_contract : Contract
  no_contract = record { name = ""; address = H.no_address }

  unfoldable pub new_wallet_with_address : String → String → Outcome Error Wallet
  new_wallet_with_address name address = do
    tezos_address ← H.parse_address address
    if H.is_ed25519 tezos_address
        then ok (record { name = name; address = tezos_address; key = none })
        else err (errorf "invalid wallet address")

  unfoldable pub new_wallet_with_private_key : String → String → Outcome Error Wallet
  new_wallet_with_private_key name private_key = do
    key ← H.parse_private_key private_key
    ok (record { name = name; address = H.key_address key; key = some key })

  unfoldable pub new_contract_with_address : String → String → Outcome Error Contract
  new_contract_with_address name address = do
    tezos_address ← H.parse_address address
    if H.is_contract tezos_address
        then ok (record { name = name; address = tezos_address })
        else err (errorf "invalid contract address")

  unfoldable pub michelson_to_string : String → Outcome Error String
  unfolding decode_hex
  michelson_to_string raw = do
    bytes ← decode_hex raw
    unpacked ← H.unpack (H.new_bytes bytes)
    ok (H.prim_string unpacked)
