-- ===== src/Host.antt =====
-- What the Go code calls and this repository does not implement, as parameters: tzgo's addresses,
-- keys and Micheline values, the reading of URLs, and the check of a time's text.
use x4c.Base.{String, Bool, ℕ, List, Outcome, Error}
use x4c.Base.Int.{ℤ}

-- The micheline.OpCode values that the source names.
pub data OpCode : Type 0 where
  d_left d_right d_pair d_elt : OpCode

pub record Host : Type 1 where
  -- tezos.Address; `no_address` is its zero value
  pub Address : Type 0
  pub no_address : Address
  pub parse_address : String → Outcome Error Address
  pub address_string : Address → String
  -- whether `Type` is AddressTypeEd25519, or AddressTypeContract
  pub is_ed25519 : Address → Bool
  pub is_contract : Address → Bool
  -- tezos.PrivateKey
  pub PrivateKey : Type 0
  pub parse_private_key : String → Outcome Error PrivateKey
  pub key_address : PrivateKey → Address
  -- micheline.Prim and the functions that build one; `sequence` and `binary` are the struct literals
  pub Prim : Type 0
  pub new_string : String → Prim
  pub new_bytes : List ℕ → Prim
  pub new_nat : ℤ → Prim
  pub new_pair : Prim → Prim → Prim
  pub new_seq : List Prim → Prim
  pub new_code : OpCode → List Prim → Prim
  pub sequence : List Prim → Prim
  pub binary : OpCode → List Prim → Prim
  -- `Pack`, `Unpack` and the field `String`
  pub pack : Prim → List ℕ
  pub unpack : Prim → Outcome Error Prim
  pub prim_string : Prim → String
  -- `url.Parse`, and `ResolveReference` printed by `String`
  pub Url : Type 0
  pub parse_url : String → Outcome Error Url
  pub resolve : Url → Url → String
  -- whether time.Time reads a text
  pub is_time : String → Bool

-- micheline.Parameters
pub record Parameters (H : Host) : Type 0 where
  pub entrypoint : String
  pub value : H.Prim
