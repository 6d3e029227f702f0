-- ===== src/Ledgers/Originating.antt =====
-- What the contracts read in the storage that custodian_originate.go and fa2_originate.go send.
use x4c.Base.{String, ◌≡◌, refl, [], ok, arith}
use x4c.Base.Dict.{lookup}
use x4c.Host.{Host}
use x4c.Contracts.Balance.{balance, sum_where}
use x4c.Contracts.Michelson.{
  Michelson, Reads, read_pair, read_seq, read_as-eq-ok, read_pair-new_pair, read_pair-new_code,
  read_seq-new_seq_nil,
}
use x4c.Contracts.Custodian
use x4c.Contracts.Custodian.Stored as C
use x4c.Contracts.Custodian.Types.{owner_eq, token_eq}
use x4c.Contracts.Fa2
use x4c.Contracts.Fa2.Stored as F
use x4c.Contracts.Fa2.Entrypoints.{is_operator}
use x4c.Contracts.Settlement.{World}
use x4c.Contracts.Settlement.Recording.{IsSolvent}
use x4c.Ledgers.Entrypoints.{custodian_storage, fa2_storage}

-- Empty ledgers, and one who may do everything.
abbrev pub new_custodian : String → Custodian.Types.Storage
new_custodian custodian = record {
  custodian = custodian;
  ledger = [];
  external_ledger = [];
  operators = [];
  metadata = [];
}

abbrev pub new_token : String → Fa2.Types.Storage
new_token oracle = record {
  oracle = oracle;
  ledger = [];
  operators = [];
  token_metadata = [];
  metadata = [];
}

module _ (H : Host) (M : Michelson H) where
  open M use {as_string, as_bytes, as_nat, as_string-new_string}

  nil-read : {A : Type 0} (read : Reads H A) → read_seq M read (H.new_seq []) ≡ ok []
  nil-read = read_seq-new_seq_nil M

  pub custodian_storage-read :
      (owner : H.Address)
      → Custodian.Stored.read_storage M (custodian_storage H owner)
        ≡ ok (new_custodian (H.address_string owner))
  unfolding Custodian.Stored.read_storage custodian_storage
  custodian_storage-read owner =
      let open_fields = read_pair M as_string (C.read_external_ledger M) in
      read_as-eq-ok (C.as_storage M) (
        read_pair-new_pair M
          (read_pair M open_fields (read_pair M (C.read_ledger M) (C.read_metadata M)))
          (C.read_operators M)
          (read_pair-new_code M open_fields (C.read_ledger M) (C.read_metadata M)
            (read_pair-new_pair M as_string (C.read_external_ledger M) (as_string-new_string _)
              (nil-read _))
            (nil-read _) (nil-read _))
          (nil-read _))

  pub fa2_storage-read :
      (oracle : H.Address)
      → Fa2.Stored.read_storage M (fa2_storage H oracle) ≡ ok (new_token (H.address_string oracle))
  unfolding Fa2.Stored.read_storage fa2_storage
  fa2_storage-read oracle =
      let maps = read_pair M (F.read_ledger M) (F.read_metadata M) in
      read_as-eq-ok (F.as_storage M) (
        read_pair-new_pair M (read_pair M maps (read_pair M (F.read_operators M) as_string))
          (F.read_token_metadata_map M)
          (read_pair-new_code M maps (F.read_operators M) as_string
            (read_pair-new_pair M (F.read_ledger M) (F.read_metadata M) (nil-read _) (nil-read _))
            (nil-read _) (as_string-new_string _))
          (nil-read _))

  new-IsSolvent :
      (w : World) (custodian oracle : String)
      → IsSolvent w
          (record { custodian = new_custodian custodian; token = new_token oracle; pending = [] })
  unfolding lookup balance sum_where is_operator
  new-IsSolvent w custodian oracle = record {
    backed = record { ledger_nodup = tt; external_nodup = tt; agree = λ t. refl };
    safe = record { nodup = tt; no_operator = λ operator id. refl };
    own = tt;
    covered = λ id. omega arith;
  }

  -- The storages that originations send are read by the contracts, with the custodian and the oracle
  -- that were named, and two contracts that start with them are solvent.
  pub originated-IsSolvent :
      (w : World) (owner oracle : H.Address)
      → (c : Custodian.Types.Storage) × (t : Fa2.Types.Storage) × (Custodian.Stored.read_storage M
            (custodian_storage H owner)
          ≡ ok c)
        × (Fa2.Stored.read_storage M (fa2_storage H oracle) ≡ ok t)
        × (c.custodian ≡ H.address_string owner)
        × (t.oracle ≡ H.address_string oracle)
        × IsSolvent w (record { custodian = c; token = t; pending = [] })
  originated-IsSolvent w owner oracle = (
    new_custodian (H.address_string owner),
    new_token (H.address_string oracle),
    custodian_storage-read owner,
    fa2_storage-read oracle,
    refl,
    refl,
    new-IsSolvent w (H.address_string owner) (H.address_string oracle),
  )
