-- ===== src/Tzkt/Types.antt =====
-- The structs of backend/pkg/tzkt and how they are decoded.
use x4c.Base.{String, Bool, false, Option, none, [], ◌∷◌, ok, err, if◌then◌else◌}
use x4c.Base.Int.{ℤ, pos}
use x4c.Json.{
  Json, Decoder, Table, into, Raw, mismatch, decode_string, decode_bool, decode_int64, decode_int32,
  decode_raw, decode_string_pointer, decode_struct,
}
use x4c.Host.{Host}

pub record EventContractInfo : Type 0 where
  pub address : Option String
  pub alias : Option String

-- A time is its text.
pub record Event : Type 0 where
  pub identifier : ℤ
  pub level : ℤ
  pub timestamp : String
  pub contract : EventContractInfo
  pub code_hash : ℤ
  pub tag : String
  pub payload : Raw
  pub transaction_id : ℤ

pub record BigMapItem : Type 0 where
  pub identifier : ℤ
  pub active : Bool
  pub hash : String
  pub key : Raw
  pub value : Raw
  pub first_level : ℤ
  pub last_level : ℤ
  pub updates : ℤ

pub record Operation : Type 0 where
  pub kind : String
  pub identifier : ℤ
  pub level : ℤ
  pub timestamp : String
  pub block : String
  pub hash : String
  pub delegate : Raw
  pub parameter : Raw
  pub slots : ℤ
  pub deposit : ℤ
  pub quote : Raw

abbrev contract_info_table : Table EventContractInfo
contract_info_table =
    ("address", into decode_string_pointer (λ c. c.address) (λ c v. record c { address = v }))
    ∷ ("alias", into decode_string_pointer (λ c. c.alias) (λ c v. record c { alias = v }))
    ∷ []

abbrev pub no_item : BigMapItem
no_item = record {
  identifier = pos 0;
  active = false;
  hash = "";
  key = none;
  value = none;
  first_level = pos 0;
  last_level = pos 0;
  updates = pos 0;
}

abbrev item_table : Table BigMapItem
item_table =
    ("id", into decode_int64 (λ r. r.identifier) (λ r v. record r { identifier = v }))
    ∷ ("active", into decode_bool (λ r. r.active) (λ r v. record r { active = v }))
    ∷ ("hash", into decode_string (λ r. r.hash) (λ r v. record r { hash = v }))
    ∷ ("key", into decode_raw (λ r. r.key) (λ r v. record r { key = v }))
    ∷ ("value", into decode_raw (λ r. r.value) (λ r v. record r { value = v }))
    ∷ ("firstLevel", into decode_int64 (λ r. r.first_level) (λ r v. record r { first_level = v }))
    ∷ ("lastLevel", into decode_int64 (λ r. r.last_level) (λ r v. record r { last_level = v }))
    ∷ ("updates", into decode_int64 (λ r. r.updates) (λ r v. record r { updates = v }))
    ∷ []

unfoldable pub decode_item : Decoder BigMapItem
unfolding decode_struct
decode_item = decode_struct item_table

module _ (H : Host) where
  abbrev pub decode_time : Decoder String
  decode_time Json.null old = ok old
  decode_time (Json.str s) old = if H.is_time s then ok s else err mismatch
  decode_time _ old = err mismatch

  abbrev pub event_table : Table Event
  event_table =
      ("id", into decode_int64 (λ r. r.identifier) (λ r v. record r { identifier = v }))
      ∷ ("level", into decode_int32 (λ r. r.level) (λ r v. record r { level = v }))
      ∷ ("timestamp", into decode_time (λ r. r.timestamp) (λ r v. record r { timestamp = v }))
      ∷ (
        "contract",
        into (decode_struct contract_info_table) (λ r. r.contract)
            (λ r v. record r { contract = v }),
      )
      ∷ ("codeHash", into decode_int32 (λ r. r.code_hash) (λ r v. record r { code_hash = v }))
      ∷ ("tag", into decode_string (λ r. r.tag) (λ r v. record r { tag = v }))
      ∷ ("payload", into decode_raw (λ r. r.payload) (λ r v. record r { payload = v }))
      ∷ (
        "transactionId",
        into decode_int64 (λ r. r.transaction_id) (λ r v. record r { transaction_id = v }),
      )
      ∷ []

  operation_table : Table Operation
  operation_table =
      ("type", into decode_string (λ r. r.kind) (λ r v. record r { kind = v }))
      ∷ ("id", into decode_int64 (λ r. r.identifier) (λ r v. record r { identifier = v }))
      ∷ ("level", into decode_int32 (λ r. r.level) (λ r v. record r { level = v }))
      ∷ ("timestamp", into decode_time (λ r. r.timestamp) (λ r v. record r { timestamp = v }))
      ∷ ("block", into decode_string (λ r. r.block) (λ r v. record r { block = v }))
      ∷ ("hash", into decode_string (λ r. r.hash) (λ r v. record r { hash = v }))
      ∷ ("delegate", into decode_raw (λ r. r.delegate) (λ r v. record r { delegate = v }))
      ∷ ("parameter", into decode_raw (λ r. r.parameter) (λ r v. record r { parameter = v }))
      ∷ ("slots", into decode_int32 (λ r. r.slots) (λ r v. record r { slots = v }))
      ∷ ("deposit", into decode_int64 (λ r. r.deposit) (λ r v. record r { deposit = v }))
      ∷ ("quote", into decode_raw (λ r. r.quote) (λ r v. record r { quote = v }))
      ∷ []

  unfoldable pub decode_event : Decoder Event
  unfolding decode_struct
  decode_event = decode_struct event_table

  unfoldable pub decode_operation : Decoder Operation
  unfolding decode_struct operation_table
  decode_operation = decode_struct operation_table

-- The zero time.
abbrev pub no_event : Event
no_event = record {
  identifier = pos 0;
  level = pos 0;
  timestamp = "0001-01-01T00:00:00Z";
  contract = record { address = none; alias = none };
  code_hash = pos 0;
  tag = "";
  payload = none;
  transaction_id = pos 0;
}

abbrev pub no_operation : Operation
no_operation = record {
  kind = "";
  identifier = pos 0;
  level = pos 0;
  timestamp = "0001-01-01T00:00:00Z";
  block = "";
  hash = "";
  delegate = none;
  parameter = none;
  slots = pos 0;
  deposit = pos 0;
  quote = none;
}
