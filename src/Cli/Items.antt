-- ===== src/Cli/Items.antt =====
-- What is read back of the lists of entries that the info commands write as JSON.
use x4c.Base.{◌≡◌, true, List, [], ◌∷◌, All, weaken_each, string_eq, refl}
use x4c.Json.{str, num, obj, field, end, Decoder, into, decode_struct, decode_slice}
use x4c.Json.Number.{is_valid_number}
use x4c.Json.RoundTrips.{RoundTrips, not_empty, slice-RoundTrips}
use x4c.Json.Encode.{Encoder, encode_number, encode_fields}
use x4c.Ledgers.{TokenId, LedgerKey, decode_token, decode_ledger_key}
use x4c.Ledgers.Output.{encode_token, encode_ledger_key}
use x4c.Cli.Output.{safe_item, safe_list}

abbrev pub HasNumber : TokenId → Type 0
HasNumber t = is_valid_number t.token_id ≡ true

-- A list that is safe for JSON, as it was before.
abbrev pub decode_entry : {K V : Type 0} → Decoder K → Decoder V → Decoder (K × V)
decode_entry key value = decode_struct (
    ("key", into key (λ e. e.0) (λ e k. (k, e.1)))
    ∷ ("value", into value (λ e. e.1) (λ e v. (e.0, v)))
    ∷ [])

pub token-RoundTrips : (t : TokenId) → HasNumber t → RoundTrips encode_token decode_token t
unfolding encode_token decode_token encode_fields encode_number
token-RoundTrips t valid = (
  obj (field "token_id" (num t.token_id) (field "token_address" (str t.address) end)),
  rw (not_empty t.token_id valid, valid) refl,
  λ old. refl,
)

pub key-RoundTrips :
    (k : LedgerKey) → HasNumber k.token → RoundTrips encode_ledger_key decode_ledger_key k
unfolding encode_ledger_key decode_ledger_key encode_fields
key-RoundTrips k valid =
    let (j, wrote, read) = token-RoundTrips k.token valid in
    (
      obj (field "token" j (field "kyc" (str k.raw_kyc) end)),
      rw wrote refl,
      λ old. rw (read old.token) refl,
    )

entry-RoundTrips :
    {K V : Type 0} (encode_key : Encoder K) (encode_value : Encoder V) (key : Decoder K)
    (value : Decoder V) (e : K × V)
    → RoundTrips encode_key key e.0
    → RoundTrips encode_value value e.1
    → RoundTrips (safe_item encode_key encode_value) (decode_entry key value) e
unfolding safe_item encode_fields decode_struct
entry-RoundTrips encode_key encode_value key value (k, v) (j, wrote, read) (j', wrote', read') = (
  obj (field "key" j (field "value" j' end)),
  rw (wrote, wrote') refl,
  λ (old_key, old_value). simp (read old_key, read' old_value),
)

pub list-RoundTrips :
    {K V : Type 0} (encode_key : Encoder K) (encode_value : Encoder V) (key : Decoder K)
    (value : Decoder V) (zero_value : K × V) (entries : List (K × V))
    → All (λ e. RoundTrips encode_key key e.0 × RoundTrips encode_value value e.1) entries
    → RoundTrips
        (safe_list encode_key encode_value)
        (decode_slice (decode_entry key value) zero_value)
        entries
unfolding safe_list
list-RoundTrips encode_key encode_value key value zero_value entries all =
    slice-RoundTrips (safe_item encode_key encode_value) (decode_entry key value) zero_value entries
      (weaken_each (λ e both. entry-RoundTrips encode_key encode_value key value e both.0 both.1)
        entries all)
