-- ===== src/Json/RoundTrips.antt =====
-- What is written of a Go value is read back as the value.
use x4c.Base.{
  ◌^◌, String, ◌≡◌, true, false, Bool-cases, inl, inr, List, [], ◌∷◌, ok, All, ltb, leb, arith,
  ◌==◌, ==_iff, string_eq, refl,
}
use x4c.Base.Int.{ℤ, pos_part, neg_part}
use x4c.Base.Text.{show_int}
use x4c.Base.Text.Decimal.{parse_int-show_int}
use x4c.Json.Value.{Json, Items, str, num, arr, nil, cons}
use x4c.Json.Decode.{Decoder, decode_string, decode_int64, decode_slice, decode_items}
use x4c.Json.Number.{is_valid_number}
use x4c.Json.Encode.{Encoder, encode_string, encode_int64, encode_slice, encode_items}

-- What is written of the value is read back as the value, whatever was there.
abbrev pub RoundTrips : {A : Type 0} → Encoder A → Decoder A → A → Type 0
RoundTrips {A} encode decode a = (j : Json) × (encode a ≡ ok j) × ((old : A) → decode j old ≡ ok a)

-- An int64
abbrev pub Fits : ℤ → Type 0
Fits i = (ltb (pos_part i) (2 ^ 63) ≡ true) × (leb (neg_part i) (2 ^ 63) ≡ true)

pub string-RoundTrips : (s : String) → RoundTrips encode_string decode_string s
string-RoundTrips s = (str s, refl, λ old. refl)

pub int64-RoundTrips : (i : ℤ) → Fits i → RoundTrips encode_int64 decode_int64 i
unfolding encode_int64
int64-RoundTrips i fits = (num (show_int i), refl, λ old. parse_int-show_int i fits.0 fits.1)

pub not_empty : (s : String) → is_valid_number s ≡ true → (s == "") ≡ false
unfolding is_valid_number
not_empty s valid = elim (Bool-cases (s == "")) [
  | inr filled ↦ filled
  | inl is_empty ↦
      let empty : s ≡ "" = ground (arith, is_empty, ==_iff s "") in
      let valid_empty : is_valid_number "" ≡ true = rw empty at valid in ground (arith, valid_empty)
]

items-RoundTrip :
    {A : Type 0} (encode : Encoder A) (decode : Decoder A) (zero_value : A) (as_list : List A)
    → All (λ a. RoundTrips encode decode a) as_list
    → (js : Items) × (encode_items encode as_list ≡ ok js)
      × (decode_items decode zero_value js ≡ ok as_list)
unfolding encode_items decode_items
items-RoundTrip encode decode zero_value [] all = (nil, refl, refl)
items-RoundTrip encode decode zero_value (a ∷ as_list) ((j, wrote, read), all) =
    let (js, wrote_rest, read_rest) = items-RoundTrip encode decode zero_value as_list all in
    (cons j js, rw (wrote, wrote_rest) refl, rw (read zero_value, read_rest) refl)

pub slice-RoundTrips :
    {A : Type 0} (encode : Encoder A) (decode : Decoder A) (zero_value : A) (as_list : List A)
    → All (λ a. RoundTrips encode decode a) as_list
    → RoundTrips (encode_slice encode) (decode_slice decode zero_value) as_list
unfolding encode_slice decode_slice
slice-RoundTrips encode decode zero_value as_list all =
    let (js, wrote, read) = items-RoundTrip encode decode zero_value as_list all in
    (arr js, rw wrote refl, λ old. read)
