-- ===== src/Json/Encode.antt =====
-- Encoding of Go values as JSON: what json.Marshal makes of the types that the program marshals. A
-- nil slice is an empty one here, and is written as that.
use x4c.Base.{
  String, List, [], ◌∷◌, Option, none, some, Outcome, ok, err, Error, errorf, try, if◌then◌else◌,
  ◌==◌, string_eq,
}
use x4c.Base.Int.{ℤ}
use x4c.Base.Text.{show_int}
use x4c.Json.Value.{Json, null, num, str, arr, obj, Items, nil, cons, Fields, end, field}
use x4c.Json.Decode.{Raw}
use x4c.Json.Number.{is_valid_number}

abbrev pub Encoder : Type 0 → Type 0
Encoder A = A → Outcome Error Json

abbrev pub encode_string : Encoder String
encode_string s = ok (str s)

unfoldable pub encode_int64 : Encoder ℤ
unfolding show_int
encode_int64 n = ok (num (show_int n))

-- An empty json.Number is written as 0.
unfoldable pub encode_number : Encoder String
unfolding is_valid_number string_eq
encode_number s =
    if s == ""
    then ok (num "0")
    else if is_valid_number s
    then ok (num s)
    else err (errorf "json: invalid number literal")

abbrev pub encode_raw : Encoder Raw
encode_raw none = ok null
encode_raw (some j) = ok j

module _ {A : Type 0} (encode : Encoder A) where
  unfoldable pub encode_items : List A → Outcome Error Items
  encode_items [] = ok nil
  encode_items (a ∷ as_list) =
      let rest = encode_items as_list in try (encode a) (λ j. try rest (λ js. ok (cons j js)))

  unfoldable pub encode_slice : Encoder (List A)
  unfolding encode_items
  encode_slice as_list = try (encode_items as_list) (λ js. ok (arr js))

-- The fields of a struct, with what their values are encoded as.
unfoldable pub encode_fields : List (String × Outcome Error Json) → Outcome Error Fields
encode_fields [] = ok end
encode_fields ((name, value) ∷ fields) =
    let rest = encode_fields fields in try value (λ j. try rest (λ fs. ok (field name j fs)))

abbrev pub encode_struct : List (String × Outcome Error Json) → Outcome Error Json
encode_struct fields = try (encode_fields fields) (λ fs. ok (obj fs))

-- A `*string` with omitempty
abbrev pub omit_empty : String → Option String → List (String × Outcome Error Json)
omit_empty name none = []
omit_empty name (some s) = (name, encode_string s) ∷ []
