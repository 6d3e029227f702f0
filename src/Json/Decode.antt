-- ===== src/Json/Decode.antt =====
-- Decoding a JSON value into a Go value that is already there: `null` leaves most values alone, and
-- the fields that an object does not name keep theirs. Where a value does not fit, the source's
-- callers drop the whole result, so the first such error ends the decoding here.
use x4c.Base.{
  ℕ, String, Option, none, some, List, [], ◌∷◌, Bool, true, false, ◌&&◌, Outcome, ok, err, Error,
  errorf, try, if◌then◌else◌, ◌==◌, string_eq, bytes_eq,
}
use x4c.Base.Int.{ℤ, pos, negsuc, leb_ℤ}
use x4c.Base.Text.{parse_int, fold_name}
use x4c.Base.Dict.{Dict, insert}
use x4c.Json.Value.{Json, null, bool, num, str, arr, obj, Items, nil, cons, Fields, end, field}
use x4c.Json.Number.{is_valid_number}

abbrev pub Decoder : Type 0 → Type 0
Decoder A = Json → A → Outcome Error A

abbrev pub mismatch : Error
mismatch = errorf "json: cannot unmarshal value"

abbrev pub decode_string : Decoder String
decode_string null old = ok old
decode_string (str s) old = ok s
decode_string _ old = err mismatch

abbrev pub decode_bool : Decoder Bool
decode_bool null old = ok old
decode_bool (bool b) old = ok b
decode_bool _ old = err mismatch

-- A json.Number, which is the text of a number.
abbrev pub decode_number : Decoder String
decode_number null old = ok old
decode_number (num s) old = ok s
decode_number (str s) old =
    if is_valid_number s then ok s else err (errorf "json: invalid number literal")
decode_number _ old = err mismatch

abbrev pub decode_int64 : Decoder ℤ
decode_int64 null old = ok old
decode_int64 (num s) old = parse_int s
decode_int64 _ old = err mismatch

abbrev fits_int32 : ℤ → Bool
fits_int32 n = leb_ℤ n (pos 2147483647) && leb_ℤ (negsuc 2147483647) n

abbrev pub decode_int32 : Decoder ℤ
decode_int32 j old = try (decode_int64 j old) (λ n. if fits_int32 n then ok n else err mismatch)

-- A json.RawMessage: text that is kept as it is. `none` is text that is no JSON, as the empty one.
abbrev pub Raw : Type 0
Raw = Option Json

abbrev pub decode_raw : Decoder Raw
decode_raw j old = ok (some j)

-- A `*string`
abbrev pub decode_string_pointer : Decoder (Option String)
decode_string_pointer null old = ok none
decode_string_pointer (str s) old = ok (some s)
decode_string_pointer _ old = err mismatch

module _ {A : Type 0} (decode : Decoder A) (zero_value : A) where
  unfoldable pub decode_items : Items → Outcome Error (List A)
  decode_items nil = ok []
  decode_items (cons j js) =
      let rest = decode_items js in
      try (decode j zero_value) (λ a. try rest (λ as_list. ok (a ∷ as_list)))

  -- A slice that was nil.
  unfoldable pub decode_slice : Decoder (List A)
  unfolding decode_items
  decode_slice null old = ok []
  decode_slice (arr js) old = decode_items js
  decode_slice _ old = err mismatch

-- A `map[string]string`
decode_entries : Fields → Dict String String → Outcome Error (Dict String String)
decode_entries end d = ok d
decode_entries (field k j fs) d =
    let rest = λ (v : String). decode_entries fs (insert k v d) in try (decode_string j "") rest

unfoldable pub decode_string_map : Decoder (Dict String String)
unfolding decode_entries
decode_string_map null old = ok []
decode_string_map (obj fs) old = decode_entries fs old
decode_string_map _ old = err mismatch

-- The fields of a struct: the name in the JSON, and decoding into the field.
abbrev pub Table : Type 0 → Type 0
Table A = List (String × Decoder A)

-- How a field of a struct is decoded, from its getter and setter.
abbrev pub into : {A B : Type 0} → Decoder B → (A → B) → (A → B → A) → Decoder A
into decode get set j a = try (decode j (get a)) (λ b. ok (set a b))

-- The fields of an embedded struct.
abbrev pub embedded : {A B : Type 0} → Table B → (A → B) → (A → B → A) → Table A
embedded [] get set = []
embedded ((name, decode) ∷ t) get set = (name, into decode get set) ∷ embedded t get set

module _ {A : Type 0} where
  find_exact : Table A → String → Option (Decoder A)
  find_exact [] name = none
  find_exact ((n, decode) ∷ t) name = if n == name then some decode else find_exact t name

  find_folded : Table A → List ℕ → Option (Decoder A)
  find_folded [] name = none
  find_folded ((n, decode) ∷ t) name =
      if fold_name n == name then some decode else find_folded t name

  -- The exact name first, then the same letters in either case.
  find_field : Table A → String → Option (Decoder A)
  unfolding find_exact find_folded
  find_field t name = elim (find_exact t name) [
    | some decode ↦ some decode
    | none ↦ find_folded t (fold_name name)
  ]

  -- A name that no field has is skipped, or refused after `DisallowUnknownFields`.
  decode_fields : Bool → Table A → Fields → A → Outcome Error A
  decode_fields strict t end a = ok a
  decode_fields strict t (field name j fs) a =
      let rest = λ (b : A). decode_fields strict t fs b in
      elim (find_field t name) [
        | some decode ↦ try (decode j a) rest
        | none ↦ if strict then err (errorf "json: unknown field") else rest a
      ]

  decode_struct_as : Bool → Table A → Decoder A
  decode_struct_as strict t null a = ok a
  decode_struct_as strict t (obj fs) a = decode_fields strict t fs a
  decode_struct_as strict t _ a = err mismatch

  unfoldable pub decode_struct : Table A → Decoder A
  unfolding decode_struct_as decode_fields find_field find_exact find_folded string_eq bytes_eq
      fold_name
  decode_struct t = decode_struct_as false t

  unfoldable pub decode_struct_strictly : Table A → Decoder A
  unfolding decode_struct_as decode_fields find_field find_exact find_folded string_eq bytes_eq
      fold_name
  decode_struct_strictly t = decode_struct_as true t

-- `json.Unmarshal`
abbrev pub unmarshal : {A : Type 0} → Decoder A → Raw → A → Outcome Error A
unmarshal decode none a = err (errorf "invalid JSON")
unmarshal decode (some j) a = decode j a
