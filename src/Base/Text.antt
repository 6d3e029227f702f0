-- ===== src/Base/Text.antt =====
-- Strings as the source walks them: code points, UTF-8 bytes, hexadecimal, prefixes, and decimal
-- integers as `strconv.ParseInt(s, 10, 64)` reads them.
pub mod Decimal
use Prim.Native.Nat.{ℕ, zero, suc, ◌+◌, ◌-◌, ◌*◌, ◌/◌, ◌%◌, ◌^◌}
use Prim.Native.Char.{code}
use Prim.Native.String.{String, ◌++◌ as ◌<>◌}
use mathlib.Core.Bool.{Bool, true, false, ◌&&◌}
use mathlib.Core.Option.{Option, none, some}
use mathlib.Core.List.{List, [], ◌∷◌, map, flat_map}
use x4c.Base.Equality.{if◌then◌else◌, ◌==◌, nat_eq}
use native.Mathlib.Decide.{ℕ_discrete}
use x4c.Base.Tests.{ltb, leb}
use x4c.Base.Int.{ℤ, pos, negsuc, neg_ℤ}
use x4c.Base.Effect.{Outcome, ok, err, Error, errorf}

abbrev pub codes : String → List ℕ
codes String.[] = []
codes (String.◌∷◌ c s) = code c ∷ codes s

-- The bytes of one code point in UTF-8.
unfoldable pub utf8 : ℕ → List ℕ
utf8 c =
    if ltb c 128
    then c ∷ []
    else if ltb c 2048
    then (192 + c / 64) ∷ (128 + c % 64) ∷ []
    else if ltb c 65536
    then (224 + c / 4096) ∷ (128 + c / 64 % 64) ∷ (128 + c % 64) ∷ []
    else (240 + c / 262144) ∷ (128 + c / 4096 % 64) ∷ (128 + c / 64 % 64) ∷ (128 + c % 64) ∷ []

-- `[]byte(s)`
unfoldable pub to_bytes : String → List ℕ
unfolding utf8
to_bytes s = flat_map utf8 (codes s)

abbrev pub is_digit : ℕ → Bool
is_digit c = leb b'0' c && leb c b'9'

-- `strconv.ParseUint(s, 10, 64)` from the value read so far.
parse_digits : List ℕ → ℕ → Outcome Error ℕ
parse_digits [] n = ok n
parse_digits (c ∷ s) n =
    let rest = parse_digits s (n * 10 + (c - b'0')) in
    if is_digit c
    then if ltb (n * 10 + (c - b'0')) (2 ^ 64) then rest else err (errorf "value out of range")
    else err (errorf "invalid syntax")

parse_uint : List ℕ → Outcome Error ℕ
parse_uint [] = err (errorf "invalid syntax")
parse_uint (c ∷ s) = parse_digits (c ∷ s) 0

-- The range of an int64.
parse_positive : Outcome Error ℕ → Outcome Error ℤ
parse_positive (err e) = err e
parse_positive (ok n) = if ltb n (2 ^ 63) then ok (pos n) else err (errorf "value out of range")

parse_negative : Outcome Error ℕ → Outcome Error ℤ
parse_negative (err e) = err e
parse_negative (ok n) =
    if leb n (2 ^ 63) then ok (neg_ℤ (pos n)) else err (errorf "value out of range")

parse_signed : List ℕ → Outcome Error ℤ
parse_signed [] = err (errorf "invalid syntax")
parse_signed (c ∷ s) =
    if c == b'+'
    then parse_positive (parse_uint s)
    else if c == b'-'
    then parse_negative (parse_uint s)
    else parse_positive (parse_uint (c ∷ s))

-- `strconv.ParseInt(s, 10, 64)`, which `json.Number.Int64` calls too.
unfoldable pub parse_int : String → Outcome Error ℤ
unfolding parse_signed parse_negative parse_positive parse_uint parse_digits neg_ℤ nat_eq ℕ_discrete
parse_int s = parse_signed (codes s)

-- `strings.HasPrefix(s, prefix)` and `strings.TrimPrefix(s, prefix)`, at once: what follows the prefix.
unfoldable pub strip_prefix : String → String → Option String
unfolding nat_eq ℕ_discrete
strip_prefix String.[] s = some s
strip_prefix (String.◌∷◌ c p) String.[] = none
strip_prefix (String.◌∷◌ c p) (String.◌∷◌ d s) =
    let rest = strip_prefix p s in if code c == code d then rest else none

pub hex_digit : ℕ → Option ℕ
hex_digit c =
    if is_digit c
    then some (c - b'0')
    else if leb b'a' c && leb c b'f'
    then some (c - b'a' + 10)
    else if leb b'A' c && leb c b'F'
    then some (c - b'A' + 10)
    else none

hex_byte : Option ℕ → Option ℕ → Outcome Error (List ℕ) → Outcome Error (List ℕ)
hex_byte (some a) (some b) (ok rest) = ok ((a * 16 + b) ∷ rest)
hex_byte (some a) (some b) (err e) = err e
hex_byte (some a) none rest = err (errorf "encoding/hex: invalid byte")
hex_byte none b rest = err (errorf "encoding/hex: invalid byte")

hex_bytes : List ℕ → Outcome Error (List ℕ)
unfolding hex_digit
hex_bytes [] = ok []
hex_bytes (c ∷ []) = err (errorf "encoding/hex: odd length hex string")
hex_bytes (c ∷ d ∷ s) = hex_byte (hex_digit c) (hex_digit d) (hex_bytes s)

-- `hex.DecodeString`
unfoldable pub decode_hex : String → Outcome Error (List ℕ)
unfolding hex_bytes hex_byte hex_digit
decode_hex s = hex_bytes (codes s)

-- The ASCII part of the folding that encoding/json uses for the names of fields.
abbrev lower : ℕ → ℕ
lower c = if leb b'A' c && leb c b'Z' then c + 32 else c

unfoldable pub fold_name : String → List ℕ
fold_name s = map lower (codes s)

abbrev digit_text : ℕ → String
digit_text zero = "0"
digit_text (suc zero) = "1"
digit_text (suc (suc zero)) = "2"
digit_text (suc (suc (suc zero))) = "3"
digit_text (suc (suc (suc (suc zero)))) = "4"
digit_text (suc (suc (suc (suc (suc zero))))) = "5"
digit_text (suc (suc (suc (suc (suc (suc zero)))))) = "6"
digit_text (suc (suc (suc (suc (suc (suc (suc zero))))))) = "7"
digit_text (suc (suc (suc (suc (suc (suc (suc (suc zero)))))))) = "8"
digit_text (suc (suc (suc (suc (suc (suc (suc (suc n)))))))) = "9"

-- Decimal digits. A number has fewer digits than the fuel, which is the number plus one.
show_digits : ℕ → ℕ → String
show_digits zero n = ""
show_digits (suc fuel) n = elim (ltb n 10) [
  | true ↦ digit_text n
  | false ↦ show_digits fuel (n / 10) <> digit_text (n % 10)
]

-- `%d` of an integer.
unfoldable pub show_int : ℤ → String
unfolding show_digits
show_int (pos n) = show_digits (suc n) n
show_int (negsuc n) = "-" <> show_digits (suc (suc n)) (suc n)
