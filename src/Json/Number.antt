-- ===== src/Json/Number.antt =====
-- `isValidNumber` of encoding/json: the literals that a json.Number may hold.
use x4c.Base.{
  ◌≡◌, refl, Bool, true, false, ℕ, List, [], ◌∷◌, String, ◌||◌, if◌then◌else◌, ◌==◌, nat_eq,
  ℕ_discrete,
}
use x4c.Base.Text.{codes, is_digit}

-- What is left after leading digits.
skip_digits : List ℕ → List ℕ
skip_digits [] = []
skip_digits (c ∷ s) = let rest = skip_digits s in if is_digit c then rest else c ∷ s

-- At least one digit, and nothing after the digits.
only_digits : List ℕ → Bool
unfolding skip_digits
only_digits [] = false
only_digits (c ∷ s) =
    if is_digit c then elim (skip_digits s) [ [] ↦ true | _ ∷ _ ↦ false ] else false

after_sign : List ℕ → Bool
unfolding only_digits nat_eq ℕ_discrete
after_sign [] = false
after_sign (c ∷ s) = if c == b'+' || c == b'-' then only_digits s else only_digits (c ∷ s)

exponent : List ℕ → Bool
unfolding after_sign
exponent [] = true
exponent (c ∷ s) = if c == b'e' || c == b'E' then after_sign s else false

-- The digits after the point; one is needed.
first_digit : List ℕ → Bool
unfolding exponent
first_digit [] = false
first_digit (c ∷ s) = if is_digit c then exponent (skip_digits s) else false

fraction : List ℕ → Bool
unfolding first_digit
fraction [] = true
fraction (c ∷ s) = if c == b'.' then first_digit s else exponent (c ∷ s)

integer_part : List ℕ → Bool
unfolding fraction
integer_part [] = false
integer_part (c ∷ s) =
    if c == b'0' then fraction s else if is_digit c then fraction (skip_digits s) else false

unsigned : List ℕ → Bool
unfolding integer_part
unsigned [] = false
unsigned (c ∷ s) = if c == b'-' then integer_part s else integer_part (c ∷ s)

unfoldable pub is_valid_number : String → Bool
unfolding unsigned
is_valid_number s = unsigned (codes s)

number_samples :
    (is_valid_number "-0.5e+3" ≡ true)
    × (is_valid_number "" ≡ false)
    × (is_valid_number "01" ≡ false)
    × (is_valid_number "7e" ≡ false)
unfolding is_valid_number
number_samples = (refl, refl, refl, refl)
