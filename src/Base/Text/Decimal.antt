-- ===== src/Base/Text/Decimal.antt =====
-- Decimal texts: what show_int prints, parse_int reads.
use Prim.Native.Nat.{ℕ, zero, suc, ◌+◌, ◌*◌, ◌/◌, ◌%◌, ◌^◌, ◌<◌}
use Prim.Native.Char.{code}
use Prim.Native.String.append
use Prim.Native.String.{String, ◌++◌ as ◌<>◌}
use mathlib.Core.Path.{◌≡◌, refl, ap, ◌∙◌}
use mathlib.Core.Logic.{inl, inr}
use mathlib.Core.Bool.{true, false}
use mathlib.Core.List.{List, [], ◌∷◌, ◌++◌, append_assoc, append-nil}
use native.Mathlib.Omega.{arith}
use x4c.Base.Equality.{==_iff, nat_eq}
use x4c.Base.Tests.{ltb, leb, ltb→lt, Bool-cases}
use x4c.Base.Effect.{ok}
use x4c.Base.Int.{ℤ, pos, negsuc, pos_part, neg_part, neg_ℤ}
use x4c.Base.Text.{
  codes, is_digit, digit_text, show_digits, parse_digits, parse_uint, parse_signed, parse_positive,
  parse_negative, parse_int, show_int,
}

pub codes-append : (s t : String) → codes (s <> t) ≡ codes s ++ codes t
codes-append String.[] t = λ i. codes (append.nil t i)
codes-append (String.◌∷◌ c s) t =
    (λ i. codes (append.cons c s t i)) ∙ ap (λ l. code c ∷ l) (codes-append s t)

codes-digit_text : (n : ℕ) → n < 10 → codes (digit_text n) ≡ (48 + n) ∷ []
codes-digit_text zero h = refl
codes-digit_text (suc zero) h = refl
codes-digit_text (suc (suc zero)) h = refl
codes-digit_text (suc (suc (suc zero))) h = refl
codes-digit_text (suc (suc (suc (suc zero)))) h = refl
codes-digit_text (suc (suc (suc (suc (suc zero))))) h = refl
codes-digit_text (suc (suc (suc (suc (suc (suc zero)))))) h = refl
codes-digit_text (suc (suc (suc (suc (suc (suc (suc zero))))))) h = refl
codes-digit_text (suc (suc (suc (suc (suc (suc (suc (suc zero)))))))) h = refl
codes-digit_text (suc (suc (suc (suc (suc (suc (suc (suc (suc zero))))))))) h = refl
codes-digit_text (suc (suc (suc (suc (suc (suc (suc (suc (suc (suc n)))))))))) h =
    absurd (omega arith)

-- One more digit after a number that has been read.
parse_digits-cons :
    (d n : ℕ) (rest : List ℕ)
    → d < 10
    → n * 10 + d < 2 ^ 64
    → parse_digits ((48 + d) ∷ rest) n ≡ parse_digits rest (n * 10 + d)
unfolding parse_digits
parse_digits-cons d n rest h k = ground arith

show_digits-one : (fuel n : ℕ) → ltb n 10 ≡ true → show_digits (suc fuel) n ≡ digit_text n
unfolding show_digits
show_digits-one fuel n h = ground (arith, h)

show_digits-more :
    (fuel n : ℕ)
    → ltb n 10 ≡ false
    → show_digits (suc fuel) n ≡ show_digits fuel (n / 10) <> digit_text (n % 10)
unfolding show_digits
show_digits-more fuel n h = ground (arith, h)

-- Where the fuel is more than the number, the digits are read as the number.
parse_digits-show_digits :
    (fuel n : ℕ) (rest : List ℕ)
    → n < fuel
    → n < 2 ^ 64
    → parse_digits (codes (show_digits fuel n) ++ rest) 0 ≡ parse_digits rest n
parse_digits-show_digits zero n rest h k = absurd (omega arith)
parse_digits-show_digits (suc fuel) n rest h k = elim (Bool-cases (ltb n 10)) [
  | inl small ↦
      let below : n < 10 = ltb→lt n 10 small in
      let zero_plus : 0 * 10 + n ≡ n = omega arith in
      let read = parse_digits-cons n 0 rest below (omega arith) in
      rw (show_digits-one fuel n small, codes-digit_text n below) (rw zero_plus at read)
  | inr big ↦
      let most = n / 10 in
      let last = n % 10 in
      let whole : most * 10 + last ≡ n = omega arith in
      let ih =
        parse_digits-show_digits fuel most ((48 + last) ∷ rest) (ground (arith, big, h))
          (omega arith) in
      let read = parse_digits-cons last most rest (omega arith) (omega arith) in
      rw
        (
          show_digits-more fuel n big,
          codes-append (show_digits fuel most) (digit_text last),
          codes-digit_text last (omega arith),
          append_assoc (codes (show_digits fuel most)) ((48 + last) ∷ []) rest,
        )
        (ih ∙ (rw whole at read))
]

-- The first character of a number is a digit.
show_digits-cons :
    (fuel n : ℕ)
    → n < fuel
    → (c : ℕ) × (s : List ℕ) × (codes (show_digits fuel n) ≡ c ∷ s) × (is_digit c ≡ true)
show_digits-cons zero n h = absurd (omega arith)
show_digits-cons (suc fuel) n h = elim (Bool-cases (ltb n 10)) [
  | inl small ↦
      let below : n < 10 = ltb→lt n 10 small in
      (48 + n, [], rw (show_digits-one fuel n small, codes-digit_text n below) refl, ground arith)
  | inr big ↦
      let (c, s, e, d) = show_digits-cons fuel (n / 10) (ground (arith, big, h)) in
      (
        c,
        s ++ codes (digit_text (n % 10)),
        rw
            (
              show_digits-more fuel n big,
              codes-append (show_digits fuel (n / 10)) (digit_text (n % 10)),
              e,
            )
            refl,
        d,
      )
]

parse_uint-show_digits :
    (fuel n : ℕ) → n < fuel → n < 2 ^ 64 → parse_uint (codes (show_digits fuel n)) ≡ ok n
unfolding parse_uint parse_digits
parse_uint-show_digits fuel n h k =
    let (c, s, e, _) = show_digits-cons fuel n h in
    let read = parse_digits-show_digits fuel n [] h k in
    rw e (rw e at (rw (append-nil (codes (show_digits fuel n))) at read))

-- The decimal text of every int64 is read back as the integer: the fuel of the printing is enough,
-- and the reading finds no fault with it.
pub parse_int-show_int :
    (i : ℤ)
    → ltb (pos_part i) (2 ^ 63) ≡ true
    → leb (neg_part i) (2 ^ 63) ≡ true
    → parse_int (show_int i) ≡ ok i
unfolding parse_int parse_signed parse_positive parse_negative show_int neg_ℤ
parse_int-show_int (pos n) h _ =
    let (c, s, e, d) = show_digits-cons (suc n) n (omega arith) in
    let read = parse_uint-show_digits (suc n) n (omega arith) (ground (arith, h)) in
    let read_cons = rw e at read in
    rw e (ground (arith, d, h, read_cons, ==_iff c b'+', ==_iff c b'-'))
parse_int-show_int (negsuc n) _ h =
    let read = parse_uint-show_digits (suc (suc n)) (suc n) (omega arith) (ground (arith, h)) in
    rw (codes-append "-" (show_digits (suc (suc n)) (suc n)), read) (ground (arith, h))

-- The text of an int64 names it.
pub codes-show_int_injective :
    (i j : ℤ)
    → ltb (pos_part i) (2 ^ 63) ≡ true
    → leb (neg_part i) (2 ^ 63) ≡ true
    → ltb (pos_part j) (2 ^ 63) ≡ true
    → leb (neg_part j) (2 ^ 63) ≡ true
    → codes (show_int i) ≡ codes (show_int j)
    → i ≡ j
unfolding parse_int
codes-show_int_injective i j h k h' k' e =
    ground (arith, parse_int-show_int i h k, parse_int-show_int j h' k', ap parse_signed e)
