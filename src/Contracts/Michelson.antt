-- ===== src/Contracts/Michelson.antt =====
-- How a contract reads the Micheline value that is its parameter. What tzgo and the node make of
-- the values that the Go code builds is a parameter, with the documented meaning of the constructors.
use x4c.Base.{ℕ, String, ◌≡◌, refl, List, [], ◌∷◌, Outcome, ok, err, Error, errorf, try}
use x4c.Base.Int.{pos, negsuc}
use x4c.Host.{Host, OpCode, d_pair, d_elt}

pub record Michelson (H : Host) : Type 0 where
  pub as_string : H.Prim → Outcome Error String
  pub as_bytes : H.Prim → Outcome Error (List ℕ)
  pub as_nat : H.Prim → Outcome Error ℕ
  pub as_pair : H.Prim → Outcome Error (H.Prim × H.Prim)
  pub as_seq : H.Prim → Outcome Error (List H.Prim)
  pub as_code : H.Prim → Outcome Error (OpCode × List H.Prim)
  pub as_string-new_string : (s : String) → as_string (H.new_string s) ≡ ok s
  pub as_bytes-new_bytes : (b : List ℕ) → as_bytes (H.new_bytes b) ≡ ok b
  pub as_nat-new_nat : (n : ℕ) → as_nat (H.new_nat (pos n)) ≡ ok n
  pub as_nat-new_nat_neg : (n : ℕ) → (e : Error) × (as_nat (H.new_nat (negsuc n)) ≡ err e)
  pub as_pair-new_pair : (p q : H.Prim) → as_pair (H.new_pair p q) ≡ ok (p, q)
  -- `Pair a b c` is `Pair a (Pair b c)`.
  pub as_pair-new_code :
      (p q r : H.Prim)
      → (rest : H.Prim) × (as_pair (H.new_code d_pair (p ∷ q ∷ r ∷ [])) ≡ ok (p, rest))
        × (as_pair rest ≡ ok (q, r))
  pub as_seq-new_seq : (ps : List H.Prim) → as_seq (H.new_seq ps) ≡ ok ps
  pub as_seq-sequence : (ps : List H.Prim) → as_seq (H.sequence ps) ≡ ok ps
  pub as_code-new_code : (c : OpCode) (ps : List H.Prim) → as_code (H.new_code c ps) ≡ ok (c, ps)
  pub as_code-binary : (c : OpCode) (ps : List H.Prim) → as_code (H.binary c ps) ≡ ok (c, ps)

abbrev pub Reads : Host → Type 0 → Type 0
Reads H A = H.Prim → Outcome Error A

-- A list is read element by element.
unfoldable pub read_list : {P A : Type 0} → (P → Outcome Error A) → List P → Outcome Error (List A)
read_list read [] = ok []
read_list read (p ∷ ps) =
    let rest = read_list read ps in try (read p) (λ a. try rest (λ rest_read. ok (a ∷ rest_read)))

module _ {H : Host} (M : Michelson H) where
  abbrev pub read_pair : {A B : Type 0} → Reads H A → Reads H B → Reads H (A × B)
  read_pair first second p =
      try (M.as_pair p) (λ (a, b). try (first a) (λ x. try (second b) (λ y. ok (x, y))))

  unfoldable pub read_seq : {A : Type 0} → Reads H A → Reads H (List A)
  unfolding read_list
  read_seq read p = try (M.as_seq p) (read_list read)

  -- A big map lists its entries.
  abbrev pub read_elt_of :
      {K V : Type 0} → Reads H K → Reads H V → OpCode × List H.Prim → Outcome Error (K × V)
  read_elt_of key value (d_elt, k ∷ v ∷ []) =
      try (key k) (λ read_key. try (value v) (λ read_value. ok (read_key, read_value)))
  read_elt_of key value _ = err (errorf "not an entry of a map")

  abbrev pub read_big_map : {K V : Type 0} → Reads H K → Reads H V → Reads H (List (K × V))
  read_big_map key value = read_seq (λ p. try (M.as_code p) (read_elt_of key value))

  pub read_seq-new_seq_nil : {A : Type 0} (read : Reads H A) → read_seq read (H.new_seq []) ≡ ok []
  unfolding read_seq read_list
  read_seq-new_seq_nil read = rw (M.as_seq-new_seq []) refl

  pub read_pair-new_code :
      {A B C : Type 0} (first : Reads H A) (second : Reads H B) (third : Reads H C) {p q r : H.Prim}
      {a : A} {b : B} {c : C}
      → first p ≡ ok a
      → second q ≡ ok b
      → third r ≡ ok c
      → read_pair first (read_pair second third) (H.new_code d_pair (p ∷ q ∷ r ∷ []))
        ≡ ok (a, (b, c))
  read_pair-new_code first second third {p} {q} {r} h k l =
      let (rest, outer, inner) = M.as_pair-new_code p q r in rw (outer, h, inner, k, l) refl

  pub read_pair-new_pair :
      {A B : Type 0} (first : Reads H A) (second : Reads H B) {p q : H.Prim} {a : A} {b : B}
      → first p ≡ ok a
      → second q ≡ ok b
      → read_pair first second (H.new_pair p q) ≡ ok (a, b)
  read_pair-new_pair first second {p} {q} h k = rw (M.as_pair-new_pair p q, h, k) refl

  pub read_seq-new_seq_one :
      {A : Type 0} (read : Reads H A) {p : H.Prim} {a : A}
      → read p ≡ ok a
      → read_seq read (H.new_seq (p ∷ [])) ≡ ok (a ∷ [])
  unfolding read_seq read_list
  read_seq-new_seq_one read {p} h = rw (M.as_seq-new_seq (p ∷ []), h) refl

  pub read_seq-new_seq_two :
      {A : Type 0} (read : Reads H A) {p q : H.Prim} {a b : A}
      → read p ≡ ok a
      → read q ≡ ok b
      → read_seq read (H.new_seq (p ∷ q ∷ [])) ≡ ok (a ∷ b ∷ [])
  unfolding read_seq read_list
  read_seq-new_seq_two read {p} {q} h k = rw (M.as_seq-new_seq (p ∷ q ∷ []), h, k) refl

-- What is read, as another type.
abbrev pub read_as : {A B : Type 0} → (A → B) → Outcome Error A → Outcome Error B
read_as f r = try r (λ a. ok (f a))

pub read_as-eq-ok :
    {A B : Type 0} (f : A → B) {r : Outcome Error A} {a : A} → r ≡ ok a → read_as f r ≡ ok (f a)
read_as-eq-ok f h = rw (h) refl
