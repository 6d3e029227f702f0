-- ===== src/Contracts/Balance.antt =====
-- What both contracts share: LIGO's folds with `failwith`, and `update_balance`, with its effect on
-- a balance and on a sum of balances. An address is its text, and `bytes` are numbers.
use x4c.Base.{
  ℕ, ◌+◌, ◌≤◌, String, ◌≡◌, refl, Bool, true, List, [], ◌∷◌, Option, none, some, Outcome, ok, err,
  try, try-eq-ok, ok-injective, subst, ap, if◌then◌else◌, ◌==◌, Eq, arith, nat_eq, All,
}
use x4c.Base.Int.{ℤ, pos, pos_part, neg_part, ◌+ℤ◌, ltb_ℤ, +ℤ_parts}
use x4c.Base.Dict.{
  Dict, lookup, insert, erase, NodupKeys, lookup-insert, lookup-erase_ne, lookup-erase_self,
  insert-NodupKeys, erase-NodupKeys,
}

abbrev pub Address : Type 0
Address = String

abbrev pub Bytes : Type 0
Bytes = List ℕ

-- `Tezos.get_sender`, `get_source` and `get_self_address` in one call of a contract.
pub record Context : Type 0 where
  pub sender : Address
  pub source : Address
  pub self_address : Address

-- `failwith` carries the code of an error.
abbrev pub Failing : Type 0 → Type 0
Failing A = Outcome ℕ A

-- `List.fold` of a function that may fail.
unfoldable pub fold {ℓ} : {A : Type 0} {B : Type ℓ} → (A → B → Failing A) → List B → A → Failing A
fold {A = A} f [] a = ok a
fold {A = A} f (b ∷ bs) a = let rest = λ (a' : A). fold f bs a' in try (f a b) rest

abbrev or_zero : Option ℕ → ℕ
or_zero none = 0
or_zero (some n) = n

module _ {K : Type 0} ⦃e : Eq K⦄ where
  -- `Big_map.find_opt` with 0 for no entry.
  unfoldable pub balance : K → Dict K ℕ → ℕ
  balance k ledger = or_zero (lookup k ledger)

  -- `Big_map.update`
  abbrev put_balance : K → ℕ → Dict K ℕ → Dict K ℕ
  put_balance k new_bal ledger = if new_bal == 0 then erase k ledger else insert k new_bal ledger

  -- Both contracts have this function, under two codes for the error.
  unfoldable pub update_balance : ℕ → K → ℤ → Dict K ℕ → Failing (Dict K ℕ)
  unfolding balance
  update_balance insufficient k diff ledger =
      let new_bal = pos (balance k ledger) +ℤ diff in
      if ltb_ℤ new_bal (pos 0)
      then err insufficient
      else ok (put_balance k (pos_part new_bal) ledger)

  -- The sum of the balances of the keys that pass a test.
  unfoldable pub sum_where : (K → Bool) → Dict K ℕ → ℕ
  sum_where p [] = 0
  sum_where p ((k, n) ∷ d) = (if p k then n else 0) + sum_where p d

  sum_where-insert :
      (p : K → Bool) (k : K) (n : ℕ) (d : Dict K ℕ)
      → sum_where p (insert k n d) + (if p k then balance k d else 0)
        ≡ sum_where p d + (if p k then n else 0)
  unfolding sum_where balance insert lookup
  sum_where-insert p k n [] = ground arith
  sum_where-insert p k n ((j, m) ∷ d) = ground (arith, sum_where-insert p k n d)

  sum_where-erase :
      (p : K → Bool) (k : K) (d : Dict K ℕ)
      → sum_where p (erase k d) + (if p k then balance k d else 0) ≡ sum_where p d
  unfolding sum_where balance erase lookup
  sum_where-erase p k [] = ground arith
  sum_where-erase p k ((j, m) ∷ d) = ground (arith, sum_where-erase p k d)

  -- A balance is at most a sum that it is part of.
  pub balance-le-sum_where :
      (p : K → Bool) (k : K) (d : Dict K ℕ) → p k ≡ true → balance k d ≤ sum_where p d
  unfolding sum_where balance lookup
  balance-le-sum_where p k [] h = ground arith
  balance-le-sum_where p k ((j, n) ∷ d) h = ground (arith, balance-le-sum_where p k d h)

  -- An update that succeeds writes the old balance plus the difference.
  update_balance-eq-ok :
      (code : ℕ) (k : K) (diff : ℤ) (d : Dict K ℕ) {d' : Dict K ℕ}
      → update_balance code k diff d ≡ ok d'
      → (n : ℕ) × (d' ≡ put_balance k n d) × (n + neg_part diff ≡ balance k d + pos_part diff)
  unfolding update_balance
  update_balance-eq-ok code k diff d h = (
    pos_part (pos (balance k d) +ℤ diff),
    ground arith,
    ground (arith, +ℤ_parts (pos (balance k d)) diff),
  )

  -- An update that does not go below 0 succeeds.
  pub update_balance-ok :
      (code : ℕ) (k : K) (diff : ℤ) (d : Dict K ℕ)
      → neg_part diff ≤ balance k d + pos_part diff
      → (d' : Dict K ℕ) × (update_balance code k diff d ≡ ok d')
  unfolding update_balance
  update_balance-ok code k diff d h = (
    put_balance k (pos_part (pos (balance k d) +ℤ diff)) d,
    ground (arith, h, +ℤ_parts (pos (balance k d)) diff),
  )

  -- An update that succeeds moves the sum by the difference if the key passes the test.
  pub sum_where-update_balance :
      (p : K → Bool) (code : ℕ) (k : K) (diff : ℤ) (d : Dict K ℕ) {d' : Dict K ℕ}
      → update_balance code k diff d ≡ ok d'
      → sum_where p d' + (if p k then neg_part diff else 0)
        ≡ sum_where p d + (if p k then pos_part diff else 0)
  sum_where-update_balance p code k diff d h =
      let (n, e, m) = update_balance-eq-ok code k diff d h in
      ground (arith, e, m, sum_where-insert p k n d, sum_where-erase p k d)

  -- It moves the balance of the key by the difference, and no other.
  pub balance-update_balance :
      (j : K) (code : ℕ) (k : K) (diff : ℤ) (d : Dict K ℕ) {d' : Dict K ℕ}
      → NodupKeys d
      → update_balance code k diff d ≡ ok d'
      → balance j d' + (if j == k then neg_part diff else 0)
        ≡ balance j d + (if j == k then pos_part diff else 0)
  unfolding balance
  balance-update_balance j code k diff d u h =
      let (n, e, m) = update_balance-eq-ok code k diff d h in
      ground (arith, e, m, lookup-insert j k n d, lookup-erase_self k d u, lookup-erase_ne j k d)

  pub update_balance-NodupKeys :
      (code : ℕ) (k : K) (diff : ℤ) (d : Dict K ℕ) {d' : Dict K ℕ}
      → NodupKeys d
      → update_balance code k diff d ≡ ok d'
      → NodupKeys d'
  unfolding update_balance
  update_balance-NodupKeys code k diff d u h =
      ground (
        arith,
        insert-NodupKeys k (pos_part (pos (balance k d) +ℤ diff)) d u,
        erase-NodupKeys k d u,
      )

-- What every step keeps, the fold keeps.
pub fold_inv {ℓ κ} :
    {A : Type 0} {B : Type ℓ} (P : A → Type κ) (f : A → B → Failing A)
    → ((a : A) (b : B) (a' : A) → f a b ≡ ok a' → P a → P a')
    → (bs : List B) (a a' : A) → fold f bs a ≡ ok a'
    → P a
    → P a'
unfolding fold
fold_inv P f step [] a a' h p = subst P (ok-injective h) p
fold_inv P f step (b ∷ bs) a a' h p =
    let (m, e, rest) = try-eq-ok (f a b) (λ a'. fold f bs a') h in
    fold_inv P f step bs m a' rest (step a b m e p)

-- The sum of what a function gives for the elements.
abbrev pub total {ℓ} : {B : Type ℓ} → (B → ℕ) → List B → ℕ
total w [] = 0
total w (b ∷ bs) = w b + total w bs

-- What every step finds of its element, the fold finds of all.
pub fold-All {ℓ κ} :
    {A : Type 0} {B : Type ℓ} (P : A → Type κ) (Q : B → Type κ) (f : A → B → Failing A)
    → ((a : A) (b : B) (a' : A) → f a b ≡ ok a' → P a → P a' × Q b)
    → (bs : List B) (a a' : A) → fold f bs a ≡ ok a'
    → P a
    → P a' × All Q bs
unfolding fold
fold-All P Q f step [] a a' h p = (subst P (ok-injective h) p, tt)
fold-All P Q f step (b ∷ bs) a a' h p =
    let (m, e, rest) = try-eq-ok (f a b) (λ a'. fold f bs a') h in
    let (pm, q) = step a b m e p in
    let (p', qs) = fold-All P Q f step bs m a' rest pm in (p', (q, qs))

pub total-zero {ℓ} : {B : Type ℓ} (bs : List B) → total (λ _. 0) bs ≡ 0
total-zero [] = refl
total-zero (b ∷ bs) = omega (arith, total-zero {ℓ} bs)

-- A measure that every step moves by what goes out and what comes in, the fold moves by the sums.
-- The steps may use what all of them keep.
pub fold_moves_inv {ℓ κ} :
    {A : Type 0} {B : Type ℓ} (P : A → Type κ) (m : A → ℕ) (out into : B → ℕ)
    (f : A → B → Failing A)
    → ((a : A) (b : B) (a' : A) → f a b ≡ ok a' → P a → P a' × (m a' + out b ≡ m a + into b))
    → (bs : List B) (a a' : A) → fold f bs a ≡ ok a'
    → P a
    → m a' + total out bs ≡ m a + total into bs
unfolding fold
fold_moves_inv P m out into f step [] a a' h p = omega (arith, ap m (ok-injective h))
fold_moves_inv P m out into f step (b ∷ bs) a a' h p =
    let (a1, e, rest) = try-eq-ok (f a b) (λ a'. fold f bs a') h in
    let (p1, moved) = step a b a1 e p in
    omega (arith, moved, fold_moves_inv P m out into f step bs a1 a' rest p1)

pub fold_moves {ℓ} :
    {A : Type 0} {B : Type ℓ} (m : A → ℕ) (out into : B → ℕ) (f : A → B → Failing A)
    → ((a : A) (b : B) (a' : A) → f a b ≡ ok a' → m a' + out b ≡ m a + into b)
    → (bs : List B) (a a' : A) → fold f bs a ≡ ok a'
    → m a' + total out bs ≡ m a + total into bs
fold_moves m out into f step bs a a' h =
    fold_moves_inv (λ _. Unit {0}) m out into f (λ a b a' e _. (tt, step a b a' e)) bs a a' h tt
