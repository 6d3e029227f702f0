-- ===== src/Ledgers/Reading.antt =====
-- What the loops of custodian_state.go and fa2_state.go read in the items of a big map.
use x4c.Base.{
  true, false, ◌≡◌, refl, sym, ◌∙◌, ap, List, [], ◌∷◌, map, Option, none, some, ok, err, Eq, ◌==◌,
  if◌then◌else◌, Outcome-cases, Option-cases, inl, inr, arith, try, ok-injective, Bool-cases,
}
use x4c.Base.Dict.{Dict, lookup, insert, lookup-insert}
use x4c.Tzkt.{BigMapItem}
use x4c.Ledgers.Types.{ledger_key_eq, token_id_eq, fa2_owner_eq}
use x4c.Ledgers.State.{
  Reader, read_items, Ledger, ExternalLedger, read_ledger_item, read_external_item,
}

module _ {K V : Type 0} ⦃e : Eq K⦄ (read : Reader K V) where
  read_items-nil : (d : Dict K V) → read_items read [] d ≡ ok d
  unfolding read_items
  read_items-nil d = refl

  read_items-cons :
      (item : BigMapItem) (items : List BigMapItem) (d : Dict K V)
      → read_items read (item ∷ items) d
        ≡ try (read item) (λ entry. elim entry [
          | none ↦ read_items read items d
          | some (k, v) ↦ read_items read items (insert k v d)
        ])
  unfolding read_items
  read_items-cons item items d = refl

  -- Two lists are read alike where their heads and their tails are.
  read_items-cons_same :
      (item item' : BigMapItem) (items items' : List BigMapItem) (d : Dict K V)
      → read item ≡ read item'
      → ((d : Dict K V) → read_items read items d ≡ read_items read items' d)
      → read_items read (item ∷ items) d ≡ read_items read (item' ∷ items') d
  read_items-cons_same item item' items items' d h t =
      let c = read_items-cons item items d in
      let c' = read_items-cons item' items' d in
      elim (Outcome-cases (read item)) [
        | inr (x, q) ↦ ground (arith, h, c, c', q)
        | inl (entry, q) ↦ elim (Option-cases entry) [
          | inl n ↦ ground (arith, h, c, c', q, n, t d)
          | inr ((j, v), n) ↦ ground (arith, h, c, c', q, n, t (insert j v d))
        ]
      ]

  -- The value of a key in the last item that holds the key, where the reading of every item succeeds.
  abbrev pub latest : K → List BigMapItem → Option V → Option V
  latest k [] old = old
  latest k (item ∷ items) old = latest k items (elim (read item) [
    | ok none ↦ old
    | ok (some (j, v)) ↦ if k == j then some v else old
    | err _ ↦ old
  ])

  -- Where the loop ends with a map, the map has under each key the value of the last item with that
  -- key, and else what it had.
  pub read_items-lookup :
      (k : K) (items : List BigMapItem) (d : Dict K V) {d' : Dict K V}
      → read_items read items d ≡ ok d'
      → lookup k d' ≡ latest k items (lookup k d)
  read_items-lookup k [] d h = ap (lookup k) (ok-injective (sym h ∙ read_items-nil d))
  read_items-lookup k (item ∷ items) d h =
      let c = read_items-cons item items d in
      elim (Outcome-cases (read item)) [
        | inr (x, q) ↦ ground (arith, h, c, q)
        | inl (entry, q) ↦ elim (Option-cases entry) [
          | inl n ↦ rw (q, n) (read_items-lookup k items d (ground (arith, h, c, q, n)))
          | inr ((j, v), n) ↦
              rw (q, n, ← lookup-insert k j v d)
                (read_items-lookup k items (insert j v d) (ground (arith, h, c, q, n)))
        ]
      ]

-- The items that are active.
abbrev pub active_items : List BigMapItem → List BigMapItem
active_items [] = []
active_items (item ∷ items) =
    let rest = active_items items in if item.active then item ∷ rest else rest

module _ {K V : Type 0} ⦃e : Eq K⦄ (read : Reader K V)
    (skips : (item : BigMapItem) → item.active ≡ false → read item ≡ ok none) where
  read_items-active_items :
      (items : List BigMapItem) (d : Dict K V)
      → read_items read items d ≡ read_items read (active_items items) d
  read_items-active_items [] d = refl
  read_items-active_items (item ∷ items) d = elim (Bool-cases item.active) [
    | inl q ↦ simp (q) (
        read_items-cons_same read item item items (active_items items) d refl
          (read_items-active_items items))
    | inr q ↦
        simp (q, read_items-cons read item items d, skips item q) (read_items-active_items items d)
  ]

abbrev pub activated : BigMapItem → BigMapItem
activated item = record item { active = true }

-- The custodian's ledger is what the active items say: the others change nothing, not even whether
-- reading fails.
pub ledger-active_items :
    (items : List BigMapItem) (d : Ledger)
    → read_items read_ledger_item items d ≡ read_items read_ledger_item (active_items items) d
unfolding read_ledger_item
ledger-active_items items d =
    read_items-active_items read_ledger_item (λ item h. rw (h) refl) items d

read_external_item-activated :
    (item : BigMapItem) → read_external_item item ≡ read_external_item (activated item)
unfolding read_external_item
read_external_item-activated item = refl

-- The external ledger reads an item that is not active like one that is.
pub external_ledger-activated :
    (items : List BigMapItem) (d : ExternalLedger)
    → read_items read_external_item items d ≡ read_items read_external_item (map activated items) d
external_ledger-activated [] d = refl
external_ledger-activated (item ∷ items) d =
    read_items-cons_same read_external_item item (activated item) items (map activated items) d
      (read_external_item-activated item) (external_ledger-activated items)
