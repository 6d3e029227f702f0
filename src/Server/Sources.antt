-- ===== src/Server/Sources.antt =====
-- The items that GetCreditSources in credit_sources.go makes of a ledger.
use x4c.Base.{
  ◌≡◌, List, [], ◌∷◌, ok, try-eq-ok, ok-injective, arith, inl, inr, Outcome-cases, subst,
}
use x4c.Base.Int.{ℤ}
use x4c.Base.Text.{parse_int}
use x4c.Host.{Host}
use x4c.Tzclient.{Contract}
use x4c.Ledgers.{LedgerKey}
use x4c.Server.Types.{CreditSourcesItem, Server}
use x4c.Server.Handlers.{credit_source, credit_sources}

module _ {H : Host} {S : Type 0} (server : Server H S) (contract : Contract H) where
  -- An item says what an entry of the ledger says.
  pub record Describes (entry : LedgerKey × ℤ) (item : CreditSourcesItem) : Type 0 where
    same_amount : item.amount ≡ entry.1
    same_minter : item.minter ≡ entry.0.token.address
    same_token : parse_int entry.0.token.token_id ≡ ok item.token_id

  -- The items describe the entries one by one.
  abbrev pub DescribesAll : List (LedgerKey × ℤ) → List CreditSourcesItem → Type 0
  DescribesAll [] [] = Unit
  DescribesAll (entry ∷ ledger) (item ∷ items) = Describes entry item × DescribesAll ledger items
  DescribesAll _ _ = ⊥

  credit_source-Describes :
      (entry : LedgerKey × ℤ) (item : CreditSourcesItem)
      → credit_source server contract entry ≡ ok item
      → Describes entry item
  unfolding credit_source
  credit_source-Describes (key, value) item h =
      elim (Outcome-cases (parse_int key.token.token_id)) [
        | inr (e, q) ↦ ground (arith, h, q)
        | inl (token_id, q) ↦ record {
          same_amount = ground (arith, h, q);
          same_minter = ground (arith, h, q);
          same_token = ground (arith, h, q);
        }
      ]

  -- Where the handler gives items, there is one for each entry of the ledger, in the ledger's order,
  -- with the entry's amount, contract and token.
  pub credit_sources-DescribesAll :
      (ledger : List (LedgerKey × ℤ)) {items : List CreditSourcesItem}
      → credit_sources server contract ledger ≡ ok items
      → DescribesAll ledger items
  unfolding credit_sources
  credit_sources-DescribesAll [] h = subst (DescribesAll []) (ok-injective h) tt
  credit_sources-DescribesAll (entry ∷ ledger) h =
      let (item, e, h1) = try-eq-ok (credit_source server contract entry) _ h in
      let (rest, e', h2) = try-eq-ok (credit_sources server contract ledger) _ h1 in
      subst (DescribesAll (entry ∷ ledger)) (ok-injective h2)
        (credit_source-Describes entry item e, credit_sources-DescribesAll ledger e')
