-- ===== src/Server/Listing.antt =====
-- What a request for the sources of credits shows: getCreditSources in credit_sources.go, from the
-- request to the items of the reply.
use x4c.Base.{
  String, true, ◌≡◌, ◌≢◌, sym, ◌∙◌, List, [], ok, Outcome-cases, inl, inr, arith, Action, Error,
  lift, or_fail, ◌==◌, string_eq, wrap, bind-eq-ok, or_fail-eq-ok, lift-eq-ok, Bool-cases,
}
use x4c.Base.Int.{ℤ}
use x4c.Base.Dict.{MapOrder}
use x4c.Host.{Host}
use x4c.Tzkt.{BigMapItem}
use x4c.Tzclient.{Contract}
use x4c.Ledgers.{
  LedgerKey, CustodianStorage, Ledger, decode_custodian_storage, no_custodian_storage, get_ledger,
  read_items, read_ledger_item, ledger_key_eq,
}
use x4c.Ledgers.Reading.{active_items, ledger-active_items}
use x4c.Server.Types.{HttpError, respond, replied, CreditSourcesItem, Server}
use x4c.Server.Safety.{unnamed}
use x4c.Server.Handlers.{find_contract, credit_sources, list_credit_sources, get_credit_sources}
use x4c.Server.Sources.{DescribesAll, credit_sources-DescribesAll}

module _ {H : Host} {S : Type 0} (server : Server H S) (O : MapOrder) where
  open server use {tezos_client}

  -- Where the items of a reply come from: the custodian contract's storage, read in the state of the
  -- request, and its ledger, read after it.
  pub record Lists (address : String) (s : S) (items : List CreditSourcesItem) (s' : S)
      : Type 0 where
    is_named : address ≢ ""
    contract : Contract H
    storage : CustodianStorage
    between : S
    bigmap : List BigMapItem
    ledger : Ledger
    contract_found :
        find_contract server "custodian" address "Custodian ID not recognised" ≡ ok contract
    storage_read :
        tezos_client.get_contract_storage _ contract decode_custodian_storage no_custodian_storage s
        ≡ (ok storage, between)
    bigmap_read : tezos_client.get_big_map_contents storage.ledger between ≡ (ok bigmap, s')
    ledger_read : read_items read_ledger_item (active_items bigmap) [] ≡ ok ledger
    described : DescribesAll server contract (O.order LedgerKey ℤ ledger) items

  get_ledger-eq-ok :
      (storage : CustodianStorage) (s : S) {ledger : Ledger} {s' : S}
      → get_ledger tezos_client storage s ≡ (ok ledger, s')
      → (bigmap : List BigMapItem) × (tezos_client.get_big_map_contents storage.ledger s
          ≡ (ok bigmap, s'))
        × (read_items read_ledger_item (active_items bigmap) [] ≡ ok ledger)
  unfolding get_ledger
  get_ledger-eq-ok storage s h =
      let (bigmap, s1, e, h1) =
        bind-eq-ok
          (or_fail (tezos_client.get_big_map_contents storage.ledger)
            (wrap "failed to get ledger big map"))
          (λ bigmap. lift (read_items read_ledger_item bigmap [])) s h in
      let (read, same) = lift-eq-ok (read_items read_ledger_item bigmap []) s1 h1 in
      let fetched = or_fail-eq-ok (tezos_client.get_big_map_contents storage.ledger) _ s e in
      (bigmap, ground (arith, fetched, same), sym (ledger-active_items bigmap []) ∙ read)

  respond-replied :
      {A : Type 0} (handler : Action S HttpError A) (s : S) {a : A} {s' : S}
      → respond true handler s ≡ (replied a, s')
      → handler s ≡ (ok a, s')
  respond-replied handler s h = elim (Outcome-cases (handler s).0) [
    | inl (a, e) ↦ ground (arith, h, e)
    | inr (x, e) ↦ ground (arith, h, e)
  ]

  abbrev stored : Contract H → Action S Error CustodianStorage
  stored contract =
      tezos_client.get_contract_storage _ contract decode_custodian_storage no_custodian_storage

  -- A reply to a request for the sources of credits lists the custodian contract's ledger: the storage
  -- of the contract that was named is read once, then its ledger once, and the items are one for each
  -- entry that the active items of the ledger say, with its amount, contract and token.
  pub get_credit_sources-Lists :
      (address : String) (s : S) {items : List CreditSourcesItem} {s' : S}
      → get_credit_sources server O true address s ≡ (replied items, s')
      → Lists address s items s'
  unfolding get_credit_sources list_credit_sources
  get_credit_sources-Lists address s {items} {s'} h =
      let listed = respond-replied (list_credit_sources server O address) s h in
      elim (Bool-cases (address == "")) [
        | inl q0 ↦ ground (arith, listed, q0)
        | inr q0 ↦
            elim (Outcome-cases
              (find_contract server "custodian" address "Custodian ID not recognised")) [
                | inr (x, q1) ↦ ground (arith, listed, q0, q1)
                | inl (contract, q1) ↦
                    let read = stored contract s in
                    elim (Outcome-cases read.0) [
                      | inr (x, q2) ↦ ground (arith, listed, q0, q1, q2)
                      | inl (storage, q2) ↦
                          let fetch = get_ledger tezos_client storage read.1 in
                          elim (Outcome-cases fetch.0) [
                            | inr (x, q3) ↦ ground (arith, listed, q0, q1, q2, q3)
                            | inl (ledger, q3) ↦
                                let (bigmap, fetched, said) =
                                  get_ledger-eq-ok storage read.1 {ledger = ledger} {s' = fetch.1}
                                    (ground (arith, q3)) in
                                let made : lift
                                      (credit_sources server contract (O.order LedgerKey ℤ ledger))
                                      fetch.1
                                    ≡ (ok items, s') =
                                  ground (arith, listed, q0, q1, q2, q3) in
                                let (items_made, done) =
                                  lift-eq-ok
                                    (credit_sources server contract (O.order LedgerKey ℤ ledger))
                                    fetch.1 made in
                                record {
                                  is_named = unnamed address q0;
                                  contract = contract;
                                  storage = storage;
                                  between = read.1;
                                  bigmap = bigmap;
                                  ledger = ledger;
                                  contract_found = q1;
                                  storage_read = ground (arith, q2);
                                  bigmap_read = ground (arith, fetched, done);
                                  ledger_read = said;
                                  described =
                                      credit_sources-DescribesAll server contract
                                        (O.order LedgerKey ℤ ledger) items_made;
                                }
                          ]
                    ]
              ]
      ]
