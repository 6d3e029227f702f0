-- ===== src/Server/Routes.antt =====
-- main.go: the table of routes, the choice of the operator, and starting the server.
use x4c.Base.{
  String, List, [], ◌∷◌, none, some, Outcome, ok, err, Error, errorf, map_err, try, wrap,
  if◌then◌else◌, ◌==◌, string_eq,
}
use x4c.Base.Dict.{lookup}
use x4c.Host.{Host}
use x4c.Tzclient.{Client, Wallet, TezosClient, Environment, new_wallet_with_address, new_client}
use x4c.Server.Types.{Server}

pub data Handler : Type 0 where
  credit_sources_handler operation_handler indexer_url_handler events_handler : Handler
  retire_handler : Handler

-- The method and the pattern of each route.
abbrev pub routes : List (String × String × Handler)
routes =
    ("GET", "/credit/sources/:custodianID", credit_sources_handler)
    ∷ ("GET", "/operation/:opHash", operation_handler)
    ∷ ("GET", "/info/indexer-url", indexer_url_handler)
    ∷ ("GET", "/contract/:contractHash/events/:tag", events_handler)
    ∷ ("POST", "/contract/:contractHash/retire", retire_handler)
    ∷ ("POST", "/retire/:contractHash", retire_handler)
    ∷ []

-- SetupMyHandlers, less the router that it fills with `routes`.
abbrev pub setup_my_handlers : {H : Host} {S : Type 0} → TezosClient H S → Wallet H → Server H S
setup_my_handlers client operator = record { tezos_client = client; custodian_operator = operator }

module _ (H : Host) where
  -- The operator that the environment names: a wallet, or an address.
  unfoldable pub find_operator : Environment → Client H → Outcome Error (Wallet H)
  unfolding lookup string_eq new_wallet_with_address
  find_operator getenv client =
      if getenv "X4C_CUSTODIAN_OPERATOR" == ""
      then err (errorf "No operator specified (use env var X4C_CUSTODIAN_OPERATOR)")
      else elim (lookup (getenv "X4C_CUSTODIAN_OPERATOR") client.wallets) [
        | some operator ↦ ok operator
        | none ↦
            map_err (λ _. errorf "Unable to add wallet with address")
              (new_wallet_with_address H "operator" (getenv "X4C_CUSTODIAN_OPERATOR"))
      ]

  -- `main` up to the arguments of SetupMyHandlers; an error is what it logs before it exits with
  -- status 1.
  unfoldable pub start : Environment → Outcome Error (Client H × Wallet H)
  unfolding new_client find_operator
  start getenv =
      try (map_err (wrap "Failed to load tezos client info") (new_client H getenv))
        (λ client. try (find_operator getenv client) (λ operator. ok (client, operator)))
