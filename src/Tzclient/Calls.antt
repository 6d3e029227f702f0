-- ===== src/Tzclient/Calls.antt =====
-- The methods of Client that reach the chain and the indexer.
use x4c.Base.{
  ℕ, String, List, none, some, Outcome, ok, err, Error, errorf, wrap, wrap_text, Action, lift,
  or_fail, ok_or, ◌>>=◌, map_err, if◌then◌else◌, ◌==◌, string_eq,
}
use x4c.Base.Int.{ℤ}
use x4c.Json.{Decoder}
use x4c.Host.{Host, Parameters}
use x4c.Tzkt.{BigMapItem, Operation, Event, HttpClient}
use x4c.Tzkt
use x4c.Tzclient.Accounts.{Wallet, Contract, new_contract_with_address}
use x4c.Tzclient.Types.{Client}
use x4c.Tzclient.Chain.{Rpc, Signer, local, remote, retry, max_retries}

module _ {H : Host} {S : Type 0} where
  -- The signer of a wallet: its key, or else the remote signer at the URL for its address.
  unfoldable pub signer_of : Rpc H S → String → Wallet H → Outcome Error (Signer H)
  unfolding string_eq
  signer_of R signatory_url signed_by = elim signed_by.key [
    | some key ↦ ok (local key)
    | none ↦
        if signatory_url == ""
        then err (errorf "remote signer not configured")
        else elim (R.new_remote signatory_url) [
          | err e ↦ err (wrap "failed to make remote signer" e)
          | ok _ ↦
              if H.address_string signed_by.address == ""
              then err (errorf "signer is missing address!")
              else ok (remote signatory_url signed_by.address)
        ]
  ]

  unfoldable pub call_contract :
      Rpc H S → Client H → Wallet H → Contract H → Parameters H → Action S Error String
  unfolding signer_of retry
  call_contract R c signed_by target parameters = do
    _ ← lift (map_err (wrap "failed to create client") (R.new_client c.rpc_url))
    _ ← λ s. (ok tt, R.init_and_listen s)
    signer ← lift (signer_of R c.signatory_url signed_by)
    result ← retry R.sleep (R.send signer signed_by.address target.address parameters) max_retries
    lift (ok_or result (errorf "malformed result"))

  unfoldable pub originate :
      Rpc H S → Client H → Wallet H → List ℕ → H.Prim → Action S Error (Contract H)
  unfolding retry new_contract_with_address
  originate R c signed_by codedata initial_storage = do
    _ ← lift (map_err (wrap "failed to create client") (R.new_client c.rpc_url))
    key ← lift (ok_or signed_by.key (errorf "signer wallet has no private key"))
    _ ← λ s. (ok tt, R.init_and_listen s)
    code ← lift (map_err (wrap_text "failed to decode contract") (R.unmarshal_code codedata))
    address ←
        or_fail (retry R.sleep (R.deploy key code initial_storage) max_retries)
          (wrap_text "failed to deploy")
    lift (
        map_err (wrap_text "Contract address of operation is invalid")
          (new_contract_with_address H "new" (H.address_string address)))

  -- A client of the indexer, made for each request.
  abbrev indexer : HttpClient S → Client H → Action S Error (Tzkt.TzKtClient H S)
  indexer http c =
      lift (map_err (wrap "failed to make indexer") (Tzkt.new_client H S http c.indexer_rpc_url))

  unfoldable pub get_contract_storage :
      HttpClient S → Client H → (A : Type 0) → Contract H → Decoder A → A → Action S Error A
  unfolding Tzkt.new_client Tzkt.get_contract_storage
  get_contract_storage http c A target decode storage = do
    i ← indexer http c
    or_fail (Tzkt.get_contract_storage i (H.address_string target.address) decode storage)
        (wrap "failed to fetch storage")

  unfoldable pub get_big_map_contents :
      HttpClient S → Client H → ℤ → Action S Error (List BigMapItem)
  unfolding Tzkt.new_client Tzkt.get_big_map_contents
  get_big_map_contents http c identifier = do
    i ← indexer http c
    Tzkt.get_big_map_contents i identifier

  unfoldable pub get_operation_information :
      HttpClient S → Client H → String → Action S Error (List Operation)
  unfolding Tzkt.new_client Tzkt.get_operation_information
  get_operation_information http c hash = do
    i ← indexer http c
    Tzkt.get_operation_information i hash

  unfoldable pub get_contract_events :
      HttpClient S → Client H → String → String → Action S Error (List Event)
  unfolding Tzkt.new_client Tzkt.get_contract_events
  get_contract_events http c contract_address tag = do
    i ← indexer http c
    Tzkt.get_contract_events i contract_address tag
