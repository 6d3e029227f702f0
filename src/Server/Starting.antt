-- ===== src/Server/Starting.antt =====
-- Who signs what the server sends: main in main.go with the client of tzclient.go.
use x4c.Base.{
  String, ◌≡◌, ◌≢◌, none, some, ok, Outcome-cases, Bool-cases, Option-cases, inl, inr, ◌==◌,
  string_eq, arith, Action, Error,
}
use x4c.Base.Dict.{lookup, MapOrder}
use x4c.Host.{Host, Parameters}
use x4c.Tzkt.{HttpClient}
use x4c.Tzclient.{
  Client, Wallet, Contract, Rpc, as_tezos_client, Environment, remote, retry, max_retries,
  call_contract, signer_of, new_client, new_wallet_with_address,
}
use x4c.Tzclient.Signing.{signer_of-eq-ok, new_wallet_with_address-eq-ok}
use x4c.Server.Types.{Server}
use x4c.Server.Routes.{start, find_operator, setup_my_handlers}

-- A call of the server.
abbrev pub call_by :
    {H : Host} {S : Type 0} → Server H S → Contract H → Parameters H → Action S Error String
call_by server = server.tezos_client.call_contract server.custodian_operator

module _ (H : Host) where
  -- The client has the signer's URL from the environment. NewClient knows no wallets, so the operator
  -- is an address.
  start-eq-ok :
      (getenv : Environment) (client : Client H) (operator : Wallet H)
      → start H getenv ≡ ok (client, operator)
      → (client.signatory_url ≡ getenv "X4C_SIGNATORY_HOST")
        × (new_wallet_with_address H "operator" (getenv "X4C_CUSTODIAN_OPERATOR") ≡ ok operator)
  unfolding start new_client find_operator lookup
  start-eq-ok getenv client operator h = elim (Bool-cases (getenv "X4C_TEZOS_RPC_HOST" == "")) [
    | inl q ↦ ground (arith, h, q)
    | inr q ↦ elim (Bool-cases (getenv "X4C_CUSTODIAN_OPERATOR" == "")) [
      | inl r ↦ ground (arith, h, q, r)
      | inr r ↦
          elim (Outcome-cases
            (new_wallet_with_address H "operator" (getenv "X4C_CUSTODIAN_OPERATOR"))) [
              | inr (e, w) ↦ ground (arith, h, q, r, w)
              | inl (wallet, w) ↦ (ground (arith, h, q, r, w), ground (arith, h, q, r, w))
            ]
    ]
  ]

module _ {H : Host} {S : Type 0} (R : Rpc H S) (http : HttpClient S) (O : MapOrder) where
  -- A call by a wallet without a key that succeeds was signed by the remote signer.
  call_contract-remote :
      (c : Client H) (w : Wallet H) (target : Contract H) (p : Parameters H) (s : S)
      (op_hash : String) (s' : S)
      → w.key ≡ none
      → call_contract R c w target p s ≡ (ok op_hash, s')
      → (c.signatory_url ≢ "")
        × (retry R.sleep
              (R.send (remote c.signatory_url w.address) w.address target.address p)
              max_retries
              (R.init_and_listen s)
            ≡ (ok (some op_hash), s'))
  unfolding call_contract
  call_contract-remote c w target p s op_hash s' no_key h =
      elim (Outcome-cases (R.new_client c.rpc_url)) [
        | inr (e, q) ↦ ground (arith, h, q)
        | inl (_, q) ↦ elim (Outcome-cases (signer_of R c.signatory_url w)) [
          | inr (e, r) ↦ ground (arith, h, q, r)
          | inl (g, r) ↦ elim (signer_of-eq-ok R c.signatory_url w g r) [
            | inl (key, has_key, _) ↦ ground (arith, no_key, has_key)
            | inr (_, url, _, is_remote) ↦
                let sent =
                  retry R.sleep (R.send g w.address target.address p) max_retries
                    (R.init_and_listen s) in
                elim (Outcome-cases sent.0) [
                  | inr (e, t) ↦ ground (arith, h, q, r, t)
                  | inl (result, t) ↦ elim (Option-cases result) [
                    | inl missing ↦ ground (arith, h, q, r, t, missing)
                    | inr (op, found) ↦
                        let done : sent ≡ (ok (some op_hash), s') =
                          ground (arith, h, q, r, t, found) in
                        (url, rw is_remote at done)
                  ]
                ]
          ]
        ]
      ]

  -- A call that succeeds of a server that has been started was signed by the remote signer that the
  -- environment names, under the address that the environment names as the operator: NewClient
  -- knows no wallets, so the operator never has a key.
  pub start-signs_remotely :
      (getenv : Environment) (target : Contract H) (p : Parameters H) (s : S) {client : Client H}
      {operator : Wallet H} {op_hash : String} {s' : S}
      → start H getenv ≡ ok (client, operator)
      → call_by (setup_my_handlers (as_tezos_client R http O client) operator) target p s
        ≡ (ok op_hash, s')
      → (getenv "X4C_SIGNATORY_HOST" ≢ "")
        × (address : H.Address) × (H.parse_address (getenv "X4C_CUSTODIAN_OPERATOR") ≡ ok address)
        × (retry R.sleep
              (R.send (remote (getenv "X4C_SIGNATORY_HOST") address) address target.address p)
              max_retries
              (R.init_and_listen s)
            ≡ (ok (some op_hash), s'))
  start-signs_remotely getenv target p s {client} {operator} {op_hash} {s'} h k =
      let (same_url, made) = start-eq-ok H getenv client operator h in
      let (no_key, named) = new_wallet_with_address-eq-ok H "operator" _ operator made in
      let (has_url, sent) = call_contract-remote client operator target p s op_hash s' no_key k in
      (rw same_url at has_url, operator.address, named, rw same_url at sent)
