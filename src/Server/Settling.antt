-- ===== src/Server/Settling.antt =====
-- retire.go together with both contracts.
use x4c.Base.{String, ◌≡◌, true, [], ok, ok-injective, sym, ◌∙◌}
use x4c.Base.Int.{ℤ}
use x4c.Base.Text.{parse_int}
use x4c.Host.{Host}
use x4c.Tzclient.{Contract}
use x4c.Contracts.Balance.{Context}
use x4c.Contracts.Michelson.{Michelson}
use x4c.Contracts.Settlement.{World, System}
use x4c.Contracts.Settlement.Recording.{IsSolvent}
use x4c.Ledgers.Settling.{RunsSystem, Settled, custodian_retire-Settled}
use x4c.Server.Types.{Body, Server, CreditRetireRequest, CreditRetireData, replied}
use x4c.Server.Handlers.{find_contract}
use x4c.Server.Retirement.{retire, read_request}
use x4c.Server.Safety.{retire-replied}

module _ {H : Host} {S : Type 0} (server : Server H S) (w : World) (M : Michelson H)
    (x : Context) where
  open server use {tezos_client, custodian_operator}

  -- At a node that runs both contracts, with the custodian contract solvent and nothing pending, a
  -- reply to a request for a retirement of a token of the token contract, which can retire, says that
  -- the amount that was requested is taken out of the ledger of the custodian contract of the token
  -- that was requested and out of the supply of the token.
  pub retire-Settled :
      (contract minter : Contract H) (request : CreditRetireRequest) (view : S → System)
      (address : String) (body : Body) (s : S) {d : CreditRetireData} {s' : S}
      → RunsSystem w H M x tezos_client custodian_operator contract view
      → IsSolvent w (view s)
      → (view s).pending ≡ []
      → (w.elsewhere.has_entrypoint "%retire" w.token_address ≡ true)
      → find_contract server "contract" address "Failed parse contract address" ≡ ok contract
      → read_request body ≡ ok request
      → find_contract server "minter" request.minter "Failed to resolve minter" ≡ ok minter
      → H.address_string minter.address ≡ w.token_address
      → retire server true address body s ≡ (replied d, s')
      → (token_id : ℤ) × (amount : ℤ) × (parse_int request.token_id ≡ ok token_id)
        × (parse_int request.amount ≡ ok amount)
        × Settled w token_id amount (view s) (view s')
  retire-Settled contract minter request view address body s {d} {s'} runs solvent quiet can_retire
        found read minter_found home h =
      let (a, sent) = retire-replied server address body s h in
      let same : a.contract ≡ contract = ok-injective (sym a.contract_found ∙ found) in
      let asked : a.request ≡ request = ok-injective (sym a.request_read ∙ read) in
      let minted : a.minter ≡ minter =
        ok-injective (sym (rw asked at a.minter_found) ∙ minter_found) in
      (
        a.token_id,
        a.amount,
        rw asked at a.token_id_read,
        rw asked at a.amount_read,
        custodian_retire-Settled w H M x tezos_client custodian_operator contract view minter
            a.token_id a.amount a.request.kyc a.request.reason s runs solvent quiet can_retire home
            (rw (same, minted) at sent),
      )
