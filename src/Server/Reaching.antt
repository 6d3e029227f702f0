-- ===== src/Server/Reaching.antt =====
-- retire.go together with the custodian contract that it calls.
use x4c.Base.{String, ◌≡◌, true, ok, sym, ◌∙◌, ok-injective}
use x4c.Host.{Host}
use x4c.Tzclient.{Contract}
use x4c.Contracts.Balance.{Context}
use x4c.Contracts.Michelson.{Michelson}
use x4c.Contracts.Custodian.Types.{token_eq, Storage, Others}
use x4c.Ledgers.Retiring.{RunsCustodian, Taken, custodian_retire-Taken}
use x4c.Server.Types.{Body, Server, CreditRetireData, replied}
use x4c.Server.Handlers.{find_contract}
use x4c.Server.Retirement.{retire}
use x4c.Server.Safety.{Accepted, retire-replied}

module _ {H : Host} {S : Type 0} (server : Server H S) (M : Michelson H) (x : Context)
    (others : Others) where
  open server use {tezos_client, custodian_operator}

  -- What was done for a request.
  pub record Retired (address : String) (body : Body) (before after : Storage) : Type 0 where
    accepted : Accepted server address body
    retired :
        Taken H M x others accepted.minter accepted.token_id accepted.amount accepted.request.kyc
          before after

  -- At a node that runs the custodian contract, a reply to a request for a retirement says that the
  -- amount that was requested, of the token that was requested, is taken out of the contract's
  -- ledger, and nothing of any other token, and that the sender may move the tokens of the KYC text.
  pub retire-Retired :
      (contract : Contract H) (view : S → Storage) (address : String) (body : Body) (s : S)
      {d : CreditRetireData} {s' : S}
      → RunsCustodian H M x others tezos_client custodian_operator contract view
      → find_contract server "contract" address "Failed parse contract address" ≡ ok contract
      → retire server true address body s ≡ (replied d, s')
      → Retired address body (view s) (view s')
  retire-Retired contract view address body s {d} {s'} runs found h =
      let (a, sent) = retire-replied server address body s h in
      let same : a.contract ≡ contract = ok-injective (sym a.contract_found ∙ found) in
      record {
        accepted = a;
        retired =
            custodian_retire-Taken H M x others tezos_client custodian_operator contract view
              a.minter a.token_id a.amount a.request.kyc a.request.reason s runs (rw same at sent);
      }
