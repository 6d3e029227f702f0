-- ===== src/Server/Safety.antt =====
-- What a request to retire credits does: the retire handler in retire.go.
use x4c.Base.{
  String, ◌<>◌, Bool, true, false, ◌≡◌, ◌≢◌, refl, ap, Outcome, ok, err, Error, Outcome-cases,
  Bool-cases, inl, inr, arith, ◌==◌, string_eq, ◌<◌, Action, ◌⊎◌, map_err, ==_iff, or_fail, pure,
  ◌>>=◌,
}
use x4c.Base.Int.{ℤ, pos, pos_part, leb_ℤ}
use x4c.Base.Text.{parse_int}
use x4c.Host.{Host}
use x4c.Tzclient.{Contract}
use x4c.Ledgers.{custodian_retire}
use x4c.Server.Types.{
  HttpError, refused, replied, Body, Server, CreditRetireRequest, CreditRetireData, bad_request,
  internal_server_error, as_http,
}
use x4c.Server.Handlers.{find_contract}
use x4c.Server.Retirement.{read_request, retire_credits, retire}

refused_as :
    {A : Type 0} (refusal : HttpError) (r : Outcome Error A) {e : HttpError}
    → map_err (as_http refusal) r ≡ err e
    → e ≡ refusal
refused_as refusal r h = ground arith

pub unnamed : (s : String) → (s == "") ≡ false → s ≢ ""
unnamed s h = ground (arith, h, ==_iff s "")

positive : (a : ℤ) → leb_ℤ a (pos 0) ≡ false → 0 < pos_part a
positive a h = ground (arith, h)

module _ {H : Host} {S : Type 0} (server : Server H S) where
  open server use {tezos_client, custodian_operator}

  -- What a request has to be for the contract to be called.
  pub record Accepted (address : String) (body : Body) : Type 0 where
    pub contract : Contract H
    pub request : CreditRetireRequest
    pub minter : Contract H
    pub token_id : ℤ
    pub amount : ℤ
    pub is_named : address ≢ ""
    pub contract_found :
        find_contract server "contract" address "Failed parse contract address" ≡ ok contract
    pub request_read : read_request body ≡ ok request
    pub minter_found :
        find_contract server "minter" request.minter "Failed to resolve minter" ≡ ok minter
    pub token_id_read : parse_int request.token_id ≡ ok token_id
    pub amount_read : parse_int request.amount ≡ ok amount
    pub amount_positive : 0 < pos_part amount

  -- The call that is made of an accepted request.
  abbrev pub accepted_call :
      {address : String} {body : Body} → Accepted address body → Action S Error String
  accepted_call a =
      custodian_retire H tezos_client a.contract custodian_operator a.minter a.token_id
        a.request.kyc a.amount a.request.reason

  -- The reply to an accepted request.
  abbrev reply : Outcome Error String × S → Outcome HttpError CreditRetireData × S
  reply (r, s) = (
    elim r [
      | ok op_hash ↦ ok (record {
        message = "Successfully retired credits";
        operation_hash = op_hash;
        operation_lookup_url = tezos_client.get_indexer_web_url <> ("/" <> op_hash);
      })
      | err e ↦ err (internal_server_error "Failed call contract")
    ],
    s,
  )

  reply-eq :
      (call : Action S Error String) (s : S)
      → (or_fail call (as_http (internal_server_error "Failed call contract")) >>= λ op_hash.
            pure (record {
              message = "Successfully retired credits";
              operation_hash = op_hash;
              operation_lookup_url = tezos_client.get_indexer_web_url <> ("/" <> op_hash);
            }))
          s
        ≡ reply (call s)
  reply-eq call s = elim (Outcome-cases (call s).0) [
    | inl (op_hash, q) ↦ ground (arith, q)
    | inr (e, q) ↦ ground (arith, q)
  ]

  -- Either the request is refused with nothing done, or the one call of it is made.
  abbrev Handled : String → Body → S → Type 0
  Handled address body s =
      ((e : HttpError) × (retire_credits server address body s ≡ (err e, s)) × (e.status ≡ 400))
      ⊎ ((a : Accepted address body) × (retire_credits server address body s
            ≡ reply (accepted_call a s)))

  retire_credits-Handled : (address : String) (body : Body) (s : S) → Handled address body s
  unfolding retire_credits
  retire_credits-Handled address body s = elim (Bool-cases (address == "")) [
    | inl q0 ↦ inl (bad_request "No contract address specified", ground (arith, q0), refl)
    | inr q0 ↦
        elim (Outcome-cases
          (find_contract server "contract" address "Failed parse contract address")) [
            | inr (e, q1) ↦ inl (e, ground (arith, q0, q1), ap (λ r. r.status) (refused_as _ _ q1))
            | inl (contract, q1) ↦ elim (Outcome-cases (read_request body)) [
              | inr (e, q2) ↦
                  inl (bad_request "Failed to decode request", ground (arith, q0, q1, q2), refl)
              | inl (request, q2) ↦
                  elim (Outcome-cases
                    (find_contract server "minter" request.minter "Failed to resolve minter")) [
                      | inr (e, q3) ↦ inl (
                        e,
                        ground (arith, q0, q1, q2, q3),
                        ap (λ r. r.status) (refused_as _ _ q3),
                      )
                      | inl (minter, q3) ↦ elim (Outcome-cases (parse_int request.token_id)) [
                        | inr (e, q4) ↦ inl (
                          bad_request "Failed to resolve token ID",
                          ground (arith, q0, q1, q2, q3, q4),
                          refl,
                        )
                        | inl (token_id, q4) ↦ elim (Outcome-cases (parse_int request.amount)) [
                          | inr (e, q5) ↦ inl (
                            bad_request "Failed to resolve amount",
                            ground (arith, q0, q1, q2, q3, q4, q5),
                            refl,
                          )
                          | inl (amount, q5) ↦ elim (Bool-cases (leb_ℤ amount (pos 0))) [
                            | inl q6 ↦ inl (
                              bad_request "Amount to retire is not valid",
                              ground (arith, q0, q1, q2, q3, q4, q5, q6),
                              refl,
                            )
                            | inr q6 ↦ inr (
                              record {
                                contract = contract;
                                request = request;
                                minter = minter;
                                token_id = token_id;
                                amount = amount;
                                is_named = unnamed address q0;
                                contract_found = q1;
                                request_read = q2;
                                minter_found = q3;
                                token_id_read = q4;
                                amount_read = q5;
                                amount_positive = positive amount q6;
                              },
                              rw (q0, q1, q2, q3, q4, q5, q6)
                                  (reply-eq
                                    (custodian_retire H tezos_client contract custodian_operator
                                      minter token_id request.kyc amount request.reason)
                                    s),
                            )
                          ]
                        ]
                      ]
                    ]
            ]
          ]
  ]

  -- A request that is refused with status 400 leaves everything as it was: no contract was called.
  pub retire-refused :
      (writable : Bool) (address : String) (body : Body) (s : S) {e : HttpError} {s' : S}
      → retire server writable address body s ≡ (refused e, s')
      → e.status ≡ 400
      → s' ≡ s
  unfolding retire
  retire-refused writable address body s h refused_400 =
      elim (retire_credits-Handled address body s) [
        | inl (e, q, _) ↦ ground (arith, h, q)
        | inr (a, q) ↦ ground (arith, h, q, refused_400)
      ]

  -- A reply says that the request was accepted, with an amount above 0, and that the one call of the
  -- custodian contract, with what was requested, succeeded under the hash of the reply.
  pub retire-replied :
      (address : String) (body : Body) (s : S) {d : CreditRetireData} {s' : S}
      → retire server true address body s ≡ (replied d, s')
      → (a : Accepted address body) × (accepted_call a s ≡ (ok d.operation_hash, s'))
  unfolding retire
  retire-replied address body s h = elim (retire_credits-Handled address body s) [
    | inl (e, q, _) ↦ ground (arith, h, q)
    | inr (a, q) ↦ (a, ground (arith, h, q))
  ]
