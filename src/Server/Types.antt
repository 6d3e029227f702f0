-- ===== src/Server/Types.antt =====
-- Requests, responses and the structs of the server.
use x4c.Base.{ℕ, String, ok, err, Bool, Action, Error, if◌then◌else◌}
use x4c.Base.Int.{ℤ}
use x4c.Json.{Raw}
use x4c.Host.{Host}
use x4c.Tzclient.{TezosClient, Wallet}

-- The arguments of `http.Error`, without the values that were printed into the text.
pub record HttpError : Type 0 where
  pub status : ℕ
  pub text : String

abbrev pub http_error : ℕ → String → HttpError
http_error status text = record { status = status; text = text }

abbrev pub bad_request : String → HttpError
bad_request = http_error 400

abbrev pub internal_server_error : String → HttpError
internal_server_error = http_error 500

abbrev pub failed_dependency : String → HttpError
failed_dependency = http_error 424

-- An error of a call, whose text the client of the server does not see.
abbrev pub as_http : HttpError → Error → HttpError
as_http e _ = e

-- What is written: a text with a status, or JSON with status 200.
pub data Response (A : Type 0) : Type 0 where
  refused : HttpError → Response A
  replied : A → Response A

-- The JSON is written if the connection takes it.
abbrev pub respond : {S A : Type 0} → Bool → Action S HttpError A → S → Response A × S
respond writable handler s =
    let (r, s') = handler s in
    (
      elim r [
        | err e ↦ refused e
        | ok a ↦
            if writable
            then replied a
            else refused (internal_server_error "Failed to encode response")
      ],
      s',
    )

-- A request's body: its first JSON value, and how many bytes there are up to the end of that.
pub record Body : Type 0 where
  pub extent : ℕ
  pub content : Raw

pub record CreditSourcesItem : Type 0 where
  pub token_id : ℤ
  pub minter_url : String
  pub kyc : String
  pub custodian_url : String
  pub amount : ℤ
  pub minter : String

pub record CreditRetireRequest : Type 0 where
  pub minter : String
  pub kyc : String
  pub token_id : String
  pub amount : String
  pub reason : String

pub record CreditRetireData : Type 0 where
  pub message : String
  pub operation_hash : String
  pub operation_lookup_url : String

-- The struct `server`, without the router.
pub record Server (H : Host) (S : Type 0) : Type 1 where
  pub tezos_client : TezosClient H S
  pub custodian_operator : Wallet H
