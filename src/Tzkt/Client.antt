-- ===== src/Tzkt/Client.antt =====
-- TzKtClient and its requests.
use x4c.Base.{
  ℕ, String, ◌<>◌, List, [], ◌∷◌, Outcome, ok, err, Error, errorf, wrap, Action, pure, lift,
  or_fail, ◌>>=◌, map_err, try, if◌then◌else◌, ◌==◌, nat_eq, string_eq, ℕ_discrete,
}
use x4c.Base.Int.{ℤ, pos, eqb_ℤ}
use x4c.Base.Text.{show_int}
use x4c.Json.{Decoder, Raw, unmarshal, decode_slice}
use x4c.Host.{Host}
use x4c.Tzkt.Types.{
  Event, BigMapItem, Operation, decode_item, decode_event, decode_operation, no_item, no_event,
  no_operation,
}

pub record HttpRequest : Type 0 where
  pub method : String
  pub url : String
  pub headers : List (String × String)

-- A body is its JSON.
pub record HttpResponse : Type 0 where
  pub status_code : ℕ
  pub body : Raw

-- The interface HTTPClient over the state of the network.
abbrev pub HttpClient : Type 0 → Type 0
HttpClient S = HttpRequest → Action S Error HttpResponse

abbrev media_type : String
media_type = "application/json"

module _ (H : Host) (S : Type 0) where
  pub record TzKtClient : Type 0 where
    pub client : HttpClient S
    pub base_url : H.Url

  -- `&http.Client{}` is the client that it is given.
  unfoldable pub new_client : HttpClient S → String → Outcome Error TzKtClient
  new_client http address =
      try (map_err (wrap "failed to parse base url") (H.parse_url address))
        (λ base_url. ok (record { client = http; base_url = base_url }))

-- The loop of `GetBigMapContents`: the first item that is not sane is an error.
unfoldable pub check_items : List BigMapItem → Outcome Error (Unit {0})
unfolding string_eq
check_items [] = ok tt
check_items (item ∷ results) =
    let rest = check_items results in
    if eqb_ℤ item.identifier (pos 0)
    then err (errorf "item had invalid identifier")
    else if item.hash == ""
    then err (errorf "item had empty hash")
    else rest

abbrev pub big_map_path : ℤ → String
big_map_path identifier = "/v1/bigmaps/" <> (show_int identifier <> "/keys")

module _ {H : Host} {S : Type 0} (c : TzKtClient H S) where
  abbrev get_request : String → HttpRequest
  get_request url = record {
    method = "GET";
    url = url;
    headers = ("Content-Type", media_type) ∷ ("Accept", media_type) ∷ [];
  }

  -- The response's body where its status is 200.
  abbrev check_status : HttpResponse → Outcome Error Raw
  check_status response =
      if response.status_code == 200
      then ok response.body
      else err (errorf "Server responded with another status")

  unfoldable pub make_request : {A : Type 0} → String → Decoder A → A → Action S Error A
  unfolding nat_eq ℕ_discrete
  make_request path decode result = do
    rel ← or_fail (lift (H.parse_url path)) (wrap "faild to parse path")
    let target_url = H.resolve c.base_url rel
    _ ← or_fail (lift (H.parse_url target_url)) (wrap "could not build request")
    resp ← or_fail (c.client (get_request target_url)) (wrap "failed to make request")
    body ← lift (check_status resp)
    or_fail (lift (unmarshal decode body result)) (wrap "failed to decode response")

  unfoldable pub get_contract_storage : {A : Type 0} → String → Decoder A → A → Action S Error A
  unfolding make_request
  get_contract_storage contract_address decode storage =
      or_fail (make_request ("/v1/contracts/" <> (contract_address <> "/storage")) decode storage)
        (wrap "failed to make request")

  unfoldable pub get_contract_events : String → String → Action S Error (List Event)
  unfolding make_request decode_slice decode_event
  get_contract_events contract_address tag =
      or_fail
        (make_request ("/v1/contracts/events?contract=" <> (contract_address <> ("&tag=" <> tag)))
          (decode_slice (decode_event H) no_event) [])
        (wrap "failed to make event request")

  unfoldable pub get_operation_information : String → Action S Error (List Operation)
  unfolding make_request decode_slice decode_operation
  get_operation_information hash =
      or_fail
        (make_request ("/v1/operations/transactions/" <> hash)
          (decode_slice (decode_operation H) no_operation) [])
        (wrap "failed to make operation request")

  unfoldable pub get_big_map_contents : ℤ → Action S Error (List BigMapItem)
  unfolding make_request check_items decode_slice decode_item show_int
  get_big_map_contents identifier = do
    results ←
        or_fail (make_request (big_map_path identifier) (decode_slice decode_item no_item) [])
          (wrap "failed to make request")
    _ ← lift (check_items results)
    pure results
