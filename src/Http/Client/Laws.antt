-- ===== src/Http/Client/Laws.antt =====
-- transport/httptransport/client.go: what a call and a notification come to.
use harpy.Prelude.{
  ℕ, suc, ◌+◌, ◌≡◌, ◌↔◌, false, String, ◌<>◌, str_eq_iff, List, [], ◌∷◌, ◌++◌, Option, none, some,
  arith, if◌then◌else◌,
}
use harpy.Go.{
  Any, raw_bytes, wrapped, error_text, Context, GoError, no_error, is_nil, Outcome, returns, Json,
}
use harpy.Jsonx.{Decoder, UnmarshalOption, unmarshal}
use harpy.Request.{Request, new_call_request, new_notify_request, validate_client_side}
use harpy.Response.{Response, success, failure}
use harpy.Response.Set.{ResponseDecoder, unmarshal_response_set}
use harpy.Http.Client.{
  Client, HttpResponse, HttpPost, ClientEvent, received, body_closed, Net, ResultParameter, pointer,
  next_id, call, notify, unable_to_call, process_call,
}

-- How many HTTP responses have been received, and how many bodies have been closed.
abbrev pub receipts : List ClientEvent → ℕ
receipts [] = 0
receipts (received res ∷ tr) = suc (receipts tr)
receipts (_ ∷ tr) = receipts tr

abbrev pub closings : List ClientEvent → ℕ
closings [] = 0
closings (body_closed ∷ tr) = suc (closings tr)
closings (_ ∷ tr) = closings tr

module _ (json : Json) (d : ResponseDecoder) (net : Net) (c : Client) (ctx : Context)
    (method : String) (params : Any) (tr : List ClientEvent) where
  -- The request that a call sends, and that of a notification.
  abbrev pub http_post : Request → HttpPost
  http_post req = record {
    url = c.url;
    content_type = "application/json";
    body = (Net.encode_request net req).0 ++ 0x0a ∷ [];
  }

  -- Call and notification close the body of each HTTP response that they receive, exactly once,
  -- whatever they return and also if they panic.
  pub bodies_closed :
      {A : Type 0} (dec : Decoder A) (options : List UnmarshalOption) (result : ResultParameter)
      → let called = ((call json d net dec options c ctx method params result).1 tr).1 in
        let notified = (notify json d net c ctx method params tr).1 in
        (receipts called + closings tr ≡ receipts tr + closings called)
        × (receipts notified + closings tr ≡ receipts tr + closings notified)
  unfolding call notify
  bodies_closed dec options result = (ground arith, ground arith)

  -- A prepared request has been built and is valid, and can be encoded and sent to the client's
  -- URL.
  abbrev pub IsPrepared : Request × GoError → Type 0
  IsPrepared (req, err) =
      (err ≡ no_error)
      × (validate_client_side json req ≡ none)
      × ((Net.encode_request net req).1 ≡ no_error)
      × (Net.new_request_failure net c.url ≡ no_error)

  -- A prepared notification ends without an error exactly if the server can be reached and its
  -- status is 204.
  pub notify_succeeds_iff :
      IsPrepared (new_notify_request json method params)
      → let (http_res, failed) =
          Net.post net ctx (http_post (new_notify_request json method params).0) in
        ((notify json d net c ctx method params tr).0 ≡ returns no_error)
        ↔ ((failed ≡ no_error) × (http_res.status_code ≡ 204))
  unfolding notify
  notify_succeeds_iff p = ground arith

  module _ {A : Type 0} (dec : Decoder A) (options : List UnmarshalOption) where
    -- A response that ends a call with the value `v`.
    abbrev pub IsAnswer : HttpResponse → Response → A → Type 0
    IsAnswer http_res (success res) v =
        (Net.unmarshal_uint32 net res.request_id ≡ ((next_id c).0, no_error))
        × (http_res.status_code ≡ 200)
        × (unmarshal dec (raw_bytes res.result) options ≡ (v, no_error))
    IsAnswer http_res (failure res) v = ⊥

    abbrev pub FirstAnswers : HttpResponse → List Response → A → Type 0
    FirstAnswers http_res [] v = ⊥
    FirstAnswers http_res (res ∷ more) v = IsAnswer http_res res v

    abbrev pub Answers : HttpResponse → A → Type 0
    Answers http_res v =
        (http_res.content_type ≡ "application/json")
        × ((unmarshal_response_set d http_res.body).1 ≡ no_error)
        × ((unmarshal_response_set d http_res.body).0.is_batch ≡ false)
        × FirstAnswers http_res ((unmarshal_response_set d http_res.body).0.responses) v

    abbrev pub outgoing : Request × GoError
    outgoing = new_call_request json (Net.uint32_value net (next_id c).0) method params

    -- The outcome of a call with a pointer for the result.
    abbrev pub outcome : Outcome (GoError × Option A)
    outcome = ((call json d net dec options c ctx method params pointer).1 tr).0

    process_call_iff :
        (http_res : HttpResponse) (v : A)
        → (process_call json d net dec options method (next_id c).0 http_res
            ≡ returns (no_error, some v))
          ↔ Answers http_res v
    unfolding process_call
    process_call_iff http_res v =
        ground (arith, str_eq_iff http_res.content_type "application/json")

    pub call_prepared :
        IsPrepared outgoing
        → let (http_res, failed) = Net.post net ctx (http_post outgoing.0) in
          outcome ≡ (
            if is_nil failed
            then process_call json d net dec options method (next_id c).0 http_res
            else returns (wrapped (unable_to_call method <> error_text failed) failed, none))
    unfolding call
    call_prepared p = ground arith

    -- A prepared call with a pointer for the result ends without an error and with a value exactly
    -- if the server can be reached and its response has the JSON content type, is read as one
    -- success with the ID of the call, has status 200, and its result is read as that value.
    pub call_succeeds_iff :
        (v : A)
        → IsPrepared outgoing
        → let (http_res, failed) = Net.post net ctx (http_post outgoing.0) in
          (outcome ≡ returns (no_error, some v)) ↔ ((failed ≡ no_error) × Answers http_res v)
    call_succeeds_iff v p =
        ground
          (arith, call_prepared p, process_call_iff (Net.post net ctx (http_post outgoing.0)).0 v)
