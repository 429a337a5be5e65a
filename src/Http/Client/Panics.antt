-- ===== src/Http/Client/Panics.antt =====
-- transport/httptransport/client.go: when the client panics.
use harpy.Prelude.{ℕ, ◌≡◌, ◌≢◌, ◌↔◌, String, List, arith}
use harpy.Go.{Any, Context, no_error, Outcome, returns, panics, Json}
use harpy.Jsonx.{Decoder, UnmarshalOption}
use harpy.Request.{new_notify_request}
use harpy.Response.Set.{ResponseDecoder, unmarshal_response_set_shape}
use harpy.Http.Client.{
  Client, HttpResponse, HttpPost, ClientEvent, validate_result_parameter, Net, ResultParameter,
  pointer, next_id, call, notify, process_call, process_notify,
}
use harpy.Http.Client.Laws.{http_post, IsPrepared, outgoing}

abbrev pub DoesReturn : {B : Type 0} → Outcome B → Type 0
DoesReturn (returns b) = Unit
DoesReturn (panics message) = ⊥

module _ (json : Json) (d : ResponseDecoder) (net : Net) where
  process_notify-DoesReturn :
      (method : String) (http_res : HttpResponse)
      → http_res.body.failure ≢ no_error
      → DoesReturn (process_notify json d net method http_res)
  unfolding process_notify
  process_notify-DoesReturn method http_res h =
      let shape = unmarshal_response_set_shape d http_res.body h in ground arith

  process_call-DoesReturn :
      {A : Type 0} (dec : Decoder A) (options : List UnmarshalOption) (method : String) (id : ℕ)
      (http_res : HttpResponse)
      → http_res.body.failure ≢ no_error
      → DoesReturn (process_call json d net dec options method id http_res)
  unfolding process_call
  process_call-DoesReturn dec options method id http_res h =
      let shape = unmarshal_response_set_shape d http_res.body h in ground arith

module _ (json : Json) (d : ResponseDecoder) (net : Net) (c : Client) (ctx : Context)
    (method : String) (params : Any) (tr : List ClientEvent)
    (ends : (req : HttpPost) → (Net.post net ctx req).0.body.failure ≢ no_error) where
  -- If the body of each response of the network ends with an error, such as that of the end of the
  -- input, then no answer of a server makes the client panic: a call panics exactly if its request
  -- cannot be built, is not valid or cannot be encoded, if the URL of the client is refused, or if
  -- the variable for the result is not a pointer, and a notification for the same reasons but the
  -- last.
  pub client_returns_iff :
      {A : Type 0} (dec : Decoder A) (options : List UnmarshalOption) (result : ResultParameter)
      → (DoesReturn ((call json d net dec options c ctx method params result).1 tr).0 ↔ (
          IsPrepared json d net c ctx method params tr
            (outgoing json d net c ctx method params tr dec options)
          × (result ≡ pointer)))
        × (DoesReturn (notify json d net c ctx method params tr).0
            ↔ IsPrepared json d net c ctx method params tr (new_notify_request json method params))
  unfolding call notify validate_result_parameter
  client_returns_iff dec options result = (
    (let req = outgoing json d net c ctx method params tr dec options in
        let returned =
          process_call-DoesReturn json d net dec options method (next_id c).0
            (Net.post net ctx (http_post json d net c ctx method params tr req.0)).0
            (ends (http_post json d net c ctx method params tr req.0)) in
        ground arith),
    (let req = new_notify_request json method params in
        let returned =
          process_notify-DoesReturn json d net method
            (Net.post net ctx (http_post json d net c ctx method params tr req.0)).0
            (ends (http_post json d net c ctx method params tr req.0)) in
        ground arith),
  )
