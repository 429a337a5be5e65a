-- ===== src/Http/Client.antt =====
-- transport/httptransport/client.go: `Client`.
mod Types
pub mod Ids
pub mod Errors
pub mod Panics
pub mod Laws
mod Tests
use mathlib.Core.Option
use harpy.Prelude.{
  ℕ, suc, ◌+◌, ◌%◌, ◌^◌, Bool, true, false, not, ◌||◌, String, ◌<>◌, str_eq, List, [], ◌∷◌, ◌++◌,
  Option, none, some, leb, ltb, ◌==◌, if◌then◌else◌,
}
use harpy.Prelude.Text.{nat_text}
use harpy.Error.{Error, as_error, error_message, new_client_side_error}
use harpy.Go.{
  Any, Bytes, RawMessage, raw_bytes, Context, Dynamic, nil_value, GoError, no_error, plain, wrapped,
  error_text, is_nil, Outcome, returns, panics, Json,
}
use harpy.Jsonx.{Reader, Decoder, UnmarshalOption, unmarshal}
use harpy.Request.{Request, new_call_request, new_notify_request, validate_client_side}
use harpy.Response.{
  Response, success, failure, ErrorResponse, unmarshal_request_id, unmarshal_error_request_id,
}
use harpy.Response.Set.{ResponseSet, ResponseDecoder, unmarshal_response_set}
use harpy.Go.Run.{Run, pure, panic, lift, tell, ◌>>=◌, ◌>>◌}
use harpy.Http.{media_type}
unfoldable pub use Types.*

-- `rs.Responses[0]`
abbrev first_response : List Response → Outcome (Option Response × GoError)
first_response [] = panics "index out of range"
first_response (res ∷ more) = returns (some res, no_error)

-- `requestIDInResponse == nil`
abbrev is_nil_value : Dynamic → Bool
is_nil_value nil_value = true
is_nil_value _ = false

module _ (json : Json) (d : ResponseDecoder) (net : Net) where
  -- `unmarshalSingleResponse`; no response stands for the nil one beside an error.
  unfoldable pub unmarshal_single_response : HttpResponse → Outcome (Option Response × GoError)
  unmarshal_single_response http_res =
      let (rs, err) = unmarshal_response_set d http_res.body in
      if not (str_eq http_res.content_type media_type)
      then returns (
        none,
        plain ("unexpected content-type in HTTP response (" <> (http_res.content_type <> ")")),
      )
      else if not (is_nil err)
      then returns (none, wrapped ("cannot unmarshal JSON-RPC response: " <> error_text err) err)
      else if rs.is_batch
      then returns (none, plain "unexpected JSON-RPC batch response")
      else first_response rs.responses

  abbrev status_name : HttpResponse → String
  status_name http_res =
      nat_text http_res.status_code <> (" (" <> (Net.status_text net http_res.status_code <> ")"))

  -- `postSingleRequest`; `json.Encoder` puts a line feed behind the request.
  unfoldable pub post_single_request :
      Client → Context → Request → Run ClientEvent (HttpResponse × GoError)
  post_single_request c ctx req =
      let (text, err) = Net.encode_request net req in
      let failed = Net.new_request_failure net c.url in
      let http_req : HttpPost = record {
        url = c.url;
        content_type = media_type;
        body = text ++ 0x0a ∷ [];
      } in
      let (http_res, do_err) = Net.post net ctx http_req in
      if not (is_nil err)
      then panic (error_text err)
      else if not (is_nil failed)
      then panic (error_text failed)
      else (do
        tell (posted http_req)
        (if is_nil do_err then tell (received http_res) else pure tt)
        pure (http_res, do_err))

  -- The deferred `Body.Close` of both methods, behind what the rest of the method comes to.
  abbrev closing : {B : Type 0} → Outcome B → Run ClientEvent B
  closing o tr = (o, body_closed ∷ tr)

  module _ {A : Type 0} (dec : Decoder A) (options : List UnmarshalOption) where
    -- The end of `Call`, by the type of the response: the error, and the value if one is written.
    unfoldable pub finish_call : String → HttpResponse → Response → GoError × Option A
    finish_call method http_res (success res) =
        let (v, err) = unmarshal dec (raw_bytes res.result) options in
        if not (http_res.status_code == 200)
        then (
          plain (
              unable_to_process method
              <> ("unexpected HTTP "
                  <> (status_name http_res <> " status code with JSON-RPC success response"))),
          none,
        )
        else if not (is_nil err)
        then (
          wrapped (unable_to_process method <> ("unable to unmarshal result: " <> error_text err))
              err,
          some v,
        )
        else (no_error, some v)
    finish_call method http_res (failure res) = (error_of_response res, none)

    -- `Call` behind the POST: the response that has been received is checked against the ID.
    unfoldable pub process_call : String → ℕ → HttpResponse → Outcome (GoError × Option A)
    unfolding finish_call unmarshal_single_response
    process_call method id http_res = elim (unmarshal_single_response http_res) [
      | panics message ↦ panics message
      | returns (none, err) ↦
          returns (wrapped (unable_to_process method <> error_text err) err, none)
      | returns (some res, err) ↦
          let (id_in_response, id_err) = unmarshal_request_id (Net.unmarshal_uint32 net) res in
          if not (is_nil id_err)
          then returns (
            plain
                (unable_to_process method <> "request ID in response is expected to be an integer"),
            none,
          )
          else if not (id_in_response == id)
          then returns (
            plain (
                unable_to_process method
                <> ("request ID in response ("
                    <> (nat_text id_in_response
                        <> (") does not match the actual request ID (" <> (nat_text id <> ")"))))),
            none,
          )
          else returns (finish_call method http_res res)
    ]

    -- The client behind the call, and the run of the call: the error, and the value if one is
    -- written.
    unfoldable pub call :
        Client
        → Context
        → String
        → Any
        → ResultParameter
        → Client × Run ClientEvent (GoError × Option A)
    unfolding validate_result_parameter post_single_request
    call c ctx method params result =
        let (id, c') = next_id c in
        let (req, err) = new_call_request json (Net.uint32_value net id) method params in
        (
          c',
          if not (is_nil err)
              then panic (unable_to_call method <> error_text err)
              else elim (validate_client_side json req) [
                | some invalid ↦ panic (unable_to_call method <> error_message invalid)
                | none ↦
                    if not (validate_result_parameter result)
                    then panic (unable_to_call method <> "result must be a non-nil pointer")
                    else (do
                      (http_res, failed) ← post_single_request c ctx req
                      (if not (is_nil failed)
                          then pure
                              (wrapped (unable_to_call method <> error_text failed) failed, none)
                          else closing (process_call method id http_res)))
              ],
        )

  -- `Notify` behind the POST.
  unfoldable pub process_notify : String → HttpResponse → Outcome GoError
  unfolding unmarshal_single_response
  process_notify method http_res =
      if http_res.status_code == 204
      then returns no_error
      else if ltb http_res.status_code 400 || leb 500 http_res.status_code
      then returns (
          plain (
            unable_to_process method
            <> ("unexpected HTTP "
                <> (status_name http_res <> " status code in response to JSON-RPC notification"))))
      else elim (unmarshal_single_response http_res) [
        | panics message ↦ panics message
        | returns (none, err) ↦ returns (wrapped (unable_to_process method <> error_text err) err)
        | returns (some (failure res), err) ↦
            let (value, id_err) = unmarshal_error_request_id (Json.unmarshal_any json) res in
            if not (is_nil id_err) || not (is_nil_value value)
            then returns (
                plain (unable_to_process method <> "request ID in response is expected to be null"))
            else returns (error_of_response res)
        | returns (some (success res), err) ↦ returns (
            plain (
              unable_to_process method
              <> ("did not expect a successful JSON-RPC response to a notification, HTTP status code is "
                  <> status_name http_res)))
      ]

  unfoldable pub notify : Client → Context → String → Any → Run ClientEvent GoError
  unfolding post_single_request process_notify
  notify c ctx method params =
      let (req, err) = new_notify_request json method params in
      if not (is_nil err)
      then panic (unable_to_notify method <> error_text err)
      else elim (validate_client_side json req) [
        | some invalid ↦ panic (unable_to_notify method <> error_message invalid)
        | none ↦ (do
          (http_res, failed) ← post_single_request c ctx req
          (if not (is_nil failed)
              then pure (wrapped (unable_to_notify method <> error_text failed) failed)
              else closing (process_notify method http_res)))
      ]
