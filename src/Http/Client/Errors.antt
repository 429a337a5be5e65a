-- ===== src/Http/Client/Errors.antt =====
-- client.go, response.go and error.go: what of a server's error reaches the caller of the client.
mod Tests
use harpy.Prelude.{
  ◌≡◌, ◌≢◌, refl, ap, if◌then◌else◌, false, true, String, List, Option, none, some, arith,
  str_eq_iff,
}
use harpy.Error.{
  Error, as_error, new_client_side_error, error_message, marshal_data, unmarshal_data,
}
use harpy.Go.{RawMessage, GoError, no_error, Json}
use harpy.Jsonx.{Decoder, UnmarshalOption, unmarshal}
use harpy.Response.{ErrorInfo, Response, failure, as_received, new_error_response}
use harpy.Response.Set.{ResponseDecoder}
use harpy.Http.Client.{HttpResponse, Net, finish_call}
use harpy.Response.Laws.{new_error_response_delivers}

module _ (json : Json) (e : Error) (server_side : e.is_server_side ≡ true) where
  -- The response to the error, as the client reads it.
  abbrev pub answer : RawMessage → Response
  answer id = as_received (failure (new_error_response json id (as_error e)))

  -- What is sent of the data.
  abbrev sent : RawMessage
  sent = if (marshal_data json e).1 then (marshal_data json e).0 else none

  told :
      (id : RawMessage)
      → (marshal_data json e).2 ≡ no_error
      → (new_error_response json id (as_error e)).error
        ≡ record { code = e.code; message = error_message e; info_data = sent }
  told id ok = let d = new_error_response_delivers json id e server_side in ground arith

  -- The client-side error with that code, message and data.
  abbrev copy : Error
  copy = new_client_side_error e.code (error_message e) sent

  copy_message : error_message copy ≡ error_message e
  unfolding new_client_side_error error_message
  copy_message = ground (arith, str_eq_iff e.message "", str_eq_iff (error_message e) "")

  copy_data :
      {A : Type 0} (dec : Decoder A) (options : List UnmarshalOption)
      → (marshal_data json e).2 ≡ no_error
      → ((marshal_data json e).1 ≡ true → (marshal_data json e).0 ≢ none)
      → unmarshal_data json dec copy options ≡ unmarshal_data json dec e options
  unfolding new_client_side_error unmarshal_data marshal_data
  copy_data dec options ok text = ground arith

  module _ (d : ResponseDecoder) (net : Net) {B : Type 0} (result : Decoder B)
      (settings : List UnmarshalOption) (method : String) (http_res : HttpResponse) where
    delivered :
        (id : RawMessage)
        → (marshal_data json e).2 ≡ no_error
        → finish_call json d net result settings method http_res (answer id) ≡ (as_error copy, none)
    unfolding finish_call
    delivered id ok =
        ap
          (λ (info : ErrorInfo).
            let told : GoError × Option B =
              (as_error (new_client_side_error info.code info.message info.info_data), none) in
            told)
          (told id ok)

    -- What the client makes of the response to a server-side error whose data can be marshaled, to
    -- a text that is not nil: a call ends with no value and with a client-side error that has the
    -- code, the message and the data of the error. Unmarshaling the data gives the same on both
    -- sides. The cause stays on the server.
    pub error_delivered :
        {A : Type 0} (id : RawMessage) (dec : Decoder A) (options : List UnmarshalOption)
        → (marshal_data json e).2 ≡ no_error
        → ((marshal_data json e).1 ≡ true → (marshal_data json e).0 ≢ none)
        → (e' : Error) × ((finish_call json d net result settings method http_res (answer id)
              ≡ (as_error e', none))
            × (e'.code ≡ e.code)
            × (error_message e' ≡ error_message e)
            × (unmarshal_data json dec e' options ≡ unmarshal_data json dec e options)
            × (e'.is_server_side ≡ false)
            × (e'.cause ≡ no_error))
    unfolding new_client_side_error
    error_delivered id dec options ok text =
        (copy, (delivered id ok, refl, copy_message, copy_data dec options ok text, refl, refl))
