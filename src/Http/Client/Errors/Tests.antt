-- ===== src/Http/Client/Errors/Tests.antt =====
-- An error with data that reaches the caller of the client.
use harpy.Prelude.{◌≡◌, refl, ◌≢◌, false, true, [], none, some}
use harpy.Prelude.Int.{pos}
use harpy.Prelude.Text.{codes}
use harpy.Error.{Error, as_error, error_message, marshal_data, unmarshal_data}
use harpy.Go.{Bytes, any_value, in_memory, no_error, plain}
use harpy.Jsonx.{Decoder}
use harpy.Http.Client.Errors.{answer, error_delivered}
use harpy.Http.Client.{finish_call}
use harpy.Samples.{sample_json, sample_response_decoder, sample_net, http_response}

abbrev no_funds : Error
no_funds = record {
  code = pos 100;
  message = "insufficient funds";
  error_data = in_memory (any_value 1) false none no_error;
  is_server_side = true;
  cause = plain "secret";
}

-- A decoder that reads the rest of the text as it is.
abbrev raw : Decoder Bytes
raw strict r = (r.content, no_error)

marshals : (marshal_data sample_json no_funds).2 ≡ no_error
unfolding marshal_data
marshals = refl

has_text :
    (marshal_data sample_json no_funds).1 ≡ true → (marshal_data sample_json no_funds).0 ≢ none
unfolding marshal_data
has_text h = λ e. cc

error_delivered_example :
    (e : Error) × ((finish_call sample_json sample_response_decoder
          (sample_net (http_response 200))
          raw
          []
          "Get"
          (http_response 200)
          (answer sample_json no_funds refl (some (codes "1")))
        ≡ (as_error e, none))
      × (e.code ≡ pos 100)
      × (error_message e ≡ error_message no_funds)
      × (unmarshal_data sample_json raw e [] ≡ unmarshal_data sample_json raw no_funds [])
      × (e.is_server_side ≡ false)
      × (e.cause ≡ no_error))
error_delivered_example =
    error_delivered sample_json no_funds refl sample_response_decoder
      (sample_net (http_response 200)) raw [] "Get" (http_response 200) (some (codes "1")) raw []
      marshals has_text
