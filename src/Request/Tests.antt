-- ===== src/Request/Tests.antt =====
-- Tests of requests, and the theorems about requests at concrete data.
use harpy.Prelude.{◌≡◌, refl, ◌↔◌, true, [], ◌∷◌, none, some}
use harpy.Prelude.Text.{codes}
use harpy.Go.{Bytes, GoError, no_error, no_data, syntax_error, error_text}
use harpy.Go.Array.{array_text}
use harpy.Go.Input.{skip_space}
use harpy.Go.Rune.{read_rune, is_space}
use harpy.ErrorCode.{parse_error_code}
use harpy.Error.{Error, to_error}
use harpy.Request.{Request, zero_request, validate_server_side}
use harpy.Request.Spec.{IsValid}
use harpy.Request.Laws.{validate_server_side_iff}
use harpy.Request.Set.{RequestDecoder, unmarshal_request_set}
use harpy.Request.Set.Laws.{ReadsAs, unmarshal_request_set_lem}
use harpy.Request.Batch.Laws.{texts}
use harpy.Samples.{sample_json, sample_decoder, call_request, notify_request, input}

validate_server_side_iff_example :
    (validate_server_side sample_json call_request ≡ none) ↔ IsValid sample_json call_request
validate_server_side_iff_example = validate_server_side_iff sample_json call_request

call_request_valid : validate_server_side sample_json call_request ≡ none
unfolding validate_server_side
call_request_valid = refl

abbrev parse_failure : Error
parse_failure = record {
  code = parse_error_code;
  message = "invalid character";
  error_data = no_data;
  is_server_side = true;
  cause = syntax_error "invalid character";
}

unmarshal_request_set_lem_example : ReadsAs sample_decoder (input " [1]")
unmarshal_request_set_lem_example = unmarshal_request_set_lem sample_decoder (input " [1]")

abbrev broken_decoder : RequestDecoder
broken_decoder = record {
  one = λ strict r. (zero_request, syntax_error "invalid character");
  many = λ strict r. ([], syntax_error "invalid character");
}

abbrev unparsed : Error
unparsed = record {
  code = parse_error_code;
  message = "unable to parse request: invalid character";
  error_data = no_data;
  is_server_side = true;
  cause =
      GoError.wrapped "unable to parse request: invalid character"
        (syntax_error "invalid character");
}

unparsed_request : to_error (unmarshal_request_set broken_decoder (input " x")).1 ≡ some unparsed
unfolding unmarshal_request_set error_text skip_space read_rune is_space
unparsed_request = refl

-- An encoder of requests.
abbrev encoded : Request → Bytes × GoError
encoded req = (codes "{}", no_error)

two_requests : array_text (texts encoded (call_request ∷ notify_request ∷ [])) ≡ codes "[{}\n,{}\n]"
unfolding array_text
two_requests = refl
