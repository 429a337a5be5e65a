-- ===== src/Response/Tests.antt =====
-- Tests of responses.
use harpy.Prelude.{◌≡◌, refl, false, none, some}
use harpy.Prelude.Int.{pos}
use harpy.Prelude.Text.{codes}
use harpy.Go.{nil_any, any_value, no_error, plain, in_memory, is_context_error}
use harpy.ErrorCode.{code_text}
use harpy.Error.{Error, as_error}
use harpy.Response.{success, as_received, new_error_response, new_success_response}
use harpy.Response.Laws.{internal}
use harpy.Samples.{sample_json}

-- An error that a client has received from another server.
abbrev received : Error
received = record {
  code = pos 100;
  message = "no such key";
  error_data = in_memory (any_value 1) false none no_error;
  is_server_side = false;
  cause = plain "secret";
}

received_hidden : new_error_response sample_json (some (codes "1")) (as_error received) ≡ record {
  version = "2.0";
  request_id = some (codes "1");
  error = internal;
  server_error = as_error received;
}
unfolding new_error_response code_text is_context_error
received_hidden = refl

-- A nil result is sent, and received, as null.
nil_received :
    as_received (new_success_response sample_json (λ v. none) (some (codes "1")) nil_any)
    ≡ success
        (record { version = "2.0"; request_id = some (codes "1"); result = some (codes "null") })
unfolding new_success_response
nil_received = refl
