-- ===== src/Otel/Tracing/Tests.antt =====
-- The theorems about tracing at concrete requests.
use harpy.Prelude.{◌≡◌, refl, ◌≢◌, ◌⊎◌, true, false, [], map, some, All}
use harpy.Prelude.Text.{codes}
use harpy.Go.{raw_bytes, returns, no_error}
use harpy.Request.{Request, equal_fold}
use harpy.Otel.Tracing.{Next, Tracing, call, sanitize_request_id, sanitize_method_name}
use harpy.Otel.Tracing.Laws.{
  started, ended, span_name, status, response_status, name, call_traced, IsTrimmed, dash, sanitized,
}
use harpy.Samples.{call_request, success_response, background}

abbrev next : Next
next = record {
  call = λ ctx req. returns success_response;
  notify = λ ctx req. returns no_error;
  start = λ ctx name. ctx;
}

abbrev tracing : Tracing
tracing = record {
  service_name = "shop";
  create_new_span = true;
  initialized = false;
  span_name_prefix = "";
  attributes = [];
}

call_traced_example :
    let r = call next tracing background call_request [] in
    (r.0 ≡ returns success_response)
    × ((started r.1 ≡ 1) × (ended r.1 ≡ 1))
    × (span_name r.1 ≡ some (name next tracing background call_request []))
    × (status r.1 ≡ response_status (returns success_response) (status []))
call_traced_example = call_traced next tracing background call_request []

abbrev nested : Request
nested = record call_request { method = "a/b"; id = some (codes "\"\"7\"") }

name_of_nested : (sanitize_method_name "a/b" ≡ "a-b") × (sanitize_request_id nested ≡ codes "7")
unfolding sanitize_method_name sanitize_request_id
name_of_nested = (refl, refl)

sanitized_example :
    (((equal_fold (raw_bytes nested.id) (codes "null") ≡ true) × (sanitize_request_id nested ≡ []))
      ⊎ ((equal_fold (raw_bytes nested.id) (codes "null") ≡ false)
          × IsTrimmed (raw_bytes nested.id) (sanitize_request_id nested)))
    × All (λ c. c ≢ b'/') (codes (sanitize_method_name "a/b"))
    × (codes (sanitize_method_name "a/b") ≡ map dash (codes "a/b"))
sanitized_example = sanitized nested
