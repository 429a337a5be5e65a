-- ===== src/Otel/Stack/Tests.antt =====
-- The two middlewares around an exchanger that fails.
use harpy.Prelude.{◌≡◌, refl, true, false, String, [], none, if◌then◌else◌}
use harpy.Prelude.Int.{pos}
use harpy.Go.{Context, plain, no_error, returns}
use harpy.Response.{Response, failure, new_error_response}
use harpy.Otel.Metrics
use harpy.Otel.Metrics.Laws.{new_metrics}
use harpy.Otel.Tracing
use harpy.Otel.Tracing.{Tracing}
use harpy.Otel.Tracing.Laws.{status}
use harpy.Otel.Stack.{errors_counted, is_failed, behind_tracing, within, stack_consistent}
use harpy.Samples.{sample_json, call_request, background}

abbrev res : Response
res = failure (new_error_response sample_json none (plain "secret"))

abbrev next : Metrics.Next
next = record {
  call = λ ctx req. returns res;
  notify = λ ctx req. returns no_error;
  elapsed = λ req. pos 2500000;
  create = λ i. (true, no_error);
}

abbrev same : Context → String → Context
same ctx name = ctx

abbrev tracing : Tracing
tracing = record {
  service_name = "shop";
  create_new_span = true;
  initialized = false;
  span_name_prefix = "";
  attributes = [];
}

stack_consistent_example :
    let m = new_metrics "shop" in
    let stack = behind_tracing next same m in
    let ctx =
      within next (refl, refl, refl, refl) same "shop" true tracing background call_request [] in
    let traced = Tracing.call stack tracing background call_request [] in
    let noted = Tracing.notify stack tracing background call_request [] in
    (traced.0 ≡ returns res)
    × (noted.0 ≡ returns no_error)
    × (errors_counted (Metrics.call next m ctx call_request []).1
        ≡ (if is_failed (status traced.1) then 1 else 0))
    × (errors_counted (Metrics.notify next m ctx call_request []).1
        ≡ (if is_failed (status noted.1) then 1 else 0))
stack_consistent_example =
    stack_consistent next (refl, refl, refl, refl) same "shop" true tracing background call_request
      [] res no_error refl refl
