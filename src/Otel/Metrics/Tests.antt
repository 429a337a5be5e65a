-- ===== src/Otel/Metrics/Tests.antt =====
-- The theorem about metrics at a concrete request.
use harpy.Prelude.{◌≡◌, refl, true, [], ◌++◌, none}
use harpy.Prelude.Int.{pos}
use harpy.Go.{plain, no_error, returns}
use harpy.Response.{failure, new_error_response}
use harpy.Otel.{request_attributes, common_attributes}
use harpy.Otel.Metrics.{Next, init, call, notify, duration_to_millis}
use harpy.Otel.Metrics.Laws.{call_measurements, notify_measurements, new_metrics, ready, measured}
use harpy.Samples.{sample_json, call_request, background}

abbrev next : Next
next = record {
  call = λ ctx req. returns (failure (new_error_response sample_json none (plain "secret")));
  notify = λ ctx req. returns (plain "not found");
  elapsed = λ req. pos 2500000;
  create = λ i. (true, no_error);
}

two_millis : duration_to_millis (pos 2500000) ≡ pos 2
unfolding duration_to_millis
two_millis = refl

measured_example :
    let ms = duration_to_millis (pos 2500000) in
    let o = Next.call next background call_request in
    let attrs = request_attributes call_request ++ common_attributes "shop" in
    (call next (new_metrics "shop") background call_request []
      ≡ (o, call_measurements attrs ms o ++ []))
    × (notify next (new_metrics "shop") background call_request [] ≡ (
      returns (plain "not found"),
      notify_measurements attrs ms (returns (plain "not found")) ++ [],
    ))
    × (init next (new_metrics "shop") ≡ (no_error, ready "shop"))
measured_example = measured next (refl, refl, refl, refl) "shop" background call_request true []
