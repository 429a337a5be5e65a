-- ===== src/Otel/Stack.antt =====
-- middleware/otelharpy: `Tracing` around `Metrics` around an exchanger.
mod Tests
use harpy.Prelude.{
  ℕ, suc, ◌≡◌, refl, ap, ◌∙◌, ◌↔◌, Bool, true, false, String, List, [], ◌∷◌, ◌++◌, arith,
  if◌then◌else◌,
}
use harpy.Prelude.Int.{ℤ}
use harpy.Go.{Context, GoError, no_error, Outcome, returns}
use harpy.Request.{Request}
use harpy.Response.{Response, success, failure}
use harpy.Otel.Metrics
use harpy.Otel.Metrics.{Instrument, errors, Measurement, added, Metrics}
use harpy.Otel.Metrics.Laws.{IsWorking, new_metrics, ready, measured}
use harpy.Otel.Tracing
use harpy.Otel.Tracing.{SpanEvent, Tracing}
use harpy.Otel.Tracing.Laws.{Status, failed, status, inner, call_traced, notify_traced}

-- How many errors have been counted.
abbrev pub errors_counted : List Measurement → ℕ
errors_counted [] = 0
errors_counted (added errors n attrs ∷ more) = suc (errors_counted more)
errors_counted (_ ∷ more) = errors_counted more

-- The status of a failed span.
abbrev pub is_failed : Status → Bool
is_failed (failed text) = true
is_failed _ = false

module _ (next : Metrics.Next) (start : Context → String → Context) (m : Metrics) where
  -- The metrics middleware as the exchanger behind the tracing middleware.
  abbrev pub behind_tracing : Tracing.Next
  behind_tracing = record {
    call = λ ctx req. (Metrics.call next m ctx req []).0;
    notify = λ ctx req. (Metrics.notify next m ctx req []).0;
    start = start;
  }

module _ (next : Metrics.Next) (works : IsWorking next) (start : Context → String → Context)
    (service_name : String) (first : Bool) (t : Tracing) (ctx : Context) (req : Request)
    (tr : List SpanEvent) where
  abbrev m : Metrics
  m = if first then new_metrics service_name else ready service_name

  abbrev stack : Tracing.Next
  stack = behind_tracing next start m

  -- The context that the exchanger gets.
  abbrev pub within : Context
  within = inner stack t ctx req tr

  -- With a meter that makes all four instruments, at the first request and at every later one: the
  -- caller of the two middlewares gets the response, or the error of the notification, that the
  -- exchanger gives in the context of the span, and the span is marked as failed exactly if the
  -- metrics count an error.
  pub stack_consistent :
      (res : Response) (err : GoError)
      → Metrics.Next.call next within req ≡ returns res
      → Metrics.Next.notify next within req ≡ returns err
      → let traced = Tracing.call stack t ctx req tr in
        let noted = Tracing.notify stack t ctx req tr in
        (traced.0 ≡ returns res)
        × (noted.0 ≡ returns err)
        × (errors_counted (Metrics.call next m within req []).1
            ≡ (if is_failed (status traced.1) then 1 else 0))
        × (errors_counted (Metrics.notify next m within req []).1
            ≡ (if is_failed (status noted.1) then 1 else 0))
  stack_consistent res err h k =
      let (called, notified, _) = measured next works service_name within req first [] in
      let (given, _, _, s) = call_traced stack t ctx req tr in
      let (given', _, _, s') = notify_traced stack t ctx req tr in ground arith
