-- ===== src/Otel/Metrics/Laws.antt =====
-- middleware/otelharpy/metrics.go: what is measured of each request.
use harpy.Prelude.{◌≡◌, Bool, true, false, String, List, [], ◌∷◌, ◌++◌, arith, if◌then◌else◌}
use harpy.Prelude.Int.{ℤ, pos}
use harpy.Go.{Context, GoError, no_error, is_nil, Outcome, returns, panics}
use harpy.Request.{Request}
use harpy.Response.{Response, success, failure}
use harpy.Otel.{KeyValue, common_attributes, request_attributes}
use harpy.Otel.Metrics.{
  calls, notifications, errors, duration, Measurement, added, recorded, Next, Metrics,
  duration_to_millis, init, call, notify,
}

-- What is measured once the next exchanger has returned or panicked, the newest first.
abbrev pub call_measurements : List KeyValue → ℤ → Outcome Response → List Measurement
call_measurements attrs ms (panics message) = added calls (pos 1) attrs ∷ []
call_measurements attrs ms (returns (success res)) =
    recorded duration ms attrs ∷ added calls (pos 1) attrs ∷ []
call_measurements attrs ms (returns (failure res)) =
    added errors (pos 1) attrs ∷ recorded duration ms attrs ∷ added calls (pos 1) attrs ∷ []

abbrev pub notify_measurements : List KeyValue → ℤ → Outcome GoError → List Measurement
notify_measurements attrs ms (panics message) = added notifications (pos 1) attrs ∷ []
notify_measurements attrs ms (returns err) =
    if is_nil err
    then recorded duration ms attrs ∷ added notifications (pos 1) attrs ∷ []
    else added errors (pos 1) attrs
      ∷ recorded duration ms attrs
      ∷ added notifications (pos 1) attrs
      ∷ []

-- A meter that makes all four instruments.
abbrev pub IsWorking : Next → Type 0
IsWorking next =
    (Next.create next calls ≡ (true, no_error))
    × (Next.create next notifications ≡ (true, no_error))
    × (Next.create next errors ≡ (true, no_error))
    × (Next.create next duration ≡ (true, no_error))

-- The state of the middleware before its first request, and behind it.
abbrev pub new_metrics : String → Metrics
new_metrics service_name = record {
  service_name = service_name;
  initialized = false;
  has_calls = false;
  has_notifications = false;
  has_errors = false;
  has_duration = false;
  attributes = [];
}

abbrev pub ready : String → Metrics
ready service_name = record {
  service_name = service_name;
  initialized = true;
  has_calls = true;
  has_notifications = true;
  has_errors = true;
  has_duration = true;
  attributes = common_attributes service_name;
}

module _ (next : Next) (works : IsWorking next) (service_name : String) where
  init-ready :
      (init next (new_metrics service_name) ≡ (no_error, ready service_name))
      × (init next (ready service_name) ≡ (no_error, ready service_name))
  unfolding init
  init-ready = ground arith

  module _ (ctx : Context) (req : Request) (first : Bool) (tr : List Measurement) where
    abbrev m : Metrics
    m = if first then new_metrics service_name else ready service_name

    abbrev attrs : List KeyValue
    attrs = request_attributes req ++ common_attributes service_name

    -- With a meter that makes all four instruments, at the first request and at every later one,
    -- the middleware gives back what the next exchanger gives. It counts the request before it is
    -- handed on, and measures the duration unless the next exchanger panics; it counts an error
    -- exactly for a failure and for a notification with an error. All measurements of a request
    -- have the same attributes: the method and the version of the request and the common
    -- attributes.
    pub measured :
        let ms = duration_to_millis (Next.elapsed next req) in
        let o = Next.call next ctx req in
        let p = Next.notify next ctx req in
        (call next m ctx req tr ≡ (o, call_measurements attrs ms o ++ tr))
        × (notify next m ctx req tr ≡ (p, notify_measurements attrs ms p ++ tr))
        × (init next m ≡ (no_error, ready service_name))
    unfolding call notify
    measured = (ground (arith, init-ready), ground (arith, init-ready), ground (arith, init-ready))
