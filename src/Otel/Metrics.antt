-- ===== src/Otel/Metrics.antt =====
-- middleware/otelharpy/metrics.go: `Metrics`.
pub mod Laws
mod Tests
use harpy.Prelude.{◌/◌, Bool, true, false, not, String, List, [], ◌∷◌, ◌++◌, if◌then◌else◌, suc}
use harpy.Prelude.Int.{ℤ, pos, negsuc, neg}
use harpy.Go.{Context, GoError, no_error, error_text, is_nil, Outcome}
use harpy.Request.{Request}
use harpy.Response.{Response, success, failure}
use harpy.Otel.{KeyValue, common_attributes, request_attributes, error_response_attributes}
use harpy.Go.Run.{Run, pure, panic, lift, tell, ◌>>=◌, ◌>>◌}

-- The four instruments of the middleware.
pub data Instrument : Type 0 where
  calls notifications errors duration : Instrument

-- A call of `Add` of a counter, or of `Record` of the histogram, with the value and the attributes.
pub data Measurement : Type 0 where
  added : Instrument → ℤ → List KeyValue → Measurement
  recorded : Instrument → ℤ → List KeyValue → Measurement

-- The exchanger behind the middleware, the time in nanoseconds that it takes, and what the meter
-- returns for each instrument: whether that is not nil, and the error.
pub record Next : Type 0 where
  pub call : Context → Request → Outcome Response
  pub notify : Context → Request → Outcome GoError
  pub elapsed : Request → ℤ
  pub create : Instrument → Bool × GoError

-- The field `initialized` says that `once` has run. A field for an instrument says that it is not
-- nil.
pub record Metrics : Type 0 where
  pub service_name : String
  pub initialized : Bool
  pub has_calls : Bool
  pub has_notifications : Bool
  pub has_errors : Bool
  pub has_duration : Bool
  pub attributes : List KeyValue

-- `durationToMillis`: the division rounds toward zero.
unfoldable pub duration_to_millis : ℤ → ℤ
duration_to_millis (pos n) = pos (n / 1000000)
duration_to_millis (negsuc n) = neg (suc n / 1000000)

module _ (next : Next) where
  -- The function that `init` hands to `once.Do`: the error with which it panics, or nil, and the
  -- state that it leaves.
  create_instruments : Metrics → GoError × Metrics
  unfolding common_attributes
  create_instruments m =
      let (has_calls, err1) = Next.create next calls in
      let (has_notifications, err2) = Next.create next notifications in
      let (has_errors, err3) = Next.create next errors in
      let (has_duration, err4) = Next.create next duration in
      let m1 = record m { has_calls = has_calls } in
      let m2 = record m1 { has_notifications = has_notifications } in
      let m3 = record m2 { has_errors = has_errors } in
      let m4 = record m3 { has_duration = has_duration } in
      if not (is_nil err1)
      then (err1, m1)
      else if not (is_nil err2)
      then (err2, m2)
      else if not (is_nil err3)
      then (err3, m3)
      else if not (is_nil err4)
      then (err4, m4)
      else (no_error, record m4 { attributes = common_attributes m.service_name })

  -- `Metrics.init`; `once` has run also if its function panics.
  unfoldable pub init : Metrics → GoError × Metrics
  unfolding create_instruments
  init m =
      if m.initialized then (no_error, m) else create_instruments (record m { initialized = true })

  -- `panic(err)` for an error that is not nil
  abbrev raise : GoError → Run Measurement (Unit {0})
  raise err = if is_nil err then pure tt else panic (error_text err)

  -- A call of a method of an instrument; of a nil one, Go panics.
  abbrev measure : Bool → Measurement → Run Measurement (Unit {0})
  measure present event =
      if present then tell event else panic "invalid memory address or nil pointer dereference"

  abbrev request_attrs : Metrics → Request → List KeyValue
  request_attrs m req = request_attributes req ++ m.attributes

  -- The type assertion `res.(harpy.ErrorResponse)`
  abbrev is_failure : Response → Bool
  is_failure (success res) = false
  is_failure (failure res) = true

  -- `Metrics.Call`. The error's attributes go into a slice that nothing reads afterwards.
  unfoldable pub call : Metrics → Context → Request → Run Measurement Response
  call m ctx req =
      let (failed, m') = init m in
      let attrs = request_attrs m' req in
      (do
        raise failed
        measure m'.has_calls (added calls (pos 1) attrs)
        res ← lift (Next.call next ctx req)
        measure m'.has_duration
            (recorded duration (duration_to_millis (Next.elapsed next req)) attrs)
        (if is_failure res then measure m'.has_errors (added errors (pos 1) attrs) else pure tt)
        pure res)

  -- `Metrics.Notify`
  unfoldable pub notify : Metrics → Context → Request → Run Measurement GoError
  notify m ctx req =
      let (failed, m') = init m in
      let attrs = request_attrs m' req in
      (do
        raise failed
        measure m'.has_notifications (added notifications (pos 1) attrs)
        err ← lift (Next.notify next ctx req)
        measure m'.has_duration
            (recorded duration (duration_to_millis (Next.elapsed next req)) attrs)
        (if not (is_nil err) then measure m'.has_errors (added errors (pos 1) attrs) else pure tt)
        pure err)
