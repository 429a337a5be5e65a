-- ===== src/Http/Routed/Observed.antt =====
-- transport/httptransport with router.go and middleware/otelharpy: a server whose router stands
-- behind `Tracing` and `Metrics`.
mod Tests
use harpy.Prelude.{
  ◌≡◌, refl, ap, ◌∙◌, sym, Bool, String, List, [], Option, arith, Bool-cases, inl, inr,
  if◌then◌else◌,
}
use harpy.Prelude.Int.{ℤ}
use harpy.Go.{Any, Bytes, Context, GoError, Outcome, returns, panics, Json}
use harpy.Request.{Request}
use harpy.Request.Set.{RequestDecoder}
use harpy.Response.{Response, as_received}
use harpy.Router
use harpy.Router.{Router}
use harpy.Exchange.Events.{Trace}
use harpy.Exchange.Many.Run.{Schedule, exchange_many}
use harpy.Http.Reader.{HttpRequest}
use harpy.Http.Target.{Target}
use harpy.Http.Handler.{Exchanger, serve_http}
use harpy.Http.Handler.Secrecy.{LookAlike, serve_http-LookAlike}
use harpy.Http.Routed.{routed, router_exchanger}
use harpy.Otel.Metrics
use harpy.Otel.Metrics.{Instrument}
use harpy.Otel.Metrics.Laws.{IsWorking, new_metrics, ready}
use harpy.Otel.Tracing
use harpy.Otel.Tracing.{Tracing}
use harpy.Otel.Stack.{behind_tracing, within, stack_consistent}

-- The arguments are the time that a request takes, what the meter returns for each instrument, the
-- context of a new span with a name, and the service's name.
module _ (json : Json) (validate : Any → Option GoError) (router : Router) (elapsed : Request → ℤ)
    (create : Instrument → Bool × GoError) (start : Context → String → Context)
    (service_name : String) where
  -- The router as the exchanger behind the metrics.
  abbrev pub behind_metrics : Metrics.Next
  behind_metrics = record {
    call = λ ctx req. returns (Router.call json validate router ctx req);
    notify = λ ctx req. returns (Router.notify router ctx req);
    elapsed = elapsed;
    create = create;
  }

  -- The two middlewares around the router, with metrics before the first request or behind it.
  abbrev pub stack : Bool → Tracing.Next
  stack first =
      behind_tracing behind_metrics start
        (if first then new_metrics service_name else ready service_name)

  -- The exchanger answers each request as the two middlewares do, in some state of theirs.
  abbrev pub IsObserved : Exchanger → Type 0
  IsObserved e =
      (tr : Trace) (ctx : Context) (req : Request)
      → (first : Bool) × ((t : Tracing) × ((Tracing.call (stack first) t ctx req []).0
            ≡ returns (Exchanger.call e tr ctx req))
          × ((Tracing.notify (stack first) t ctx req []).0
              ≡ returns (Exchanger.notify e tr ctx req)))

  -- The context of a span makes no difference to what the client is told.
  abbrev pub IgnoresSpans : Type 0
  IgnoresSpans =
      (ctx : Context) (name : String) (req : Request)
      → as_received (Router.call json validate router (start ctx name) req)
        ≡ as_received (Router.call json validate router ctx req)

  within-told :
      (works : IsWorking behind_metrics) (first : Bool) (t : Tracing) (ctx : Context)
      (req : Request)
      → IgnoresSpans
      → as_received (
          Router.call json validate router
            (within behind_metrics works start service_name first t ctx req [])
            req)
        ≡ as_received (Router.call json validate router ctx req)
  within-told works first t ctx req ignores = elim (Bool-cases t.create_new_span) [
    | inl new ↦ rw new (ignores ctx _ req)
    | inr old ↦ rw old refl
  ]

  observed-LookAlike :
      (e : Exchanger)
      → IsWorking behind_metrics
      → IgnoresSpans
      → IsObserved e
      → LookAlike e (router_exchanger json validate router)
  observed-LookAlike e works ignores observed tr tr' ctx req same =
      let (first, (t, called, noted)) = observed tr ctx req in
      let inner = within behind_metrics works start service_name first t ctx req [] in
      let (given, _, _, _) =
        stack_consistent behind_metrics works start service_name first t ctx req []
          (Router.call json validate router inner req) (Router.notify router inner req) refl refl in
      ap (told (Exchanger.call e tr ctx req)) (sym called ∙ given)
      ∙ within-told works first t ctx req ignores
    where
      told : Response → Outcome Response → Response
      told other (returns res) = as_received res
      told other (panics message) = other

  -- A server whose router stands behind the tracing middleware, and that behind the metrics, and
  -- the same server without the two: if the meter makes all four instruments, what the router tells
  -- a client does not depend on the context of a span, and the text of a response does not depend
  -- on its server-side error, the two answer every HTTP request with the same status, the same
  -- headers and the same bytes, and `Exchange` returns the same error, in whatever order the
  -- goroutines of a batch run, and whichever writes fail.
  pub observed_server :
      (d : RequestDecoder) (parse_media_type : String → String × GoError)
      (encode : Response → Bytes × GoError) (ctx : Context) (schedule : Schedule) {Logger : Type 0}
      (new_logger : Option (String → Logger)) (r : HttpRequest) (t : Target) (e : Exchanger)
      → IsWorking behind_metrics
      → IgnoresSpans
      → IsObserved e
      → ((res : Response) → encode (as_received res) ≡ encode res)
      → serve_http json d parse_media_type encode ctx
          (exchange_many schedule)
          (record { exchanger = e; new_logger = new_logger })
          r
          t
        ≡ serve_http json d parse_media_type encode ctx
            (exchange_many schedule)
            (routed json validate router new_logger)
            r
            t
  observed_server d parse_media_type encode ctx schedule new_logger r t e works ignores observed
        hides =
      serve_http-LookAlike encode hides json d parse_media_type ctx schedule e
        (router_exchanger json validate router) (observed-LookAlike e works ignores observed) r t
        new_logger
