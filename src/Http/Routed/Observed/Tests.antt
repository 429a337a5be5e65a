-- ===== src/Http/Routed/Observed/Tests.antt =====
-- A server behind the two middlewares at a concrete request.
use harpy.Prelude.{◌≡◌, refl, Bool, true, false, String, [], none}
use harpy.Prelude.Int.{ℤ, pos}
use harpy.Go.{Context, GoError, no_error}
use harpy.Request.{Request}
use harpy.Router
use harpy.Exchange.Many.Run.{exchange_many}
use harpy.Http.Writer.Laws.{target}
use harpy.Http.Handler.{serve_http}
use harpy.Http.Routed.{routed, router_exchanger}
use harpy.Http.Routed.Samples.{
  router, unchecked, no_logger, parsed, schedule, post, spoken, spoken-hides,
}
use harpy.Http.Routed.Observed.{behind_metrics, IsObserved, observed_server}
use harpy.Otel.Metrics.{Instrument}
use harpy.Otel.Tracing.{Tracing}
use harpy.Otel.Stack.{stack_consistent}
use harpy.Samples.{sample_json, sample_decoder, background}

abbrev quick : Request → ℤ
quick req = pos 2500000

abbrev works : Instrument → Bool × GoError
works i = (true, no_error)

abbrev same : Context → String → Context
same ctx name = ctx

abbrev tracing : Tracing
tracing = record {
  service_name = "shop";
  create_new_span = true;
  initialized = false;
  span_name_prefix = "";
  attributes = [];
}

router-IsObserved :
    IsObserved sample_json unchecked router quick works same "shop"
      (router_exchanger sample_json unchecked router)
router-IsObserved tr ctx req =
    let (called, noted, _, _) =
      stack_consistent (behind_metrics sample_json unchecked router quick works same "shop")
        (refl, refl, refl, refl) same "shop" true tracing ctx req []
        (Router.call sample_json unchecked router ctx req) (Router.notify router ctx req) refl
        refl in
    (true, (tracing, called, noted))

observed_server_example :
    serve_http sample_json sample_decoder parsed spoken background
      (exchange_many schedule)
      (record { exchanger = router_exchanger sample_json unchecked router; new_logger = no_logger })
      post
      (target none none [])
    ≡ serve_http sample_json sample_decoder parsed spoken background
        (exchange_many schedule)
        (routed sample_json unchecked router no_logger)
        post
        (target none none [])
observed_server_example =
    observed_server sample_json unchecked router quick works same "shop" sample_decoder parsed
      spoken background schedule no_logger post (target none none [])
      (router_exchanger sample_json unchecked router) (refl, refl, refl, refl)
      (λ ctx name req. refl) router-IsObserved spoken-hides
