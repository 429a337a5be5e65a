-- ===== src/Http/Routed/Secrecy/Tests.antt =====
-- Two servers whose handlers fail with different texts.
use harpy.Prelude.{◌≡◌, refl, inl, inr, none, Bool-cases, str_eq, String, [], ◌∷◌}
use harpy.Go.{nil_any, plain, is_context_error}
use harpy.Router.{Router, lookup}
use harpy.Exchange.Many.Run.{exchange_many}
use harpy.Http.Writer.Laws.{target}
use harpy.Http.Handler.{serve_http}
use harpy.Http.Routed.{routed}
use harpy.Http.Routed.Samples.{unchecked, no_logger, parsed, schedule, post, spoken, spoken-hides}
use harpy.Http.Routed.Secrecy.{RoutersAlike, secrets_kept}
use harpy.Samples.{sample_json, sample_decoder, background}

-- A router whose only handler fails with the given text.
abbrev failing_with : String → Router
failing_with text = record { routes = ("Get", λ ctx req. (nil_any, plain text)) ∷ [] }

failing-RoutersAlike :
    RoutersAlike sample_json (failing_with "password 1") (failing_with "password 2")
unfolding lookup is_context_error
failing-RoutersAlike ctx req = elim (Bool-cases (str_eq "Get" req.method)) [
  | inl e ↦ rw e (inr (refl, inr (inl ((refl, refl, refl), (refl, refl, refl)))))
  | inr e ↦ rw e tt
]

secrets_kept_example :
    serve_http sample_json sample_decoder parsed spoken background
      (exchange_many schedule)
      (routed sample_json unchecked (failing_with "password 1") no_logger)
      post
      (target none none [])
    ≡ serve_http sample_json sample_decoder parsed spoken background
        (exchange_many schedule)
        (routed sample_json unchecked (failing_with "password 2") no_logger)
        post
        (target none none [])
secrets_kept_example =
    secrets_kept sample_json unchecked sample_decoder parsed spoken background schedule
      (failing_with "password 1") (failing_with "password 2") no_logger post (target none none [])
      spoken-hides failing-RoutersAlike
