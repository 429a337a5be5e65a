-- ===== src/Http/Routed/Batches/Tests.antt =====
-- A batch that is marshaled, posted and served, at a concrete batch.
use mathlib.Core.List.{Perm}
use harpy.Prelude.{◌≡◌, refl, true, false, List, [], ◌∷◌, map, none}
use harpy.Prelude.Text.{codes}
use harpy.Go.{Bytes, GoError, no_error, returns}
use harpy.Request.{Request, is_notification}
use harpy.Request.Set.Laws.{validate_set_server_side_iff}
use harpy.Request.Batch.{BatchRequestMarshaler, close}
use harpy.Request.Batch.Laws.{marshaler, marshal_all}
use harpy.Router
use harpy.Router.{UntypedHandler, Router, lookup}
use harpy.Exchange.Many.{advance}
use harpy.Exchange.Many.Answers.{AllReturned}
use harpy.Exchange.Many.Matching.{calls_in}
use harpy.Exchange.Many.Run.{run, exchange_many}
use harpy.Exchange.Many.Run.Laws.{final}
use harpy.Http.Writer
use harpy.Http.Writer.Laws.{target, batch_answer}
use harpy.Http.Handler.{writer_after, serve_http}
use harpy.Http.Handler.Batch.{env}
use harpy.Http.Routed.{routed}
use harpy.Http.Routed.Batches.{post_of, body, marshaled_batch_served}
use harpy.Http.Routed.Samples.{
  router, unchecked, no_logger, parsed, encoded, batch, schedule, batch_valid, steady,
}
use harpy.Samples.{sample_json, sample_decoder, call_request, notify_request, background}

abbrev encoded_request : Request → Bytes × GoError
encoded_request req = (codes "{}", no_error)

abbrev text : Bytes
text =
    body sample_json unchecked router no_logger sample_decoder parsed encoded encoded_request
      background schedule call_request (notify_request ∷ [])

batch_returns :
    AllReturned batch
      (final sample_json
        (env sample_json sample_decoder parsed encoded background schedule
          (routed sample_json unchecked router no_logger)
          (post_of text))
        schedule
        []
        batch).pc
unfolding run advance is_notification writer_after Writer.write_batched
batch_returns = (refl, (refl, tt))

marshaled_batch_served_example :
    (m : BatchRequestMarshaler) × ((answer : List Bytes) × (marshal_all encoded_request batch
          (marshaler [] false false)
        ≡ returns (no_error, m))
      × (serve_http sample_json sample_decoder parsed encoded background
            (exchange_many schedule)
            (routed sample_json unchecked router no_logger)
            (post_of (close m).1.target.content)
            (target none none [])
          ≡ (returns no_error, batch_answer answer))
      × Perm answer (
          map
            (λ req. (encoded (Router.call sample_json unchecked router background req)).0)
            (calls_in batch)))
marshaled_batch_served_example =
    marshaled_batch_served sample_json unchecked router no_logger sample_decoder parsed encoded
      encoded_request background schedule call_request (notify_request ∷ []) refl refl
      ((validate_set_server_side_iff sample_json (record { requests = batch; is_batch = true })).0
        batch_valid).1
      (refl, (refl, tt)) (λ tr ctx req m. refl) (λ two. batch_returns) steady
