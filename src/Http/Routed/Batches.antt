-- ===== src/Http/Routed/Batches.antt =====
-- A batch that `BatchRequestMarshaler` writes, posted to a server whose exchanger is a `Router`.
mod Tests
use mathlib.Core.List.{Perm}
use harpy.Prelude.{
  ℕ, suc, ◌<◌, ◌≡◌, refl, ap, ◌∙◌, String, true, false, List, [], ◌∷◌, map, Option, none, arith,
  length, All, inl,
}
use harpy.Go.{Any, Bytes, Context, GoError, no_error, returns, Json}
use harpy.Go.Array.{array_text}
use harpy.Request.{Request}
use harpy.Request.Spec.{IsValid}
use harpy.Request.Set.{RequestDecoder, validate_set_server_side}
use harpy.Request.Set.Laws.{validate_set_server_side_iff}
use harpy.Request.Batch.{BatchRequestMarshaler, close}
use harpy.Request.Batch.Laws.{CanEncode, marshaler, marshal_all, texts, marshal_all-close}
use harpy.Request.Batch.RoundTrip.{reader_of, read_array}
use harpy.Response.{Response}
use harpy.Router
use harpy.Router.{Router}
use harpy.Exchange.Many.Answers.{AllReturned}
use harpy.Exchange.Many.Matching.{calls_in}
use harpy.Exchange.Many.Run.{Schedule, exchange_many}
use harpy.Exchange.Many.Run.Laws.{final}
use harpy.Http.Reader
use harpy.Http.Reader.{HttpRequest}
use harpy.Http.Writer.Laws.{target, batch_answer}
use harpy.Http.Handler.{serve_http}
use harpy.Http.Handler.Batch.{Encodes}
use harpy.Http.Handler.Batch.Matching.{Returns}
use harpy.Http.Routed.{routed, router_exchanger, routed_batch_sequential}

-- A POST of a JSON text.
abbrev pub post_of : Bytes → HttpRequest
post_of text = record { method = "POST"; content_type = "application/json"; body = reader_of text }

module _ (json : Json) (validate : Any → Option GoError) (router : Router) {Logger : Type 0}
    (new_logger : Option (String → Logger)) (d : RequestDecoder)
    (parse_media_type : String → String × GoError) (encode : Response → Bytes × GoError)
    (encode_request : Request → Bytes × GoError) (ctx : Context) (schedule : Schedule)
    (first : Request) (more : List Request) where
  abbrev pub batch : List Request
  batch = first ∷ more

  abbrev pub body : Bytes
  body = array_text (texts encode_request batch)

  reads_body :
      parse_media_type "application/json" ≡ ("application/json", no_error)
      → RequestDecoder.many d true (reader_of body) ≡ (batch, no_error)
      → Reader.read d parse_media_type (post_of body)
        ≡ (record { requests = batch; is_batch = true }, no_error)
  unfolding Reader.read
  reads_body media array =
      let set = read_array encode_request d first more array in rw (media, Reader.read) set

  -- A batch of one or more conforming requests is marshaled by `BatchRequestMarshaler` without a
  -- failing write, and what it leaves is posted to a server with a router whose answers do not
  -- depend on the context. If these requests and the responses of the router can be encoded, the
  -- server's decoder reads the JSON array of the requests as these requests, and no write fails,
  -- then in whatever order the goroutines of two or more requests run until all have returned, the
  -- answer is the JSON array of the texts of the responses that the router gives to the calls one
  -- by one, in some order, or no content if there are no calls.
  pub marshaled_batch_served :
      parse_media_type "application/json" ≡ ("application/json", no_error)
      → RequestDecoder.many d true (reader_of body) ≡ (batch, no_error)
      → All (IsValid json) batch
      → All (CanEncode encode_request) batch
      → Encodes encode (router_exchanger json validate router) batch
      → Returns json d parse_media_type encode ctx schedule
          (routed json validate router new_logger)
          (post_of body)
          batch
      → ((ctx' : Context) (req : Request)
          → Router.call json validate router ctx' req ≡ Router.call json validate router ctx req)
      → (m : BatchRequestMarshaler) × ((answer : List Bytes) × (marshal_all encode_request batch
              (marshaler [] false false)
            ≡ returns (no_error, m))
          × (serve_http json d parse_media_type encode ctx
                (exchange_many schedule)
                (routed json validate router new_logger)
                (post_of (close m).1.target.content)
                (target none none [])
              ≡ (returns no_error, batch_answer answer))
          × Perm answer
              (map (λ req. (encode (Router.call json validate router ctx req)).0) (calls_in batch)))
  marshaled_batch_served media array valid encodes_requests encodes all steady =
      let (m, run, closed) = marshal_all-close encode_request batch [] encodes_requests in
      let (answer, served, same) =
        routed_batch_sequential json validate router new_logger d parse_media_type encode ctx
          schedule (post_of body) batch encodes (reads_body media array)
          ((validate_set_server_side_iff json (record { requests = batch; is_batch = true })).1
            (inl (refl, omega arith), valid))
          all steady in
      (
        m,
        (
          answer,
          run,
          ap
                (λ (p : GoError × BatchRequestMarshaler).
                  serve_http json d parse_media_type encode ctx (exchange_many schedule)
                    (routed json validate router new_logger) (post_of p.1.target.content)
                    (target none none []))
                closed
              ∙ served,
          same,
        ),
      )
