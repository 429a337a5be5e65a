-- ===== src/Http/Handler/Batch.antt =====
-- transport/httptransport/handler.go: what an HTTP client receives for a batch.
pub mod Single
pub mod Matching
use mathlib.Core.List.{Mem}
use harpy.Prelude.{◌<◌, ◌≡◌, refl, ap, ◌∙◌, String, true, List, [], ◌∷◌, none, arith, length}
use harpy.Go.{Bytes, Context, GoError, no_error, returns, Json}
use harpy.Request.{Request}
use harpy.Request.Set.{RequestDecoder, validate_set_server_side}
use harpy.Response.{Response}
use harpy.Exchange.Events.{close_writer, wrote, Trace, Environment}
use harpy.Exchange.Many.Run.{Schedule, exchange_many}
use harpy.Exchange.Many.Run.Laws.{final, run-Reach, failures-first, exchange_batch_answered}
use harpy.Exchange.Many.{here}
use harpy.Exchange.Laws.{finish}
use harpy.Exchange.Many.Errors.{first_write_error}
use harpy.Http.Handler.Laws.{served_lem}
use harpy.Exchange.Many.Answers.{count_calls, AllReturned}
use harpy.Exchange.Many.Matching.{written}
use harpy.Http.Writer.{ResponseWriter}
use harpy.Http.Writer
use harpy.Http.Writer.Laws.{CanEncode, target, fresh, texts, batch_answer, batch_sent}
use harpy.Http.Reader
use harpy.Http.Reader.{HttpRequest}
use harpy.Http.Handler.{Exchanger, Handler, environment, serve_http, apply_call, writer_after}
use harpy.Http.Handler.Writes.{IsBatchOnly, written-CanEncode, writer_after-write_all, Reach-IsGood}

-- The responses of the exchanger to the requests can be encoded.
abbrev pub Encodes : (Response → Bytes × GoError) → Exchanger → List Request → Type 0
Encodes encode e requests =
    (tr : Trace) (ctx : Context) (req : Request)
    → Mem req requests
    → CanEncode encode (Exchanger.call e tr ctx req)

module _ (json : Json) (d : RequestDecoder) (parse_media_type : String → String × GoError)
    (encode : Response → Bytes × GoError) (ctx : Context) (schedule : Schedule) {Logger : Type 0}
    (h : Handler Logger) (r : HttpRequest) where
  abbrev pub env : Environment
  env =
      environment json d parse_media_type encode ctx (exchange_many schedule) (Handler.exchanger h)
        r (target none none [])

  -- The history of the batch at the end of the schedule.
  abbrev pub history : List Request → Trace
  history requests = (final json env schedule [] requests).shared.trace

  pub writer_after-close :
      (tr : Trace) (err : GoError)
      → IsBatchOnly encode tr
      → (writer_after encode fresh (wrote close_writer err ∷ tr)).target
        ≡ batch_answer (texts encode (written tr))
  unfolding writer_after apply_call
  writer_after-close tr err k =
      let (w, sent, closed, t) = batch_sent encode (written tr) (written-CanEncode encode tr k) in
      ap (λ (v : ResponseWriter). (Writer.close v).1.target)
        (writer_after-write_all encode tr k ∙ ap (λ p. p.1) sent)
      ∙ t

  close_ok : (tr : Trace) → IsBatchOnly encode tr → Environment.write env tr close_writer ≡ no_error
  unfolding apply_call
  close_ok tr k =
      let (w, sent, closed, t) = batch_sent encode (written tr) (written-CanEncode encode tr k) in
      ap (λ (v : ResponseWriter). (Writer.close v).0)
        (writer_after-write_all encode tr k ∙ ap (λ p. p.1) sent)
      ∙ closed

  pub finish_ok :
      (tr : Trace) (err : GoError)
      → err ≡ no_error
      → IsBatchOnly encode tr
      → finish json env (exchange_many schedule env) err tr
        ≡ (returns no_error, wrote close_writer no_error ∷ tr)
  finish_ok tr err e k = let c = close_ok tr k in ground arith

  -- If the responses of the exchanger to the requests can be encoded and no write fails, then an
  -- HTTP request that is read as a valid batch of two or more requests is answered, in whatever
  -- order their goroutines run until all have returned, with the JSON array of the written
  -- responses, each with a line feed behind it, and status 200; there are as many as there are
  -- calls in the batch. Without calls, it is answered with status 204 and no body.
  pub serve_batch :
      (requests : List Request)
      → Encodes encode (Handler.exchanger h) requests
      → Reader.read d parse_media_type r
        ≡ (record { requests = requests; is_batch = true }, no_error)
      → validate_set_server_side json (record { requests = requests; is_batch = true }) ≡ none
      → 1 < length requests
      → AllReturned requests (final json env schedule [] requests).pc
      → (serve_http json d parse_media_type encode ctx
            (exchange_many schedule)
            h
            r
            (target none none [])
          ≡ (returns no_error, batch_answer (texts encode (written (history requests)))))
        × (length (written (history requests)) ≡ count_calls requests)
  serve_batch requests encodes read valid two all =
      let tr : Trace = history requests in
      let good =
        Reach-IsGood encode env (λ tr res. refl) requests encodes
          (run-Reach env requests schedule here) in
      let (run, c, n, w) =
        exchange_batch_answered json env schedule [] requests refl read (rw read valid) two refl
          all in
      let none_failed = good.1 in
      let same = good.2 in
      (
        served_lem json d parse_media_type encode ctx (exchange_many schedule) h r
              (wrote close_writer no_error ∷ tr)
              (run ∙ finish_ok tr (first_write_error tr) (failures-first tr none_failed) good.0)
            ∙ ap (λ t. (returns no_error, t)) (writer_after-close tr no_error good.0),
        ground arith,
      )
