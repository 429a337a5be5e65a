-- ===== src/Http/Handler/Batch/Single.antt =====
-- transport/httptransport/handler.go: what an HTTP client receives for a batch of one request.
use harpy.Prelude.{◌≡◌, refl, ap, ◌∙◌, String, true, false, [], ◌∷◌, none}
use harpy.Go.{Bytes, Context, GoError, no_error, returns, Json}
use harpy.Request.{Request, is_notification}
use harpy.Request.Set.{RequestDecoder, validate_set_server_side}
use harpy.Response.{Response}
use harpy.Exchange.Events.{
  write_batched, wrote, called, notified, logged_call, logged_notification, Trace, Environment,
}
use harpy.Exchange.Laws.{after_write, finish, exchange_call, exchange_notification}
use harpy.Exchange.Many.Run.{Schedule, exchange_many}
use harpy.Http.Reader
use harpy.Http.Reader.{HttpRequest}
use harpy.Http.Writer.Laws.{CanEncode, target, batch_answer, texts}
use harpy.Http.Handler.{Exchanger, Handler, serve_http}
use harpy.Http.Handler.Laws.{served_lem}
use harpy.Http.Handler.Writes.{write_ok}
use harpy.Http.Handler.Batch.{env, finish_ok, writer_after-close}

module _ (json : Json) (d : RequestDecoder) (parse_media_type : String → String × GoError)
    (encode : Response → Bytes × GoError) (ctx : Context) (schedule : Schedule) {Logger : Type 0}
    (h : Handler Logger) (r : HttpRequest) where
  module _ (req : Request)
      (read : Reader.read d parse_media_type r
        ≡ (record { requests = req ∷ []; is_batch = true }, no_error))
      (valid : validate_set_server_side json (record { requests = req ∷ []; is_batch = true })
        ≡ none) where
    abbrev e : Environment
    e = env json d parse_media_type encode ctx schedule h r

    abbrev res : Response
    res = Exchanger.call (Handler.exchanger h) [] ctx req

    abbrev answered : Trace
    answered = logged_call req res ∷ called req res ∷ []

    abbrev IsEncoded : Type 0
    IsEncoded = CanEncode encode res

    write_answer : IsEncoded → Environment.write e answered (write_batched res) ≡ no_error
    write_answer encodes = write_ok encode answered res tt encodes

    after_answer :
        IsEncoded
        → after_write json e (exchange_many schedule e) (write_batched res) answered
          ≡ wrote (write_batched res) no_error ∷ answered
    after_answer encodes = rw (write_answer encodes)

    -- A batch of one call whose response can be encoded is answered with an array of one response.
    pub serve_one_call :
        IsEncoded
        → is_notification req ≡ false
        → serve_http json d parse_media_type encode ctx
            (exchange_many schedule)
            h
            r
            (target none none [])
          ≡ (returns no_error, batch_answer (texts encode (res ∷ [])))
    serve_one_call encodes n =
        let tr : Trace = wrote (write_batched res) no_error ∷ answered in
        served_lem json d parse_media_type encode ctx (exchange_many schedule) h r _ (
          exchange_call json e (exchange_many schedule e) refl req true [] read (rw read valid) n
          ∙ ap
              (λ (t : Trace).
                finish json e (exchange_many schedule e)
                  (Environment.write e answered (write_batched res)) t)
              (after_answer encodes)
          ∙ finish_ok json d parse_media_type encode ctx schedule h r tr
              (Environment.write e answered (write_batched res)) (write_answer encodes)
              (encodes, tt))
        ∙ ap (λ t. (returns no_error, t))
            (writer_after-close json d parse_media_type encode ctx schedule h r tr no_error
              (encodes, tt))

    -- A batch of one notification is answered without content.
    pub serve_one_notification :
        is_notification req ≡ true
        → serve_http json d parse_media_type encode ctx
            (exchange_many schedule)
            h
            r
            (target none none [])
          ≡ (returns no_error, batch_answer (texts encode []))
    serve_one_notification n =
        let err = Exchanger.notify (Handler.exchanger h) [] ctx req in
        let tr : Trace = logged_notification req err ∷ notified req err ∷ [] in
        served_lem json d parse_media_type encode ctx (exchange_many schedule) h r _ (
          exchange_notification json e (exchange_many schedule e) refl req true [] read
            (rw read valid) n
          ∙ finish_ok json d parse_media_type encode ctx schedule h r tr no_error refl tt)
        ∙ ap (λ t. (returns no_error, t))
            (writer_after-close json d parse_media_type encode ctx schedule h r tr no_error tt)
