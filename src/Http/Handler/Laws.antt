-- ===== src/Http/Handler/Laws.antt =====
-- transport/httptransport/handler.go: what an HTTP client receives, from the request to the
-- response.
use harpy.Prelude.{◌≡◌, refl, ap, ◌∙◌, String, true, false, List, [], ◌∷◌, ◌++◌, none, some, arith}
use harpy.Error.{Error, as_error}
use harpy.Go.{Bytes, Context, GoError, no_error, Outcome, returns, Json}
use harpy.Request.{Request, is_notification}
use harpy.Request.Set.{RequestSet, RequestDecoder, validate_set_server_side}
use harpy.Response.{Response, failure, new_error_response}
use harpy.Exchange.{exchange}
use harpy.Exchange.Laws.{
  after_write, finish, exchange_call, exchange_notification, exchange_invalid,
}
use harpy.Exchange.Events.{
  WriterCall, write_error, write_unbatched, close_writer, called, notified, logged_call,
  logged_error, logged_notification, Trace, Environment, M, wrote,
}
use harpy.Http.Reader
use harpy.Http.Reader.{HttpRequest}
use harpy.Http.Target.{Target}
use harpy.Http.Writer
use harpy.Http.Writer.{ResponseWriter, error_status, unbatched_status}
use harpy.Http.Writer.Laws.{CanEncode, target, fresh, answer, unbatched_sent, error_sent}
use harpy.Http.Handler.{Exchanger, Handler, apply_call, writer_after, environment, serve_http}

-- The target of a new response.
abbrev pub start : Target
start = target none none []

-- A request set of one request that is not part of a batch.
abbrev pub single : Request → RequestSet × GoError
single req = (record { requests = req ∷ []; is_batch = false }, no_error)

module _ (json : Json) (d : RequestDecoder) (parse_media_type : String → String × GoError)
    (encode : Response → Bytes × GoError) (ctx : Context)
    (many : Environment → List Request → M GoError) {Logger : Type 0} (h : Handler Logger)
    (r : HttpRequest) where
  abbrev pub served : Outcome GoError × Target
  served = serve_http json d parse_media_type encode ctx many h r start

  abbrev pub env : Environment
  env = environment json d parse_media_type encode ctx many (Handler.exchanger h) r start

  pub served_lem :
      (tr : Trace) {o : Outcome GoError}
      → exchange json env (many env) [] ≡ (o, tr)
      → served ≡ (o, (writer_after encode fresh tr).target)
  unfolding serve_http
  served_lem tr e = rw e

  -- One call of the writer and the closing, from a history that has no call of the writer.
  sent_once :
      (op : WriterCall) (tr : Trace) (w : ResponseWriter)
      → writer_after encode fresh tr ≡ fresh
      → apply_call encode op fresh ≡ (no_error, w)
      → Writer.close w ≡ (no_error, w)
      → finish json env
          (many env)
          (Environment.write env tr op)
          (after_write json env (many env) op tr)
        ≡ (returns no_error, wrote close_writer no_error ∷ wrote op no_error ∷ tr)
  unfolding writer_after
  sent_once op tr w f a c = ground (arith)

  -- The target behind one call of the writer and the closing.
  writer_after_once :
      (op : WriterCall) (tr : Trace) (w : ResponseWriter)
      → writer_after encode fresh tr ≡ fresh
      → apply_call encode op fresh ≡ (no_error, w)
      → Writer.close w ≡ (no_error, w)
      → (writer_after encode fresh (wrote close_writer no_error ∷ wrote op no_error ∷ tr)).target
        ≡ w.target
  unfolding writer_after
  writer_after_once op tr w f a c = ground arith

  pub served_once :
      (op : WriterCall) (tr : Trace) (w : ResponseWriter)
      → writer_after encode fresh tr ≡ fresh
      → apply_call encode op fresh ≡ (no_error, w)
      → Writer.close w ≡ (no_error, w)
      → exchange json env (many env) []
        ≡ finish json env
            (many env)
            (Environment.write env tr op)
            (after_write json env (many env) op tr)
      → served ≡ (returns no_error, w.target)
  served_once op tr w f a c e =
      served_lem (wrote close_writer no_error ∷ wrote op no_error ∷ tr)
        (e ∙ sent_once op tr w f a c)
      ∙ ap (λ t. (returns no_error, t)) (writer_after_once op tr w f a c)

  -- If the response of the exchanger can be encoded and no write fails, an HTTP request that is
  -- read as one valid call is answered with that response, followed by a line feed, with the JSON
  -- content type and status 200 for a success and the status of the error otherwise.
  pub serve_call :
      (req : Request)
      → Reader.read d parse_media_type r ≡ single req
      → validate_set_server_side json (single req).0 ≡ none
      → is_notification req ≡ false
      → CanEncode encode (Exchanger.call (Handler.exchanger h) [] ctx req)
      → let res = Exchanger.call (Handler.exchanger h) [] ctx req in
        served ≡ (returns no_error, answer (unbatched_status res) ((encode res).0 ++ 0x0a ∷ []))
  unfolding writer_after
  serve_call req read valid n encodes =
      let res = Exchanger.call (Handler.exchanger h) [] ctx req in
      let (e, c, t) = unbatched_sent encode res encodes in
      served_once (write_unbatched res) (logged_call req res ∷ called req res ∷ [])
        (Writer.write_unbatched encode res fresh).1 refl (ground (arith, e)) c
        (exchange_call json env (many env) refl req false [] read (rw read valid) n)
      ∙ ap (λ t. (returns no_error, t)) t

  -- One that is read as one valid notification is answered with status 204 and no body.
  pub serve_notification :
      (req : Request)
      → Reader.read d parse_media_type r ≡ single req
      → validate_set_server_side json (single req).0 ≡ none
      → is_notification req ≡ true
      → served ≡ (returns no_error, target none (some (204, none)) [])
  unfolding writer_after Writer.close
  serve_notification req read valid n =
      let err = Exchanger.notify (Handler.exchanger h) [] ctx req in
      served_lem (wrote close_writer no_error ∷ logged_notification req err ∷ notified req err ∷ [])
        (exchange_notification json env (many env) refl req false [] read (rw read valid) n ∙ refl)
      ∙ refl

  -- One that is read as a set that is not valid is answered with the error of validation, if its
  -- response can be encoded, followed by
  -- a line feed, with the status of the error, which is 400 at least.
  pub serve_invalid :
      {e : Error}
      → (Reader.read d parse_media_type r).1 ≡ no_error
      → validate_set_server_side json (Reader.read d parse_media_type r).0 ≡ some e
      → CanEncode encode (failure (new_error_response json none (as_error e)))
      → let res = new_error_response json none (as_error e) in
        served
        ≡ (returns no_error, answer (error_status res) ((encode (failure res)).0 ++ 0x0a ∷ []))
  unfolding writer_after
  serve_invalid {e} read invalid encodes =
      let res = new_error_response json none (as_error e) in
      let (e, c, t, low, high) = error_sent encode res encodes in
      served_once (write_error res) (logged_error res ∷ []) (Writer.write_error encode res fresh).1
        refl (ground (arith, e)) c (exchange_invalid json env (many env) refl [] read invalid)
      ∙ ap (λ t. (returns no_error, t)) t
