-- ===== src/Http/Handler/Answered.antt =====
-- transport/httptransport/handler.go and writer.go: the status of an answer.
use harpy.Prelude.{ℕ, ◌≡◌, refl, ◌≢◌, ◌⊎◌, inl, String, false, [], ◌∷◌, none, arith}
use harpy.Go.{Bytes, Context, GoError, Json}
use harpy.Request.Set.{RequestDecoder}
use harpy.Response.{Response, failure}
use harpy.Exchange.{exchange}
use harpy.Exchange.Closing.{Returns, closings}
use harpy.Exchange.Events.{
  WriterCall, write_error, write_unbatched, write_batched, close_writer, called, wrote, Trace,
}
use harpy.Exchange.Many.Run.{Schedule, exchange_many}
use harpy.Exchange.Many.Run.Laws.{exchange_closes_once}
use harpy.Http.Reader.{HttpRequest}
use harpy.Http.Target.{Target, write_header, write, encode, set_content_type}
use harpy.Http.Writer
use harpy.Http.Writer.{ResponseWriter, error_status, unbatched_status}
use harpy.Http.{media_type}
use harpy.Http.Handler.{Handler, apply_call, writer_after, environment, serve_http}

-- The headers have been sent, with a status.
abbrev pub HasStatus : Target → Type 0
HasStatus t = t.sent ≢ none

-- A writer that has written a response, or the beginning of an array, has sent the headers.
abbrev IsHonest : ResponseWriter → Type 0
IsHonest w = ((w.has_response ≡ false) × (w.array_open ≡ false)) ⊎ HasStatus w.target

write_header-status : (status : ℕ) (t : Target) → HasStatus (write_header status t)
unfolding write_header
write_header-status status t = ground arith

write-status : (b : Bytes) (t : Target) → HasStatus (write b t).1
unfolding write
write-status b t = ground arith

encode-status : (text : Bytes × GoError) (t : Target) → HasStatus t → HasStatus (encode text t).1
unfolding encode
encode-status text t h = ground arith

module _ (json : Response → Bytes × GoError) where
  apply_call-IsHonest :
      (op : WriterCall) (w : ResponseWriter) → IsHonest w → IsHonest (apply_call json op w).1
  unfolding apply_call Writer.write_error Writer.write_unbatched Writer.write_batched Writer.close
  apply_call-IsHonest (write_error res) w h = ground (
    arith,
    encode-status (json (failure res))
        (write_header (error_status res) (set_content_type media_type w.target)),
    write_header-status (error_status res) (set_content_type media_type w.target),
  )
  apply_call-IsHonest (write_unbatched res) w h = ground (
    arith,
    encode-status (json res)
        (write_header (unbatched_status res) (set_content_type media_type w.target)),
    write_header-status (unbatched_status res) (set_content_type media_type w.target),
  )
  apply_call-IsHonest (write_batched res) w h = ground arith
  apply_call-IsHonest close_writer w h = ground arith

  -- A status that has been sent stays.
  apply_call-status :
      (op : WriterCall) (w : ResponseWriter)
      → HasStatus w.target
      → HasStatus (apply_call json op w).1.target
  unfolding apply_call Writer.write_error Writer.write_unbatched Writer.write_batched Writer.close
  apply_call-status (write_error res) w h =
      let t : Target = set_content_type media_type w.target in
      encode-status (json (failure res)) (write_header (error_status res) t)
        (write_header-status (error_status res) t)
  apply_call-status (write_unbatched res) w h =
      let t : Target = set_content_type media_type w.target in
      encode-status (json res) (write_header (unbatched_status res) t)
        (write_header-status (unbatched_status res) t)
  apply_call-status (write_batched res) w h = ground arith
  apply_call-status close_writer w h = ground arith

  close-status :
      (w : ResponseWriter) → IsHonest w → HasStatus (apply_call json close_writer w).1.target
  unfolding apply_call Writer.close
  close-status w h = ground arith

  abbrev new : Target → ResponseWriter
  new t = record { target = t; has_response = false; array_open = false }

  writer_after-IsHonest : (t : Target) (tr : Trace) → IsHonest (writer_after json (new t) tr)
  unfolding writer_after
  writer_after-IsHonest t [] = inl (refl, refl)
  writer_after-IsHonest t (wrote op err ∷ tr) =
      apply_call-IsHonest op (writer_after json (new t) tr) (writer_after-IsHonest t tr)
  writer_after-IsHonest t (called req res ∷ tr) = writer_after-IsHonest t tr
  writer_after-IsHonest t (e ∷ tr) = writer_after-IsHonest t tr

  writer_after-status :
      (t : Target) (tr : Trace) → closings tr ≢ 0 → HasStatus (writer_after json (new t) tr).target
  unfolding writer_after
  writer_after-status t [] h = absurd (h refl)
  writer_after-status t (wrote close_writer err ∷ tr) h =
      close-status (writer_after json (new t) tr) (writer_after-IsHonest t tr)
  writer_after-status t (wrote (write_error res) err ∷ tr) h =
      apply_call-status (write_error res) _ (writer_after-status t tr h)
  writer_after-status t (wrote (write_unbatched res) err ∷ tr) h =
      apply_call-status (write_unbatched res) _ (writer_after-status t tr h)
  writer_after-status t (wrote (write_batched res) err ∷ tr) h =
      apply_call-status (write_batched res) _ (writer_after-status t tr h)
  writer_after-status t (called req res ∷ tr) h = writer_after-status t tr h
  writer_after-status t (e ∷ tr) h = writer_after-status t tr h

-- Whatever the HTTP request is, whatever the exchanger answers and in whatever order the goroutines
-- of a batch run, whichever writes fail and whether or not responses can be encoded: `ServeHTTP`
-- does not panic, and it sends the headers with a status.
pub always_answered :
    (json : Json) (d : RequestDecoder) (parse_media_type : String → String × GoError)
    (encode : Response → Bytes × GoError) (ctx : Context) (schedule : Schedule) {Logger : Type 0}
    (h : Handler Logger) (r : HttpRequest) (t : Target)
    → let (o, t') = serve_http json d parse_media_type encode ctx (exchange_many schedule) h r t in
      Returns o × HasStatus t'
unfolding serve_http
always_answered json d parse_media_type encode ctx schedule h r t =
    let env =
      environment json d parse_media_type encode ctx (exchange_many schedule) (Handler.exchanger h)
        r t in
    let (returned, closed) = exchange_closes_once json env schedule [] in
    let tr = (exchange json env (exchange_many schedule env) []).1 in
    (returned, writer_after-status encode t tr (λ e. omega arith))
