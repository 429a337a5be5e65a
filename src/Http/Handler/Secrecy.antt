-- ===== src/Http/Handler/Secrecy.antt =====
-- transport/httptransport/handler.go: answers of exchangers that differ in server-side errors only.
use harpy.Prelude.{◌≡◌, false, refl, ap, ◌∙◌, sym, String, Option, [], ◌∷◌, arith}
use harpy.Go.{Bytes, Context, GoError, Outcome, Json}
use harpy.Request.{Request}
use harpy.Request.Set.{RequestDecoder}
use harpy.Response.{Response, success, failure, as_received}
use harpy.Exchange.{exchange}
use harpy.Exchange.Events.{
  WriterCall, write_unbatched, write_batched, Event, wrote, Trace, Environment,
}
use harpy.Exchange.Secrecy.{blind, blind_call, blind_event, discreet, IsDiscreet, exchange-Follows}
use harpy.Exchange.Many.Secrecy.{exchange_many-Follows}
use harpy.Exchange.Many.Run.{Schedule, exchange_many}
use harpy.Http.Reader.{HttpRequest}
use harpy.Http.Target.{Target}
use harpy.Http.Writer
use harpy.Http.Writer.{ResponseWriter}
use harpy.Http.Handler.{Exchanger, apply_call, writer_after, environment, serve_http}

blind_event-idempotent : (event : Event) → blind_event (blind_event event) ≡ blind_event event
blind_event-idempotent event = ground arith

blind-idempotent : (tr : Trace) → blind (blind tr) ≡ blind tr
blind-idempotent [] = refl
blind-idempotent (event ∷ tr) = rw (blind_event-idempotent event, blind-idempotent tr) refl

-- The two exchangers answer calls with responses that are the same as they are sent, whatever
-- server-side errors they have given before.
abbrev pub LookAlike : Exchanger → Exchanger → Type 0
LookAlike e e' =
    (tr tr' : Trace) (ctx : Context) (req : Request)
    → blind tr ≡ blind tr'
    → as_received (Exchanger.call e tr ctx req) ≡ as_received (Exchanger.call e' tr' ctx req)

module _ (encode : Response → Bytes × GoError)
    (hides : (res : Response) → encode (as_received res) ≡ encode res) where
  apply_call-blind :
      (op : WriterCall) (w : ResponseWriter)
      → apply_call encode (blind_call op) w ≡ apply_call encode op w
  unfolding apply_call Writer.write_error Writer.write_unbatched Writer.write_batched Writer.close
  apply_call-blind (write_unbatched (success res)) w = rw (hides (success res)) refl
  apply_call-blind (write_batched (success res)) w = rw (hides (success res)) refl
  apply_call-blind (write_unbatched (failure res)) w = rw (hides (failure res)) refl
  apply_call-blind (write_batched (failure res)) w = rw (hides (failure res)) refl
  apply_call-blind op w = refl

  writer_after-blind :
      (w : ResponseWriter) (tr : Trace)
      → writer_after encode w (blind tr) ≡ writer_after encode w tr
  unfolding writer_after
  writer_after-blind w [] = refl
  writer_after-blind w (wrote op err ∷ tr) =
      ap (λ v. (apply_call encode (blind_call op) v).1) (writer_after-blind w tr)
      ∙ ap (λ p. p.1) (apply_call-blind op (writer_after encode w tr))
  writer_after-blind w (event ∷ tr) = writer_after-blind w tr

  module _ (json : Json) (d : RequestDecoder) (parse_media_type : String → String × GoError)
      (ctx : Context) (schedule : Schedule) (e e' : Exchanger) (alike : LookAlike e e')
      (r : HttpRequest) (t : Target) where
    abbrev environment_of : Exchanger → Environment
    environment_of x = environment json d parse_media_type encode ctx (exchange_many schedule) x r t

    abbrev unwritten : ResponseWriter
    unwritten = record { target = t; has_response = false; array_open = false }

    writes_blindly :
        (tr : Trace) (op : WriterCall) (x : Exchanger)
        → Environment.write (environment_of x) (blind tr) (blind_call op)
          ≡ Environment.write (environment_of x) tr op
    writes_blindly tr op x =
        ap (λ w. (apply_call encode (blind_call op) w).0) (writer_after-blind unwritten tr)
        ∙ ap (λ p. p.0) (apply_call-blind op (writer_after encode unwritten tr))

    first-IsDiscreet : IsDiscreet (environment_of e)
    first-IsDiscreet = (
      λ tr ctx' req.
          alike (blind tr) tr ctx' req (blind-idempotent tr) ∙ sym (alike tr tr ctx' req refl),
      λ tr op. writes_blindly tr op e,
    )

    second-IsDiscreet : IsDiscreet (environment_of e')
    second-IsDiscreet = (
      λ tr ctx' req.
          sym (alike tr (blind tr) ctx' req (sym (blind-idempotent tr)))
          ∙ alike tr tr ctx' req refl,
      λ tr op. writes_blindly tr op e',
    )

    same_environment : discreet (environment_of e) ≡ discreet (environment_of e')
    same_environment i = record (discreet (environment_of e)) {
      call = λ tr ctx' req. alike tr tr ctx' req refl i;
    }

    -- The outcome of an exchange and its history without the errors.
    abbrev seen : Environment → Outcome GoError × Trace
    seen env = let (o, tr) = exchange json env (exchange_many schedule env) [] in (o, blind tr)

    seen-discreet :
        (env : Environment)
        → IsDiscreet env
        → exchange json (discreet env) (exchange_many schedule (discreet env)) [] ≡ seen env
    seen-discreet env h =
        exchange-Follows json env h (exchange_many schedule env)
          (exchange_many schedule (discreet env)) (exchange_many-Follows env h schedule) []

    same_seen : seen (environment_of e) ≡ seen (environment_of e')
    same_seen =
        sym (seen-discreet (environment_of e) first-IsDiscreet)
        ∙ ap (λ env. exchange json env (exchange_many schedule env) []) same_environment
        ∙ seen-discreet (environment_of e') second-IsDiscreet

    abbrev answer_of : Outcome GoError × Trace → Outcome GoError × Target
    answer_of (o, tr) = (o, (writer_after encode unwritten tr).target)

    answer_of-blind : (p : Outcome GoError × Trace) → answer_of (p.0, blind p.1) ≡ answer_of p
    answer_of-blind (o, tr) =
        ap (λ (w : ResponseWriter). (o, w.target)) (writer_after-blind unwritten tr)

    pub serve_http-LookAlike :
        {Logger : Type 0} (new_logger : Option (String → Logger))
        → serve_http json d parse_media_type encode ctx
            (exchange_many schedule)
            (record { exchanger = e; new_logger = new_logger })
            r
            t
          ≡ serve_http json d parse_media_type encode ctx
              (exchange_many schedule)
              (record { exchanger = e'; new_logger = new_logger })
              r
              t
    unfolding serve_http
    serve_http-LookAlike new_logger =
        sym (
          answer_of-blind
            (exchange json (environment_of e) (exchange_many schedule (environment_of e)) []))
        ∙ ap answer_of same_seen
        ∙ answer_of-blind
            (exchange json (environment_of e') (exchange_many schedule (environment_of e')) [])
