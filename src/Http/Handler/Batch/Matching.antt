-- ===== src/Http/Handler/Batch/Matching.antt =====
-- transport/httptransport/handler.go: the answer to a batch, and the calls in it.
use mathlib.Core.List.{Perm, mem-cons_self}
use mathlib.Core.List.Perm
use harpy.Prelude.{
  ◌<◌, ◌≡◌, refl, String, true, List, [], ◌∷◌, map, none, arith, length, All, Bool-cases, inl, inr,
}
use harpy.Go.{Bytes, Context, GoError, no_error, returns, Json}
use harpy.Request.{Request, is_notification}
use harpy.Request.Set.{RequestDecoder, validate_set_server_side}
use harpy.Request.Set.Laws.{validate_set_server_side_iff}
use harpy.Response.{Response}
use harpy.Exchange.Events.{Trace}
use harpy.Exchange.Many.{here}
use harpy.Exchange.Many.Answers.{AllReturned}
use harpy.Exchange.Many.Matching.{written, calls_in, responses_matched}
use harpy.Exchange.Many.Run.{Schedule, exchange_many}
use harpy.Exchange.Many.Run.Laws.{final, run-Reach}
use harpy.Http.Reader
use harpy.Http.Reader.{HttpRequest}
use harpy.Http.Writer.Laws.{CanEncode, target, batch_answer, texts}
use harpy.Http.Handler.{Exchanger, Handler, serve_http}
use harpy.Http.Handler.Writes.{Reach-IsGood, written-CanEncode}
use harpy.Http.Handler.Batch.{env, history, Encodes, serve_batch}
use harpy.Http.Handler.Batch.Single.{serve_one_call, serve_one_notification}

module _ (json : Json) (d : RequestDecoder) (parse_media_type : String → String × GoError)
    (encode : Response → Bytes × GoError) (ctx : Context) (schedule : Schedule) {Logger : Type 0}
    (h : Handler Logger) (r : HttpRequest) where
  -- The answer to a batch consists of responses that can be encoded and of which `f` tells, in some
  -- order, what `g` tells of the calls in the batch.
  abbrev pub IsAnswered :
      {B : Type 0} → (f : Response → B) (g : Request → B) → List Request → Type 0
  IsAnswered f g requests =
      (ress : List Response) × (serve_http json d parse_media_type encode ctx
          (exchange_many schedule) h r (target none none [])
        ≡ (returns no_error, batch_answer (texts encode ress)))
      × Perm (map f ress) (map g (calls_in requests))
      × All (CanEncode encode) ress

  -- All goroutines of the batch return, if there are any.
  abbrev pub Returns : List Request → Type 0
  Returns requests =
      1 < length requests
      → AllReturned requests
          (final json (env json d parse_media_type encode ctx schedule h r) schedule [] requests).pc

  module _ {B : Type 0} (dec : (x y : B) → Dec (x ≡ y)) (f : Response → B) (g : Request → B)
      (agrees : (tr : Trace) (ctx' : Context) (req : Request)
        → f (Exchanger.call (Handler.exchanger h) tr ctx' req) ≡ g req) where
    one-IsAnswered :
        (req : Request)
        → Encodes encode (Handler.exchanger h) (req ∷ [])
        → Reader.read d parse_media_type r
          ≡ (record { requests = req ∷ []; is_batch = true }, no_error)
        → validate_set_server_side json (record { requests = req ∷ []; is_batch = true }) ≡ none
        → IsAnswered f g (req ∷ [])
    one-IsAnswered req encodes read valid = elim (Bool-cases (is_notification req)) [
      | inl n ↦ (
        [],
        serve_one_notification json d parse_media_type encode ctx schedule h r req read valid n,
        rw n (Perm.refl []),
        tt,
      )
      | inr n ↦ (
        Exchanger.call (Handler.exchanger h) [] ctx req ∷ [],
        serve_one_call json d parse_media_type encode ctx schedule h r req read valid
            (encodes [] ctx req mem-cons_self) n,
        rw (n, agrees [] ctx req) (Perm.refl (g req ∷ [])),
        (encodes [] ctx req mem-cons_self, tt),
      )
    ]

    pub serve_batch_matched :
        (requests : List Request)
        → Encodes encode (Handler.exchanger h) requests
        → Reader.read d parse_media_type r
          ≡ (record { requests = requests; is_batch = true }, no_error)
        → validate_set_server_side json (record { requests = requests; is_batch = true }) ≡ none
        → Returns requests
        → IsAnswered f g requests
    serve_batch_matched [] encodes read valid all = absurd (
        ground
          (arith, validate_set_server_side_iff json (record { requests = []; is_batch = true })))
    serve_batch_matched (req ∷ []) encodes read valid all = one-IsAnswered req encodes read valid
    serve_batch_matched (req ∷ req' ∷ more) encodes read valid all =
        let requests : List Request = req ∷ req' ∷ more in
        let two : 1 < length requests = omega arith in
        let e = env json d parse_media_type encode ctx schedule h r in
        let reached = run-Reach e requests schedule here in
        let good = Reach-IsGood encode e (λ tr res. refl) requests encodes reached in
        let (served, _) =
          serve_batch json d parse_media_type encode ctx schedule h r requests encodes read valid
            two (all two) in
        (
          written (history json d parse_media_type encode ctx schedule h r requests),
          served,
          responses_matched e requests dec f g agrees reached (all two) good.1,
          written-CanEncode encode
              (history json d parse_media_type encode ctx schedule h r requests) good.0,
        )
