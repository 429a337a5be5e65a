-- ===== src/Http/Routed/Secrecy.antt =====
-- transport/httptransport with router.go: servers whose handlers differ in secret errors only.
mod Tests
use harpy.Prelude.{
  ◌≡◌, ◌⊎◌, inl, inr, refl, ap, ◌∙◌, sym, String, true, false, not, if◌then◌else◌, List, [], Option,
  none, some, arith, Option-cases, Bool-cases,
}
use harpy.Error.{Error, as_error, marshal_data, error_message, method_not_found}
use harpy.Go.{
  Any, Bytes, RawMessage, Context, GoError, no_error, no_data, json_data, in_memory, is_nil,
  is_context_error, error_text, Json,
}
use harpy.Request.{Request}
use harpy.Request.Set.{RequestDecoder}
use harpy.Response.{Response, failure, as_received, new_error_response, new_success_response}
use harpy.Response.Laws.{is_server_error, new_error_response_hides, new_error_response_delivers}
use harpy.Router
use harpy.Router.{UntypedHandler, Router, lookup}
use harpy.Exchange.Many.Run.{Schedule, exchange_many}
use harpy.Http.Reader.{HttpRequest}
use harpy.Http.Target.{Target}
use harpy.Http.Handler.{serve_http}
use harpy.Http.Handler.Secrecy.{serve_http-LookAlike}
use harpy.Http.Routed.{routed, router_exchanger}

-- An error that is neither a server-side error of the package nor that of a context.
abbrev pub IsSecret : GoError → Type 0
IsSecret err = (is_nil err ≡ false) × (is_server_error err ≡ false) × (is_context_error err ≡ false)

module _ (json : Json) where
  -- Errors that a client need not be able to tell apart: the same error, two secret ones, or the
  -- same server-side error, whose data can be marshaled, with two causes.
  abbrev pub ErrorsAlike : GoError → GoError → Type 0
  ErrorsAlike err err' =
      (err ≡ err')
      ⊎ ((IsSecret err × IsSecret err')
          ⊎ ((e : Error) × ((cause : GoError) × ((err ≡ as_error e)
                  × (err' ≡ as_error (record e { cause = cause }))
                  × (e.is_server_side ≡ true)
                  × ((marshal_data json e).2 ≡ no_error)))))

  -- What handlers return: the same result without an error, or errors that are alike.
  abbrev pub ReturnsAlike : Any × GoError → Any × GoError → Type 0
  ReturnsAlike (result, err) (result', err') =
      ((result ≡ result') × (err ≡ no_error) × (err' ≡ no_error))
      ⊎ ((is_nil err ≡ false) × ErrorsAlike err err')

  abbrev pub HandlersAlike :
      Context → Request → Option UntypedHandler → Option UntypedHandler → Type 0
  HandlersAlike ctx req none none = Unit
  HandlersAlike ctx req (some h) (some h') = ReturnsAlike (h ctx req) (h' ctx req)
  HandlersAlike ctx req _ _ = ⊥

  -- The two routers have the same methods, with handlers that are alike.
  abbrev pub RoutersAlike : Router → Router → Type 0
  RoutersAlike router router' =
      (ctx : Context) (req : Request)
      → HandlersAlike ctx req (lookup req.method (Router.routes router))
          (lookup req.method (Router.routes router'))

module _ (json : Json) (validate : Any → Option GoError) where
  abbrev told : RawMessage → GoError → Response
  told id err = as_received (failure (new_error_response json id err))

  abbrev Agrees : Error → GoError → Type 0
  Agrees e cause =
      let m = marshal_data json e in
      let m' = marshal_data json (record e { cause = cause }) in
      (m'.0 ≡ m.0) × (m'.1 ≡ m.1) × (m'.2 ≡ m.2)

  marshal_data-cause : (e : Error) (cause : GoError) → Agrees e cause
  unfolding marshal_data
  marshal_data-cause e cause =
      elim (e.error_data) as (λ v. Agrees (record e { error_data = v }) cause) [
        | no_data ↦ (refl, refl, refl)
        | json_data b ↦ (refl, refl, refl)
        | in_memory v m b x ↦ (refl, refl, refl)
      ]

  told-cause :
      (id : RawMessage) (e : Error) (cause : GoError)
      → e.is_server_side ≡ true
      → (marshal_data json e).2 ≡ no_error
      → told id (as_error e) ≡ told id (as_error (record e { cause = cause }))
  unfolding error_message
  told-cause id e cause s good =
      let same = marshal_data-cause e cause in
      let first = new_error_response_delivers json id e s in
      let second = new_error_response_delivers json id (record e { cause = cause }) s in
      ground arith

  told-ErrorsAlike :
      (id : RawMessage) (err err' : GoError)
      → ErrorsAlike json err err'
      → told id err ≡ told id err'
  told-ErrorsAlike id err err' (inl same) = ap (told id) same
  told-ErrorsAlike id err err' (inr (inl (secret, secret'))) =
      ground (arith, new_error_response_hides json id err, new_error_response_hides json id err')
  told-ErrorsAlike id err err' (inr (inr (e, (cause, (p, q, s, good))))) =
      ap (told id) p ∙ told-cause id e cause s good ∙ sym (ap (told id) q)

  abbrev from_return : RawMessage → Any × GoError → Response
  from_return id (result, err) =
      if not (is_nil err)
      then failure (new_error_response json id err)
      else new_success_response json validate id result

  abbrev from_handler : Context → Request → Option UntypedHandler → Response
  from_handler ctx req none =
      failure (new_error_response json req.id (as_error (method_not_found [])))
  from_handler ctx req (some h) = from_return req.id (h ctx req)

  alike-nil :
      (err err' : GoError) → is_nil err ≡ false → ErrorsAlike json err err' → is_nil err' ≡ false
  alike-nil err err' h (inl same) = cc
  alike-nil err err' h (inr (inl (secret, secret'))) = secret'.0
  alike-nil err err' h (inr (inr (e, (cause, (p, q, s, good))))) = ap is_nil q

  from_return-ReturnsAlike :
      (id : RawMessage) (p p' : Any × GoError)
      → ReturnsAlike json p p'
      → as_received (from_return id p) ≡ as_received (from_return id p')
  from_return-ReturnsAlike id (result, err) (result', err') (inl (same, good, good')) =
      rw (same, good, good') refl
  from_return-ReturnsAlike id (result, err) (result', err') (inr (bad, alike)) =
      rw (bad, alike-nil err err' bad alike) (told-ErrorsAlike id err err' alike)

  from_handler-HandlersAlike :
      (ctx : Context) (req : Request) (o o' : Option UntypedHandler)
      → HandlersAlike json ctx req o o'
      → as_received (from_handler ctx req o) ≡ as_received (from_handler ctx req o')
  from_handler-HandlersAlike ctx req none none alike = refl
  from_handler-HandlersAlike ctx req (some h) (some h') alike =
      from_return-ReturnsAlike req.id (h ctx req) (h' ctx req) alike
  from_handler-HandlersAlike ctx req none (some h) alike = absurd alike
  from_handler-HandlersAlike ctx req (some h) none alike = absurd alike

  call-RoutersAlike :
      (router router' : Router)
      → RoutersAlike json router router'
      → (ctx : Context) (req : Request)
      → as_received (Router.call json validate router ctx req)
        ≡ as_received (Router.call json validate router' ctx req)
  unfolding Router.call
  call-RoutersAlike router router' alike ctx req =
      from_handler-HandlersAlike ctx req (lookup req.method (Router.routes router))
        (lookup req.method (Router.routes router')) (alike ctx req)

-- Two servers with routers that have the same methods, and whose handlers return the same result or
-- errors that are alike: the same error, two secret ones, or the same server-side error with two
-- causes. If the text of a response does not depend on its server-side error, the servers answer
-- every HTTP request with the same status, the same headers and the same bytes, and `Exchange`
-- returns the same error, in whatever order the goroutines of a batch run, and whichever writes
-- fail.
pub secrets_kept :
    (json : Json) (validate : Any → Option GoError) (d : RequestDecoder)
    (parse_media_type : String → String × GoError) (encode : Response → Bytes × GoError)
    (ctx : Context) (schedule : Schedule) (router router' : Router) {Logger : Type 0}
    (new_logger : Option (String → Logger)) (r : HttpRequest) (t : Target)
    → ((res : Response) → encode (as_received res) ≡ encode res)
    → RoutersAlike json router router'
    → serve_http json d parse_media_type encode ctx
        (exchange_many schedule)
        (routed json validate router new_logger)
        r
        t
      ≡ serve_http json d parse_media_type encode ctx
          (exchange_many schedule)
          (routed json validate router' new_logger)
          r
          t
secrets_kept json validate d parse_media_type encode ctx schedule router router' new_logger r t
      hides alike =
    serve_http-LookAlike encode hides json d parse_media_type ctx schedule
      (router_exchanger json validate router) (router_exchanger json validate router')
      (λ tr tr' ctx' req same. call-RoutersAlike json validate router router' alike ctx' req) r t
      new_logger
