-- ===== src/Http/Routed/Valid.antt =====
-- transport/httptransport with router.go: the answer to a batch, and `ResponseSet.Validate`.
use mathlib.Core.Path.{subst}
use mathlib.Core.List.{Perm}
use harpy.Prelude.{
  ◌≡◌, ◌≢◌, refl, ap, ◌∙◌, sym, String, Bool, true, false, List, [], ◌∷◌, map, Option, none, some,
  arith, Bool-cases, inl, inr, All, All-map, All-perm, perm-nil, perm-firsts, pairs,
}
use harpy.Go.{
  Any, Bytes, RawMessage, raw_bytes, RawMessage-discrete, Context, GoError, no_error, is_nil,
  returns, Json,
}
use harpy.ErrorCode.{internal_error_code}
use harpy.Request.{Request, is_notification}
use harpy.Request.Spec.{IsValid}
use harpy.Request.Set.{RequestDecoder, validate_set_server_side}
use harpy.Request.Set.Laws.{validate_set_server_side_iff}
use harpy.Response.{Response, success, failure, response_id, validate_response}
use harpy.Response.Laws.{IsResponseId, IsValidResponse, validate_response_iff}
use harpy.Response.Set.{validate_response_set, validate_response_set_iff}
use harpy.Router
use harpy.Router.{Router, lookup}
use harpy.Router.Answers.{call-id, call-valid_iff, LacksResult}
use harpy.Exchange.Many.Matching.{calls_in}
use harpy.Exchange.Many.Run.{Schedule, exchange_many}
use harpy.Http.Reader
use harpy.Http.Reader.{HttpRequest}
use harpy.Http.Writer.Laws.{CanEncode, target, batch_answer, texts}
use harpy.Http.Handler.{serve_http}
use harpy.Http.Handler.Batch.{Encodes}
use harpy.Http.Handler.Batch.Matching.{Returns, serve_batch_matched}
use harpy.Http.Routed.{routed, router_exchanger}

abbrev IdAndBool : Type 0
IdAndBool = RawMessage × Bool

IdAndBool-discrete : (x y : IdAndBool) → Dec (x ≡ y)
IdAndBool-discrete = hlevel RawMessage-discrete

abbrev CanPass : IdAndBool → Type 0
CanPass p = p.1 ≡ true

module _ (json : Json) where
  abbrev passes : Response → Bool
  passes res = is_nil (validate_response json res)

  abbrev id_response : RawMessage → Response
  id_response id = failure (record {
    version = "2.0";
    request_id = id;
    error = record { code = internal_error_code; message = ""; info_data = none };
    server_error = no_error;
  })

  -- Whether a response with this ID can pass validation.
  abbrev id_passes : RawMessage → Bool
  id_passes id = passes (id_response id)

  passes-id : (res : Response) → passes res ≡ true → IsResponseId json (response_id res)
  passes-id (success res) h = ground (arith, validate_response_iff json (success res))
  passes-id (failure res) h = ground (arith, validate_response_iff json (failure res))

  id_passes-IsResponseId : (id : RawMessage) → IsResponseId json id → id_passes id ≡ true
  id_passes-IsResponseId id h =
      ap is_nil ((validate_response_iff json (id_response id)).1 (refl, h))

  passes-call :
      (validate : Any → Option GoError) (router : Router) (ctx : Context) (req : Request)
      → ((v : Any) → (Json.marshal json v).1 ≡ no_error → raw_bytes (Json.marshal json v).0 ≢ [])
      → ¬ LacksResult ctx req (lookup req.method (Router.routes router))
      → passes (Router.call json validate router ctx req) ≡ id_passes req.id
  passes-call validate router ctx req law gives = elim (Bool-cases (id_passes req.id)) [
    | inl e ↦
        ap is_nil (
          (call-valid_iff json validate router ctx req (passes-id (id_response req.id) e) law).1
            gives)
        ∙ sym e
    | inr e ↦ elim (Bool-cases (passes (Router.call json validate router ctx req))) [
      | inl good ↦
          let same = call-id json validate router ctx req in
          let fits = subst (IsResponseId json) same (passes-id _ good) in
          cc (id_passes-IsResponseId req.id fits)
      | inr bad ↦ bad ∙ sym e
    ]
  ]

  valid-id_passes :
      (req : Request)
      → is_notification req ≡ false
      → req.id ≢ some []
      → IsValid json req
      → id_passes req.id ≡ true
  unfolding is_notification
  valid-id_passes req n h v = id_passes-IsResponseId req.id (ground arith)

  abbrev answers : List Response → List IdAndBool
  answers = pairs response_id passes

  abbrev asked_for : List Request → List IdAndBool
  asked_for = pairs Request.id (λ req. id_passes req.id)

  -- The IDs of the calls among valid requests can stand in a response.
  calls-id_passes :
      (requests : List Request)
      → All (IsValid json) requests
      → All (λ req. req.id ≢ some []) requests
      → All CanPass (asked_for (calls_in requests))
  calls-id_passes [] valid full = tt
  calls-id_passes (req ∷ more) valid full =
      let rest = calls-id_passes more valid.1 full.1 in
      elim (Bool-cases (is_notification req)) [
        | inl n ↦ rw n rest
        | inr n ↦ rw n (valid-id_passes req n full.0 valid.0, rest)
      ]

  passing-valid :
      (ress : List Response) → All (λ res. passes res ≡ true) ress → All (IsValidResponse json) ress
  passing-valid [] all = tt
  passing-valid (res ∷ more) all =
      (ground (arith, all.0, validate_response_iff json res), passing-valid more all.1)

  set_valid :
      (ress : List Response) (calls : List Request)
      → calls ≢ []
      → Perm (answers ress) (asked_for calls)
      → All CanPass (asked_for calls)
      → validate_response_set json (record { responses = ress; is_batch = true }) ≡ no_error
  set_valid [] [] some_call same all = absurd (some_call refl)
  set_valid [] (req ∷ more) some_call same all = absurd (perm-nil same)
  set_valid (res ∷ more) calls some_call same all =
      (validate_response_set_iff json (record { responses = res ∷ more; is_batch = true })).1 (
        inl (refl, omega arith),
        passing-valid (res ∷ more) (
            All-map CanPass (λ res. (response_id res, passes res)) (res ∷ more)
              (All-perm (λ p. hlevel) same all)),
      )

module _ (json : Json) (validate : Any → Option GoError) (router : Router) {Logger : Type 0}
    (new_logger : Option (String → Logger)) (d : RequestDecoder)
    (parse_media_type : String → String × GoError) (encode : Response → Bytes × GoError)
    (ctx : Context) (schedule : Schedule) (r : HttpRequest) (requests : List Request)
    (encodes : Encodes encode (router_exchanger json validate router) requests)
    (read : Reader.read d parse_media_type r
      ≡ (record { requests = requests; is_batch = true }, no_error))
    (valid : validate_set_server_side json (record { requests = requests; is_batch = true }) ≡ none)
    (all : Returns json d parse_media_type encode ctx schedule
      (routed json validate router new_logger)
      r
      requests) where
  -- A server with a router none of whose handlers ever returns a nil result without an error, and
  -- an HTTP request that is read as a valid batch with a call, where no ID is an empty text: in
  -- whatever order the goroutines of two or more requests run until all have returned, if
  -- `json.Marshal` never gives an empty text without an error, the responses of the router can be
  -- encoded and no write fails, then the answer is made of responses whose IDs are, in some order,
  -- those of the calls, which can be encoded, and which together are a batch that passes
  -- `ResponseSet.Validate`.
  pub routed_batch_valid :
      ((v : Any) → (Json.marshal json v).1 ≡ no_error → raw_bytes (Json.marshal json v).0 ≢ [])
      → ((ctx' : Context) (req : Request)
          → ¬ LacksResult ctx' req (lookup req.method (Router.routes router)))
      → All (λ req. req.id ≢ some []) requests
      → calls_in requests ≢ []
      → (ress : List Response) × (serve_http json d parse_media_type encode ctx
            (exchange_many schedule)
            (routed json validate router new_logger)
            r
            (target none none [])
          ≡ (returns no_error, batch_answer (texts encode ress)))
        × Perm (map response_id ress) (map Request.id (calls_in requests))
        × (validate_response_set json (record { responses = ress; is_batch = true }) ≡ no_error)
        × All (CanEncode encode) ress
  routed_batch_valid law gives full some_call =
      let conforming =
        (validate_set_server_side_iff json (record { requests = requests; is_batch = true })).0
          valid in
      let (ress, served, same, encoded) =
        serve_batch_matched json d parse_media_type encode ctx schedule
          (routed json validate router new_logger) r IdAndBool-discrete
          (λ res. (response_id res, passes json res)) (λ req. (req.id, id_passes json req.id))
          (λ tr ctx' req i. (
            call-id json validate router ctx' req i,
            passes-call json validate router ctx' req law (gives ctx' req) i,
          ))
          requests encodes read valid all in
      (
        ress,
        served,
        perm-firsts response_id (passes json) Request.id (λ req. id_passes json req.id) ress
            (calls_in requests) same,
        set_valid json ress (calls_in requests) some_call same
            (calls-id_passes json requests conforming.1 full),
        encoded,
      )
