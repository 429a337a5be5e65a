-- ===== src/Http/Routed/Received.antt =====
-- transport/httptransport with router.go and response.go: the answer to a batch as a client reads
-- it.
use mathlib.Core.Path.{subst}
use mathlib.Core.List.{Perm}
use mathlib.Core.List.Perm
use harpy.Prelude.{
  ◌≡◌, ◌≢◌, refl, ap, ◌∙◌, sym, String, true, List, [], ◌∷◌, map, Option, none, some, All,
}
use harpy.Go.{Any, Bytes, RawMessage, raw_bytes, Context, GoError, no_error, Json}
use harpy.Go.Array.{array_text}
use harpy.Request.{Request}
use harpy.Request.Set.{RequestDecoder, validate_set_server_side}
use harpy.Request.Batch.RoundTrip.{reader_of}
use harpy.Response.{ErrorInfo, Response, response_id}
use harpy.Response.Laws.{IsValidResponse}
use harpy.Response.Set.{
  ResponseSet, ResponseDecoder, unmarshal_response_set, validate_response_set,
  validate_response_set_iff,
}
use harpy.Router.{Router, lookup}
use harpy.Router.Answers.{LacksResult}
use harpy.Exchange.Many.Matching.{calls_in}
use harpy.Exchange.Many.Run.{Schedule, exchange_many}
use harpy.Http.Reader
use harpy.Http.Reader.{HttpRequest}
use harpy.Http.Writer.Laws.{CanEncode, target, batch_answer, texts}
use harpy.Http.Handler.{serve_http}
use harpy.Http.Handler.Batch.{Encodes}
use harpy.Http.Handler.Batch.Matching.{Returns}
use harpy.Http.RoundTrip.{delivered}
use harpy.Http.Client.{HttpResponse}
use harpy.Http.Routed.{routed, router_exchanger}
use harpy.Http.Routed.Valid.{routed_batch_valid}
use harpy.Http.Routed.Messages.{
  read_array, message_of, KeepsTexts, received_set, received_set-valid, received-ids,
  valid-nonempty,
}

module _ (json : Json) (validate : Any → Option GoError) (router : Router) {Logger : Type 0}
    (new_logger : Option (String → Logger)) (d : RequestDecoder)
    (parse_media_type : String → String × GoError) (encode : Response → Bytes × GoError)
    (ctx : Context) (schedule : Schedule) (r : HttpRequest) (requests : List Request)
    (encodes : Encodes encode (router_exchanger json validate router) requests)
    (read : Reader.read d parse_media_type r
      ≡ (record { requests = requests; is_batch = true }, no_error))
    (valid : validate_set_server_side json (record { requests = requests; is_batch = true }) ≡ none)
    (all : Returns json d parse_media_type encode ctx schedule
      (routed json validate router new_logger)
      r
      requests)
    (rd : ResponseDecoder) (canonical : RawMessage → RawMessage)
    (said : ErrorInfo → ErrorInfo) where
  abbrev pub reply : HttpResponse
  reply =
      delivered
        (serve_http json d parse_media_type encode ctx (exchange_many schedule)
          (routed json validate router new_logger) r (target none none [])).1

  -- If the body of the reply is the JSON array of the texts of some valid responses that can be
  -- encoded, then the decoder reads it as these responses.
  abbrev pub ReadsReply : Type 0
  ReadsReply =
      (ress : List Response)
      → ress ≢ []
      → All (IsValidResponse json) ress
      → All (CanEncode encode) ress
      → reply.body ≡ reader_of (array_text (texts encode ress))
      → ResponseDecoder.many rd true reply.body
        ≡ (map (message_of json canonical said) ress, no_error)

  read_reply :
      (ress : List Response)
      → ReadsReply
      → ress ≢ []
      → All (IsValidResponse json) ress
      → All (CanEncode encode) ress
      → reply.body ≡ (delivered (batch_answer (texts encode ress))).body
      → unmarshal_response_set rd reply.body ≡ (received_set json canonical said ress, no_error)
  read_reply [] reads some_response valid encoded same = absurd (some_response refl)
  read_reply (res ∷ more) reads some_response valid encoded same =
      ap (unmarshal_response_set rd) same
      ∙ read_array rd (encode res).0 (texts encode more)
          (map (message_of json canonical said) (res ∷ more))
          (ap (ResponseDecoder.many rd true) (sym same)
            ∙ reads (res ∷ more) some_response valid encoded same)

  -- A server with a router none of whose handlers ever returns a nil result without an error, and
  -- an HTTP request that is read as a valid batch with a call, where no ID is an empty text: in
  -- whatever order the goroutines of two or more requests run until all have returned, if
  -- `json.Marshal` never gives an empty text without an error, the responses of the router can be
  -- encoded, no write fails, the client's decoder reads the reply as the responses whose texts it
  -- is made of, up to the spelling of JSON texts, and respelling leaves texts and the IDs of
  -- responses what they are, then `UnmarshalResponseSet` reads the answer as a batch that passes
  -- `ResponseSet.Validate`, with the IDs of the calls, so spelled, in some order.
  pub routed_batch_received :
      ((v : Any) → (Json.marshal json v).1 ≡ no_error → raw_bytes (Json.marshal json v).0 ≢ [])
      → ((ctx' : Context) (req : Request)
          → ¬ LacksResult ctx' req (lookup req.method (Router.routes router)))
      → All (λ req. req.id ≢ some []) requests
      → calls_in requests ≢ []
      → ReadsReply
      → KeepsTexts json canonical said
      → (rs : ResponseSet) × (unmarshal_response_set rd reply.body ≡ (rs, no_error))
        × (rs.is_batch ≡ true)
        × (validate_response_set json rs ≡ no_error)
        × Perm (map response_id rs.responses) (map canonical (map Request.id (calls_in requests)))
  routed_batch_received law gives full some_call reads keeps =
      let (ress, served, same, passes, encoded) =
        routed_batch_valid json validate router new_logger d parse_media_type encode ctx schedule r
          requests encodes read valid all law gives full some_call in
      let each =
        ((validate_response_set_iff json (record { responses = ress; is_batch = true })).0
          passes).1 in
      (
        received_set json canonical said ress,
        read_reply ress reads (valid-nonempty json canonical said ress passes) each encoded
            (ap (λ p. (delivered p.1).body) served),
        refl,
        received_set-valid json canonical said ress keeps passes,
        subst (λ ids. Perm ids (map canonical (map Request.id (calls_in requests))))
            (sym (received-ids json canonical said ress each)) (Perm.map canonical same),
      )
